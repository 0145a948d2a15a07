-- ===== src/Scope/Siblings.antt =====
-- Which names a scope covers, and that the scope of a caught name covers the name and its siblings.
use mathlib.Core.List.{append_assoc}
use pkgsentry_oss.Prelude.{
  ℕ, suc, ◌≡◌, refl, sym, ap, ◌∙◌, String, Bool, true, ◌||◌, ◌⊎◌, ◌↔◌, inl, inr, some, [], ◌∷◌,
  ◌++◌, arith, contains, take, nat_eq, eq_iff, Bool-cases, Option-cases,
}
use pkgsentry_oss.Prelude.Texts.{
  Text, text_eq, starts_with, lower, lower_code, text_eq→≡, text_eq_refl, starts_with-append,
  lower-append,
}
use pkgsentry_oss.Scope.{matches, find_code, auto_watch_ecosystems}

-- the name is the scope, or goes on after it with a slash
abbrev pub Falls : Text → Text → Type 0
Falls s n = (n ≡ s) ⊎ ((rest : Text) × (n ≡ s ++ 47 ∷ rest))

pub Falls-trans : (r s n : Text) → Falls r s → Falls s n → Falls r n
Falls-trans r s n (inl e) k = rw (← e) k
Falls-trans r s n (inr (t, e)) (inl k) = inr (t, k ∙ e)
Falls-trans r s n (inr (t, e)) (inr (u, k)) =
    inr (t ++ 47 ∷ u, k ∙ ap (λ x. x ++ 47 ∷ u) e ∙ append_assoc r (47 ∷ t) (47 ∷ u))

pub Falls-lower : (s n : Text) → Falls s n → Falls (lower s) (lower n)
unfolding lower_code
Falls-lower s n (inl e) = inl (ap lower e)
Falls-lower s n (inr (t, e)) = inr (lower t, ap lower e ∙ lower-append s (47 ∷ t))

-- what `startswith` finds
starts_with-cut : (s p : Text) → starts_with s p ≡ true → (rest : Text) × (s ≡ p ++ rest)
starts_with-cut s [] h = (s, refl)
starts_with-cut [] (d ∷ p) h = cc h
starts_with-cut (c ∷ s) (d ∷ p) h =
    let (rest, e) = starts_with-cut s p (ground (arith, h)) in
    let same : c ≡ d = ground (arith, h) in (rest, cc (same, e))

Falls-found : (s n : Text) → (text_eq n s || starts_with n (s ++ 47 ∷ [])) ≡ true → Falls s n
Falls-found s n h = elim (Bool-cases (text_eq n s)) [
  | inl t ↦ inl (text_eq→≡ n s t)
  | inr f ↦
      let (rest, e) = starts_with-cut n (s ++ 47 ∷ []) (ground (arith, h, f)) in
      inr (rest, e ∙ append_assoc s (47 ∷ []) rest)
]

pub found-Falls : (s n : Text) → Falls s n → (text_eq n s || starts_with n (s ++ 47 ∷ [])) ≡ true
found-Falls s n (inl e) = rw e (ground (arith, text_eq_refl s))
found-Falls s n (inr (t, e)) =
    rw (e, ← append_assoc s (47 ∷ []) t) (ground (arith, starts_with-append (s ++ 47 ∷ []) t))

abbrev pub has_slash_scopes : String → Bool
has_slash_scopes ecosystem = contains auto_watch_ecosystems ecosystem

-- An npm or Go name falls under a scope exactly when, letter case aside, it is the scope or goes on after
-- it with a slash; a name that merely begins like the scope does not.
pub matches-Falls :
    (ecosystem : String) (scope name : Text)
    → has_slash_scopes ecosystem ≡ true
    → (matches ecosystem scope name ≡ true) ↔ Falls (lower scope) (lower name)
unfolding matches
matches-Falls ecosystem scope name h =
    let test =
      text_eq (lower name) (lower scope) || starts_with (lower name) (lower scope ++ 47 ∷ []) in
    let same : matches ecosystem scope name ≡ test = ground (
      arith,
      h,
      eq_iff "npm" ecosystem,
      eq_iff "gomod" ecosystem,
      eq_iff ecosystem "npm",
      eq_iff ecosystem "gomod",
    ) in
    (
      λ k. Falls-found (lower scope) (lower name) (sym same ∙ k),
      λ k. same ∙ found-Falls (lower scope) (lower name) k,
    )

pub find_code-cut : (s : Text) (i : ℕ) → find_code 47 s ≡ some i → Falls (take i s) s
find_code-cut [] i h = ground (arith, h)
find_code-cut (c ∷ s) i h = elim (Option-cases (find_code 47 s)) [
  | inl e ↦ let at : (c ≡ 47) × (i ≡ 0) = ground (arith, h, e) in rw (at.1, at.0) (inr (s, refl))
  | inr (j, e) ↦ elim (Bool-cases (nat_eq c 47)) [
    | inl y ↦
        let at : (c ≡ 47) × (i ≡ 0) = ground (arith, h, e, y) in rw (at.1, at.0) (inr (s, refl))
    | inr f ↦
        let at : i ≡ suc j = ground (arith, h, e, f) in
        rw at (elim (find_code-cut s j e) [
          | inl k ↦ inl (ap (λ t. c ∷ t) k)
          | inr (t, k) ↦ inr (t, ap (λ u. c ∷ u) k)
        ])
  ]
]
