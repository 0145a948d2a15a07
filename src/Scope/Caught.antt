-- ===== src/Scope/Caught.antt =====
-- The scope of a caught name covers the name and its siblings once it is watched.
use mathlib.Core.List.{append_assoc}
use mathlib.Core.Path.{subst}
use pkgsentry_oss.Prelude.{
  ℕ, zero, suc, ◌<◌, ◌≡◌, refl, sym, ap, ◌∙◌, String, Bool, true, false, not, ◌&&◌, ◌||◌, inl, inr,
  none, some, List, [], ◌∷◌, all, any, any-append, arith, take, length, nat_eq, leb, str_eq,
  str_eq→≡, eq_iff, Bool-cases, Option-cases, if◌then◌else◌,
}
use pkgsentry_oss.Prelude.Texts.{
  Text, text_eq, starts_with, lower, lower_code, split, split_first, join, text_eq→≡, text_eq_refl,
  lower_idem,
}
use pkgsentry_oss.Scope.{
  matches, find_code, scope_of, WatchlistScope, is_scope, load_scopes, is_scope_watchlisted,
  is_space, lstrip, rstrip, is_slash, is_empty, trim, normal_scope, refresh_scope, add_scope,
  auto_watch_on_malicious, supported, scope_row,
}
use pkgsentry_oss.Scope.Rows.{normal_scope-lower}
use pkgsentry_oss.Scope.Siblings.{
  Falls, Falls-trans, Falls-lower, find_code-cut, has_slash_scopes, matches-Falls,
}

join-cons : (c : ℕ) (p : Text) (ps : List Text) → join 47 ((c ∷ p) ∷ ps) ≡ c ∷ join 47 (p ∷ ps)
join-cons c p [] = refl
join-cons c p (q ∷ ps) = refl

split_first-join : (s : Text) → join 47 ((split_first 47 s).0 ∷ (split_first 47 s).1) ≡ s
split_first-join [] = refl
split_first-join (c ∷ s) =
    let (p, ps) = split_first 47 s in
    let ih = split_first-join s in
    elim (Bool-cases (nat_eq c 47)) [
      | inl y ↦ let same : 47 ≡ c = ground (arith, y) in rw (y, split_first) (cc (same, ih))
      | inr f ↦ rw (f, split_first) (join-cons c p ps ∙ ap (λ t. c ∷ t) ih)
    ]

join-Falls : (parts : List Text) → Falls (join 47 (take 2 parts)) (join 47 parts)
join-Falls [] = inl refl
join-Falls (p ∷ []) = inl refl
join-Falls (p ∷ q ∷ []) = inl refl
join-Falls (p ∷ q ∷ r ∷ parts) =
    inr (join 47 (r ∷ parts), sym (append_assoc p (47 ∷ q) (47 ∷ join 47 (r ∷ parts))))

at_stays :
    (i : ℕ) (name : Text)
    → 0 < i
    → starts_with name (64 ∷ []) ≡ true
    → starts_with (lower (take i name)) (64 ∷ []) ≡ true
unfolding lower_code
at_stays zero name k h = ground (arith, k)
at_stays (suc i) [] k h = ground (arith, h)
at_stays (suc i) (c ∷ name) k h = ground (arith, h)

-- how the scope of a name is found, before its letters are lowered
abbrev IsCut : String → Text → Text → Type 0
IsCut ecosystem name sc =
    (t : Text) × (sc ≡ lower t)
    × Falls t name
    × ((not (str_eq ecosystem "npm") || starts_with sc (64 ∷ [])) ≡ true)

scope_of-npm : (name sc : Text) → scope_of "npm" name ≡ some sc → IsCut "npm" name sc
unfolding scope_of
scope_of-npm name sc k = elim (Option-cases (find_code 47 name)) [
  | inl e ↦ ground (arith, k, e)
  | inr (i, e) ↦
      let cut : (lower (take i name) ≡ sc) × (0 < i) × (starts_with name (64 ∷ []) ≡ true) =
        ground (arith, k, e) in
      (take i name, sym cut.0, find_code-cut name i e, rw (← cut.0) (at_stays i name cut.1 cut.2))
]

if_some : (b : Bool) (x y : Text) → (if b then some x else none) ≡ some y → x ≡ y
if_some true x y h = ground (arith, h)
if_some false x y h = ground (arith, h)

scope_of-gomod : (name sc : Text) → scope_of "gomod" name ≡ some sc → IsCut "gomod" name sc
unfolding scope_of
scope_of-gomod name sc k =
    let parts = split 47 name in
    let cut = if_some (leb 2 (length parts)) (lower (join 47 (take 2 parts))) sc k in
    (join 47 (take 2 parts), sym cut, rw (split_first-join name) at (join-Falls parts), refl)

scope_of-IsCut :
    (ecosystem : String) (name sc : Text)
    → has_slash_scopes ecosystem ≡ true
    → scope_of ecosystem name ≡ some sc
    → IsCut ecosystem name sc
scope_of-IsCut ecosystem name sc h = elim (Bool-cases (str_eq "npm" ecosystem)) [
  | inl y ↦
      subst (λ e. scope_of e name ≡ some sc → IsCut e name sc) (str_eq→≡ "npm" ecosystem y)
        (scope_of-npm name sc)
  | inr f ↦
      let y : str_eq "gomod" ecosystem ≡ true = ground (arith, h, f) in
      subst (λ e. scope_of e name ≡ some sc → IsCut e name sc) (str_eq→≡ "gomod" ecosystem y)
        (scope_of-gomod name sc)
]

abbrev pub no_space : Text → Bool
no_space s = all (λ (c : ℕ). not (is_space c)) s

rstrip-space : (s : Text) → no_space s ≡ true → rstrip is_space s ≡ s
rstrip-space [] h = refl
rstrip-space (c ∷ s) h = ground (arith, h, rstrip-space s)

lstrip-space : (s : Text) → no_space s ≡ true → lstrip is_space s ≡ s
lstrip-space [] h = refl
lstrip-space (c ∷ s) h = ground (arith, h)

trim-space : (s : Text) → no_space s ≡ true → trim s ≡ rstrip is_slash (lower s)
unfolding trim
trim-space s h = rw (lstrip-space s h, rstrip-space s h) refl

rstrip-Falls : (s : Text) → Falls (rstrip is_slash s) s
rstrip-Falls [] = inl refl
rstrip-Falls (c ∷ s) = elim (Bool-cases (is_slash c && is_empty (rstrip is_slash s))) [
  | inl y ↦ let same : c ≡ 47 = ground (arith, y) in rw (y, same) (inr (s, refl))
  | inr f ↦ rw f (elim (rstrip-Falls s) [
    | inl k ↦ inl (ap (λ t. c ∷ t) k)
    | inr (t, k) ↦ inr (t, ap (λ u. c ∷ u) k)
  ])
]

rstrip-at :
    (s : Text) → starts_with s (64 ∷ []) ≡ true → starts_with (rstrip is_slash s) (64 ∷ []) ≡ true
rstrip-at [] h = ground (arith, h)
rstrip-at (c ∷ s) h = ground (arith, h)

module _ (ecosystem : String) (name sc : Text) (h : has_slash_scopes ecosystem ≡ true)
    (cut : IsCut ecosystem name sc) (clean : no_space sc ≡ true) where
  sc-lower : lower sc ≡ sc
  sc-lower = ap lower cut.1 ∙ lower_idem cut.0 ∙ sym cut.1

  normal_scope-cut : normal_scope ecosystem sc ≡ rstrip is_slash sc
  unfolding normal_scope
  normal_scope-cut =
      let trimmed : trim sc ≡ rstrip is_slash sc =
        trim-space sc clean ∙ ap (rstrip is_slash) sc-lower in
      ground (arith, trimmed, cut.3, rstrip-at sc)

  covers : matches ecosystem (normal_scope ecosystem sc) name ≡ true
  covers =
      let near : Falls sc (lower name) = rw cut.1 (Falls-lower cut.0 name cut.2) in
      let all_of : Falls (lower (normal_scope ecosystem sc)) (lower name) =
        rw (normal_scope-lower ecosystem sc, normal_scope-cut)
          (Falls-trans (rstrip is_slash sc) sc (lower name) (rstrip-Falls sc) near) in
      (matches-Falls ecosystem (normal_scope ecosystem sc) name h).1 all_of

any-refresh_scope :
    (ecosystem : String) (s : Text) (p : WatchlistScope → Bool) (now : ℕ)
    (rows : List WatchlistScope)
    → any (is_scope ecosystem s) (refresh_scope p now rows) ≡ any (is_scope ecosystem s) rows
unfolding refresh_scope
any-refresh_scope ecosystem s p now [] = refl
any-refresh_scope ecosystem s p now (r ∷ rows) =
    ground (arith, any-refresh_scope ecosystem s p now rows)

add_scope-any :
    (ecosystem : String) (scope : Text) (source : String) (now : ℕ) (rows : List WatchlistScope)
    → supported ecosystem ≡ true
    → lower (normal_scope ecosystem scope) ≡ normal_scope ecosystem scope
    → any
        (is_scope ecosystem (normal_scope ecosystem scope))
        (add_scope ecosystem scope source now rows).0
      ≡ true
unfolding add_scope
add_scope-any ecosystem scope source now rows h k =
    let s = normal_scope ecosystem scope in
    let p = is_scope ecosystem s in
    let there : p (scope_row ecosystem s source now) ≡ true =
      rw k (ground (arith, eq_iff ecosystem ecosystem, text_eq_refl s)) in
    ground (
      arith,
      h,
      there,
      any-refresh_scope ecosystem s p now rows,
      any-append p rows (scope_row ecosystem s source now ∷ []),
    )

any-load_scopes :
    (ecosystem : String) (s name : Text) (rows : List WatchlistScope)
    → any (is_scope ecosystem s) rows ≡ true
    → matches ecosystem s name ≡ true
    → any (λ (t : Text). matches ecosystem t name) (load_scopes ecosystem rows) ≡ true
unfolding load_scopes
any-load_scopes ecosystem s name [] h k = ground (arith, h)
any-load_scopes ecosystem s name (r ∷ rows) h k = elim (Bool-cases (is_scope ecosystem s r)) [
  | inl y ↦
      let same : lower r.scope ≡ s = text_eq→≡ (lower r.scope) s (ground (arith, y)) in
      let mine : str_eq r.ecosystem ecosystem ≡ true = ground (arith, y) in
      rw mine (rw (same, k) refl)
  | inr f ↦ ground (arith, h, f, any-load_scopes ecosystem s name rows)
]

scope_of-name :
    (ecosystem : String) (name sc : Text)
    → scope_of ecosystem name ≡ some sc
    → text_eq name [] ≡ false
unfolding scope_of
scope_of-name ecosystem [] sc h = ground (arith, h)
scope_of-name ecosystem (c ∷ name) sc h = refl

watched-add_scope :
    (ecosystem : String) (name sc : Text) (now : ℕ) (rows : List WatchlistScope)
    → (auto_watch_on_malicious true ecosystem name now rows).1 ≡ some sc
    → (has_slash_scopes ecosystem ≡ true)
      × ((auto_watch_on_malicious true ecosystem name now rows).0
          ≡ (add_scope ecosystem sc "auto_malicious" now rows).0)
unfolding auto_watch_on_malicious
watched-add_scope ecosystem name sc now rows h = elim (Option-cases (scope_of ecosystem name)) [
  | inl e ↦ ground (arith, h, e)
  | inr (t, e) ↦ ground (arith, h, e)
]

pub auto_watch-some :
    (ecosystem : String) (name sc : Text) (now : ℕ) (rows : List WatchlistScope)
    → has_slash_scopes ecosystem ≡ true
    → scope_of ecosystem name ≡ some sc
    → is_empty sc ≡ false
    → (auto_watch_on_malicious true ecosystem name now rows).1 ≡ some sc
unfolding auto_watch_on_malicious
auto_watch-some ecosystem name sc now rows h k full = ground (arith, h, k, full)

-- When the scope of a caught name is watched automatically, that name and each name with the same scope
-- are force-scanned from then on, provided that no white space stands in the scope.
pub auto_watch-siblings :
    (ecosystem : String) (name sibling sc : Text) (now : ℕ) (rows : List WatchlistScope)
    → (auto_watch_on_malicious true ecosystem name now rows).1 ≡ some sc
    → scope_of ecosystem sibling ≡ some sc
    → no_space sc ≡ true
    → is_scope_watchlisted true ecosystem sibling
        (auto_watch_on_malicious true ecosystem name now rows).0
      ≡ true
unfolding auto_watch_on_malicious is_scope_watchlisted
auto_watch-siblings ecosystem name sibling sc now rows watched same clean =
    let (h, went) = watched-add_scope ecosystem name sc now rows watched in
    let cut = scope_of-IsCut ecosystem sibling sc h same in
    let known : supported ecosystem ≡ true = ground (arith, h) in
    let there =
      add_scope-any ecosystem sc "auto_malicious" now rows known
        (normal_scope-lower ecosystem sc) in
    let found =
      any-load_scopes ecosystem (normal_scope ecosystem sc) sibling
        (add_scope ecosystem sc "auto_malicious" now rows).0 there
        (covers ecosystem sibling sc h cut clean) in
    let some_name = scope_of-name ecosystem sibling sc same in
    rw went (ground (arith, known, found, some_name))
