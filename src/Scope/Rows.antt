-- ===== src/Scope/Rows.antt =====
-- The rows of the scopes: removing undoes adding, and seeding twice adds nothing.
use mathlib.Core.Path.{subst}
use pkgsentry_oss.Prelude.{
  ℕ, ◌≡◌, refl, sym, ap, ◌∙◌, String, Bool, true, false, not, ◌&&◌, ◌||◌, inl, inr, List, [], ◌∷◌,
  ◌++◌, all, any, any-append, arith, str_eq, eq_iff, Bool-cases,
}
use pkgsentry_oss.Prelude.Texts.{
  Text, text_eq, starts_with, lower, lower_code, text_eq_refl, lower_idem, lower_code-eq,
}
use pkgsentry_oss.Scope.{
  WatchlistScope, ScopeStatus, is_scope, load_scopes, is_space, lstrip, rstrip, is_slash, trim,
  normal_scope, add_scope, remove_scope, delete_first, scope_row, seed_scopes, seed_baseline,
}

pub lower-rstrip : (s : Text) → lower (rstrip is_slash s) ≡ rstrip is_slash (lower s)
unfolding lower_code
lower-rstrip [] = refl
lower-rstrip (c ∷ s) = ground (arith, lower-rstrip s, lower_code-eq 47 c refl (omega arith))

trim-lower : (s : Text) → lower (trim s) ≡ trim s
unfolding trim
trim-lower s =
    let t = rstrip is_space (lstrip is_space s) in
    lower-rstrip (lower t) ∙ ap (rstrip is_slash) (lower_idem t)

pub normal_scope-lower :
    (ecosystem : String) (s : Text) → lower (normal_scope ecosystem s) ≡ normal_scope ecosystem s
unfolding normal_scope lower_code
normal_scope-lower ecosystem s =
    elim (Bool-cases (str_eq ecosystem "npm" && not (starts_with (trim s) (64 ∷ [])))) [
      | inl y ↦ rw y (ap (λ t. 64 ∷ t) (trim-lower s))
      | inr f ↦ rw f (trim-lower s)
    ]

delete_first-append_one :
    (p : WatchlistScope → Bool) (rows : List WatchlistScope) (r : WatchlistScope)
    → any p rows ≡ false
    → p r ≡ true
    → delete_first p (rows ++ r ∷ []) ≡ rows
delete_first-append_one p [] r h k = rw k refl
delete_first-append_one p (s ∷ rows) r h k = ground (arith, h, k, delete_first-append_one p rows r)

-- Removing a scope right after it was added anew gives back the rows there were.
pub remove_scope-add_scope :
    (ecosystem : String) (scope : Text) (source : String) (now : ℕ) (rows : List WatchlistScope)
    → (add_scope ecosystem scope source now rows).1 ≡ ScopeStatus.added
    → remove_scope ecosystem scope (add_scope ecosystem scope source now rows).0 ≡ (rows, 1)
unfolding add_scope remove_scope
remove_scope-add_scope ecosystem scope source now rows h =
    let s = normal_scope ecosystem scope in
    let p = is_scope ecosystem s in
    let r = scope_row ecosystem s source now in
    let mine : p r ≡ true =
      rw (normal_scope-lower ecosystem scope)
        (ground (arith, eq_iff ecosystem ecosystem, text_eq_refl s)) in
    let new : any p rows ≡ false = ground (arith, h) in
    ground (arith, h, mine, new, any-append p rows (r ∷ []), delete_first-append_one p rows r)

-- the text is among the scopes that are loaded
abbrev pub is_loaded : String → Text → List WatchlistScope → Bool
is_loaded eco t rows = any (text_eq t) (load_scopes eco rows)

is_loaded-append :
    (eco : String) (t : Text) (rows : List WatchlistScope) (r : WatchlistScope)
    → is_loaded eco t (rows ++ r ∷ [])
      ≡ (is_loaded eco t rows || (str_eq r.ecosystem eco && text_eq t (lower r.scope)))
unfolding load_scopes
is_loaded-append eco t [] r = ground arith
is_loaded-append eco t (s ∷ rows) r = ground (arith, is_loaded-append eco t rows r)

seed_scopes-is_loaded :
    (e eco : String) (t : Text) (now : ℕ) (have wanted : List Text) (rows : List WatchlistScope)
    → is_loaded e t rows ≡ true
    → is_loaded e t (seed_scopes eco now have wanted rows).0 ≡ true
unfolding seed_scopes
seed_scopes-is_loaded e eco t now have [] rows h = h
seed_scopes-is_loaded e eco t now have (w ∷ wanted) rows h =
    let r = scope_row eco (trim w) "baseline" now in
    ground (
      arith,
      h,
      is_loaded-append e t rows r,
      seed_scopes-is_loaded e eco t now have wanted rows,
      seed_scopes-is_loaded e eco t now (trim w ∷ have) wanted (rows ++ r ∷ []),
    )

-- what is wanted is there
abbrev pub has_all : String → List Text → List WatchlistScope → Bool
has_all eco wanted rows = all (λ (w : Text). is_loaded eco (trim w) rows) wanted

has_all_mono :
    (eco : String) (wanted : List Text) (rows later : List WatchlistScope)
    → ((t : Text) → is_loaded eco t rows ≡ true → is_loaded eco t later ≡ true)
    → has_all eco wanted rows ≡ true
    → has_all eco wanted later ≡ true
has_all_mono eco [] rows later keep h = refl
has_all_mono eco (w ∷ wanted) rows later keep h =
    ground (arith, h, keep (trim w), has_all_mono eco wanted rows later keep)

seed_scopes-has_all :
    (eco : String) (now : ℕ) (have wanted : List Text) (rows : List WatchlistScope)
    → ((t : Text) → any (text_eq t) have ≡ true → is_loaded eco t rows ≡ true)
    → has_all eco wanted (seed_scopes eco now have wanted rows).0 ≡ true
unfolding seed_scopes
seed_scopes-has_all eco now have [] rows known = refl
seed_scopes-has_all eco now have (w ∷ wanted) rows known =
    let s = trim w in
    let more = rows ++ scope_row eco s "baseline" now ∷ [] in
    elim (Bool-cases (any (text_eq s) have)) [
      | inl y ↦
          let there = seed_scopes-is_loaded eco eco s now have wanted rows (known s y) in
          let rest = seed_scopes-has_all eco now have wanted rows known in
          let step : (seed_scopes eco now have (w ∷ wanted) rows).0
              ≡ (seed_scopes eco now have wanted rows).0 =
            rw (y, seed_scopes) refl in
          subst (λ rs. has_all eco (w ∷ wanted) rs ≡ true) (sym step) (rw there rest)
      | inr f ↦
          let added : (t : Text) → is_loaded eco t more ≡ (is_loaded eco t rows || text_eq t s) =
            λ t.
              is_loaded-append eco t rows (scope_row eco s "baseline" now)
              ∙ rw (trim-lower w) (ground (arith, eq_iff eco eco)) in
          let known_more : (t : Text)
              → any (text_eq t) (s ∷ have) ≡ true
              → is_loaded eco t more ≡ true =
            λ t k. ground (arith, k, known t, added t) in
          let there =
            seed_scopes-is_loaded eco eco s now (s ∷ have) wanted more
              (known_more s (ground (arith, text_eq_refl s))) in
          let rest = seed_scopes-has_all eco now (s ∷ have) wanted more known_more in
          let step : (seed_scopes eco now have (w ∷ wanted) rows).0
              ≡ (seed_scopes eco now (s ∷ have) wanted more).0 =
            rw (f, seed_scopes) refl in
          subst (λ rs. has_all eco (w ∷ wanted) rs ≡ true) (sym step) (rw there rest)
    ]

seed_scopes-none :
    (eco : String) (now : ℕ) (have wanted : List Text) (rows : List WatchlistScope)
    → all (λ (w : Text). any (text_eq (trim w)) have) wanted ≡ true
    → seed_scopes eco now have wanted rows ≡ (rows, 0)
unfolding seed_scopes
seed_scopes-none eco now have [] rows h = refl
seed_scopes-none eco now have (w ∷ wanted) rows h =
    ground (arith, h, seed_scopes-none eco now have wanted rows)

abbrev pub is_complete : List (String × List Text) → List WatchlistScope → Bool
is_complete [] rows = true
is_complete ((eco, wanted) ∷ ecos) rows = has_all eco wanted rows && is_complete ecos rows

seed_baseline-is_loaded :
    (e : String) (t : Text) (now : ℕ) (ecos : List (String × List Text))
    (rows : List WatchlistScope)
    → is_loaded e t rows ≡ true
    → is_loaded e t (seed_baseline now ecos rows).0 ≡ true
unfolding seed_baseline
seed_baseline-is_loaded e t now [] rows h = h
seed_baseline-is_loaded e t now ((eco, wanted) ∷ ecos) rows h =
    seed_baseline-is_loaded e t now ecos (seed_scopes eco now (load_scopes eco rows) wanted rows).0
      (seed_scopes-is_loaded e eco t now (load_scopes eco rows) wanted rows h)

seed_baseline-is_complete :
    (now : ℕ) (ecos : List (String × List Text)) (rows : List WatchlistScope)
    → is_complete ecos (seed_baseline now ecos rows).0 ≡ true
unfolding seed_baseline
seed_baseline-is_complete now [] rows = refl
seed_baseline-is_complete now ((eco, wanted) ∷ ecos) rows =
    let have = load_scopes eco rows in
    let seeded = (seed_scopes eco now have wanted rows).0 in
    let mine =
      has_all_mono eco wanted seeded (seed_baseline now ecos seeded).0
        (λ t. seed_baseline-is_loaded eco t now ecos seeded)
        (seed_scopes-has_all eco now have wanted rows (λ t k. k)) in
    rw mine (seed_baseline-is_complete now ecos seeded)

seed_baseline-none :
    (now : ℕ) (ecos : List (String × List Text)) (rows : List WatchlistScope)
    → is_complete ecos rows ≡ true
    → seed_baseline now ecos rows ≡ (rows, 0)
unfolding seed_baseline
seed_baseline-none now [] rows h = refl
seed_baseline-none now ((eco, wanted) ∷ ecos) rows h =
    let quiet : seed_scopes eco now (load_scopes eco rows) wanted rows ≡ (rows, 0) =
      seed_scopes-none eco now (load_scopes eco rows) wanted rows (ground (arith, h)) in
    rw quiet (ground (arith, seed_baseline-none now ecos rows (ground (arith, h))))

-- Seeding again, at any later time, changes no row and reports no new scope.
pub seed_baseline_idem :
    (now later : ℕ) (ecos : List (String × List Text)) (rows : List WatchlistScope)
    → seed_baseline later ecos (seed_baseline now ecos rows).0
      ≡ ((seed_baseline now ecos rows).0, 0)
seed_baseline_idem now later ecos rows =
    seed_baseline-none later ecos (seed_baseline now ecos rows).0
      (seed_baseline-is_complete now ecos rows)
