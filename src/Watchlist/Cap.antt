-- ===== src/Watchlist/Cap.antt =====
-- The bound on the automatic entries of an ecosystem.
use mathlib.Core.Path.{subst}
use pkgsentry_oss.Prelude.{
  ℕ, ◌-◌, ◌≤◌, ◌≡◌, refl, sym, ap, ◌∙◌, String, Bool, true, false, not, List, [], ◌∷◌, arith, count,
  filter, contains, nat_eq, str_eq, str_eq→≡, Bool-cases, inl, inr,
}
use pkgsentry_oss.Prelude.Evict.{DistinctIds}
use pkgsentry_oss.Prelude.Delete.{
  count-delete_oldest, count-filter-le, delete_oldest-others, DistinctIds-filter,
}
use pkgsentry_oss.Watchlist.{
  Entry, Settings, auto_of, is_auto, evict_oldest, prune_ecosystems, prune_over_cap,
}
use pkgsentry_oss.Watchlist.Popular.{is_popular}

abbrev pub entry_id : Entry → ℕ
entry_id e = e.id

abbrev pub entry_age : Entry → ℕ
entry_age e = e.refreshed_at

prune_ecosystems-le :
    (cap : ℕ) (ecos : List String) (p : Entry → Bool) (entries : List Entry)
    → count p (prune_ecosystems cap ecos entries).0 ≤ count p entries
unfolding prune_ecosystems evict_oldest
prune_ecosystems-le cap [] p entries = omega arith
prune_ecosystems-le cap (eco ∷ ecos) p entries =
    let kept = (evict_oldest cap eco entries).0 in
    omega
      (arith, prune_ecosystems-le cap ecos p kept, count-filter-le entry_id entry_age p _ entries)

prune_ecosystems-le-cap :
    (cap : ℕ) (ecos : List String) (eco : String) (entries : List Entry)
    → contains ecos eco ≡ true
    → count (auto_of eco) (prune_ecosystems cap ecos entries).0 ≤ cap
unfolding prune_ecosystems evict_oldest
prune_ecosystems-le-cap cap [] eco entries h = ground (arith, h)
prune_ecosystems-le-cap cap (e ∷ ecos) eco entries h =
    let kept = (evict_oldest cap e entries).0 in
    elim (Bool-cases (str_eq e eco)) [
      | inr f ↦ prune_ecosystems-le-cap cap ecos eco kept (ground (arith, h, f))
      | inl y ↦
          let same : e ≡ eco = str_eq→≡ e eco y in
          let n = count (auto_of eco) entries - cap in
          let bound : count (auto_of eco) (evict_oldest cap eco entries).0 ≤ cap =
            omega (arith, count-delete_oldest entry_id entry_age n (auto_of eco) entries) in
          let later = prune_ecosystems-le cap ecos (auto_of eco) kept in
          omega (
            arith,
            later,
            subst (λ x. count (auto_of eco) (evict_oldest cap x entries).0 ≤ cap) (sym same) bound,
          )
    ]

-- After the pruning of an over-full watchlist, each of the four ecosystems has at most the allowed number
-- of automatic entries, where that number is not zero.
pub prune_over_cap-le :
    (cfg : Settings) (eco : String) (entries : List Entry)
    → nat_eq cfg.max_per_eco 0 ≡ false
    → contains ("pypi" ∷ "crates" ∷ "gomod" ∷ "npm" ∷ []) eco ≡ true
    → count (auto_of eco) (prune_over_cap cfg entries).0 ≤ cfg.max_per_eco
unfolding prune_over_cap
prune_over_cap-le cfg eco entries on h = rw on (
    prune_ecosystems-le-cap cfg.max_per_eco ("pypi" ∷ "crates" ∷ "gomod" ∷ "npm" ∷ []) eco entries
      h)

popular-filter :
    (eco : String) (xs : List Entry)
    → filter is_popular xs ≡ filter is_popular (filter (λ (e : Entry). not (auto_of eco e)) xs)
popular-filter eco [] = refl
popular-filter eco (x ∷ xs) = elim (Bool-cases (is_auto x)) [
  | inl t ↦ elim (Bool-cases (str_eq x.ecosystem eco)) [
    | inl y ↦ rw (t, y) (popular-filter eco xs)
    | inr n ↦ rw (t, n) (rw t (popular-filter eco xs))
  ]
  | inr f ↦ elim (Bool-cases (str_eq x.ecosystem eco)) [
    | inl y ↦ rw (f, y) (rw f (ap (λ l. x ∷ l) (popular-filter eco xs)))
    | inr n ↦ rw (f, n) (rw f (ap (λ l. x ∷ l) (popular-filter eco xs)))
  ]
]

popular-of_others :
    (eco : String) (xs ys : List Entry)
    → filter (λ (e : Entry). not (auto_of eco e)) xs
      ≡ filter (λ (e : Entry). not (auto_of eco e)) ys
    → filter is_popular xs ≡ filter is_popular ys
popular-of_others eco xs ys h =
    popular-filter eco xs ∙ ap (filter is_popular) h ∙ sym (popular-filter eco ys)

prune_ecosystems-popular :
    (cap : ℕ) (ecos : List String) (entries : List Entry)
    → DistinctIds entry_id entry_age entries
    → filter is_popular (prune_ecosystems cap ecos entries).0 ≡ filter is_popular entries
unfolding prune_ecosystems evict_oldest
prune_ecosystems-popular cap [] entries h = refl
prune_ecosystems-popular cap (eco ∷ ecos) entries h =
    let n = count (auto_of eco) entries - cap in
    let kept = (evict_oldest cap eco entries).0 in
    prune_ecosystems-popular cap ecos kept (DistinctIds-filter entry_id entry_age _ entries h)
    ∙ popular-of_others eco kept entries
        (delete_oldest-others entry_id entry_age n (auto_of eco) entries h)

-- Where ids are distinct, the pruning leaves the popularity rows alone.
pub prune_over_cap-popular :
    (cfg : Settings) (entries : List Entry)
    → DistinctIds entry_id entry_age entries
    → filter is_popular (prune_over_cap cfg entries).0 ≡ filter is_popular entries
unfolding prune_over_cap
prune_over_cap-popular cfg entries h = elim (Bool-cases (nat_eq cfg.max_per_eco 0)) [
  | inl y ↦ rw y refl
  | inr f ↦ rw f (
      prune_ecosystems-popular cfg.max_per_eco ("pypi" ∷ "crates" ∷ "gomod" ∷ "npm" ∷ []) entries h)
]
