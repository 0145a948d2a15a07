-- ===== src/Maintainers/Pruned.antt =====
-- The pruning of the watches: it changes no answer, and it bounds the table.
use mathlib.Core.Path.{subst}
use pkgsentry_oss.Prelude.{
  ℕ, ◌-◌, ◌≤◌, ◌≡◌, refl, ap, String, Bool, true, false, not, Option, none, some, List, [], ◌∷◌,
  filter, count, any, all, find?, contains, str_eq, str_eq→≡, leb, nat_eq, arith, Bool-cases, inl,
  inr, if◌then◌else◌,
}
use pkgsentry_oss.Prelude.Evict.{oldest_ids}
use pkgsentry_oss.Prelude.Delete.{delete_oldest, count-delete_oldest, count-filter-le}
use pkgsentry_oss.Maintainers.{
  WatchSettings, Watch, VersionScan, watch_ecosystems, scans_since, is_watch, is_maintainer_watched,
  is_over, watch_id, watch_age, in_ecosystem, cap_watches, prune,
}
use pkgsentry_oss.Maintainers.Watched.{
  any-find?, find?-none, is_maintainer_watched-answer, is_active, answer,
}

cap_watches-le :
    (cap : ℕ) (ecos : List String) (p : Watch → Bool) (rows : List Watch)
    → count p (cap_watches cap ecos rows).0 ≤ count p rows
unfolding cap_watches
cap_watches-le cap [] p rows = omega arith
cap_watches-le cap (eco ∷ ecos) p rows =
    let n = count (in_ecosystem eco) rows - cap in
    let kept = delete_oldest watch_id watch_age n (in_ecosystem eco) rows in
    omega (arith, cap_watches-le cap ecos p kept, count-filter-le watch_id watch_age p _ rows)

cap_watches-le-cap :
    (cap : ℕ) (ecos : List String) (eco : String) (rows : List Watch)
    → contains ecos eco ≡ true
    → count (in_ecosystem eco) (cap_watches cap ecos rows).0 ≤ cap
unfolding cap_watches
cap_watches-le-cap cap [] eco rows h = ground (arith, h)
cap_watches-le-cap cap (e ∷ ecos) eco rows h =
    let kept =
      delete_oldest watch_id watch_age (count (in_ecosystem e) rows - cap) (in_ecosystem e) rows in
    elim (Bool-cases (str_eq e eco)) [
      | inr f ↦ cap_watches-le-cap cap ecos eco kept (ground (arith, h, f))
      | inl y ↦
          let n = count (in_ecosystem e) rows - cap in
          let bound : count (in_ecosystem e) kept ≤ cap =
            omega (arith, count-delete_oldest watch_id watch_age n (in_ecosystem e) rows) in
          let later = cap_watches-le cap ecos (in_ecosystem e) kept in
          let both : count (in_ecosystem e) (cap_watches cap ecos kept).0 ≤ cap =
            omega (arith, later, bound) in
          subst (λ x. count (in_ecosystem x) (cap_watches cap ecos kept).0 ≤ cap) (str_eq→≡ e eco y)
            both
    ]

-- After the pruning, each supported ecosystem has at most the allowed number of watches, where that
-- number is not zero.
pub prune-le :
    (lower : String → String) (cfg : WatchSettings) (scans : List VersionScan) (now : ℕ)
    (rows : List Watch) (eco : String)
    → nat_eq cfg.max_per_eco 0 ≡ false
    → contains watch_ecosystems eco ≡ true
    → count (in_ecosystem eco) (prune lower cfg scans now rows).0 ≤ cfg.max_per_eco
unfolding prune
prune-le lower cfg scans now rows eco on h =
    rw on (cap_watches-le-cap cfg.max_per_eco watch_ecosystems eco _ h)

filter-true : (rows : List Watch) → filter (λ (w : Watch). true) rows ≡ rows
filter-true [] = refl
filter-true (w ∷ rows) = ap (λ ws. w ∷ ws) (filter-true rows)

delete_oldest-zero :
    (p : Watch → Bool) (rows : List Watch) → delete_oldest watch_id watch_age 0 p rows ≡ rows
unfolding oldest_ids
delete_oldest-zero p rows = filter-true rows

-- no ecosystem has more watches than allowed
abbrev pub fits : ℕ → List String → List Watch → Bool
fits cap ecos rows = all (λ (eco : String). leb (count (in_ecosystem eco) rows) cap) ecos

cap_watches-none :
    (cap : ℕ) (ecos : List String) (rows : List Watch)
    → fits cap ecos rows ≡ true
    → cap_watches cap ecos rows ≡ (rows, 0)
unfolding cap_watches
cap_watches-none cap [] rows h = refl
cap_watches-none cap (eco ∷ ecos) rows h =
    let none_over : count (in_ecosystem eco) rows - cap ≡ 0 = ground (arith, h) in
    rw (none_over, delete_oldest-zero (in_ecosystem eco) rows)
      (rw (cap_watches-none cap ecos rows (ground (arith, h))) refl)

fits-filter :
    (cap : ℕ) (ecos : List String) (q : Watch → Bool) (rows : List Watch)
    → fits cap ecos rows ≡ true
    → fits cap ecos (filter q rows) ≡ true
fits-filter cap [] q rows h = refl
fits-filter cap (eco ∷ ecos) q rows h = ground (
  arith,
  h,
  count-filter-le watch_id watch_age (in_ecosystem eco) q rows,
  fits-filter cap ecos q rows,
)

count-any : (p : Watch → Bool) (rows : List Watch) → count p rows ≤ 0 → any p rows ≡ false
count-any p [] h = refl
count-any p (w ∷ rows) h = ground (arith, h, count-any p rows)

any-filter-false :
    (p q : Watch → Bool) (rows : List Watch) → any p rows ≡ false → any p (filter q rows) ≡ false
any-filter-false p q [] h = refl
any-filter-false p q (w ∷ rows) h = ground (arith, h, any-filter-false p q rows)

-- what is found among the rows that stay, where at most one row fits
abbrev keep_if : (Watch → Bool) → Option Watch → Option Watch
keep_if q none = none
keep_if q (some w) = if q w then some w else none

find?-filter :
    (p q : Watch → Bool) (rows : List Watch)
    → count p rows ≤ 1
    → find? p (filter q rows) ≡ keep_if q (find? p rows)
find?-filter p q [] h = refl
find?-filter p q (w ∷ rows) h = elim (Bool-cases (p w)) [
  | inl y ↦
      let gone =
        find?-none p (filter q rows)
          (any-filter-false p q rows (count-any p rows (ground (arith, h, y)))) in
      ground (arith, y, gone)
  | inr n ↦ ground (arith, n, find?-filter p q rows (ground (arith, h, n)))
]

module _ (lower : String → String) (cfg : WatchSettings) (scans : List VersionScan) (now : ℕ) where
  scans_since-same :
      (ecosystem m n : String) (at : ℕ)
      → lower m ≡ lower n
      → scans_since lower scans ecosystem m at ≡ scans_since lower scans ecosystem n at
  unfolding scans_since
  scans_since-same ecosystem m n at h = rw h refl

  -- the row that is found is deleted exactly if it is out of its window
  is_over-found :
      (ecosystem name : String) (w : Watch)
      → is_watch lower ecosystem name w ≡ true
      → is_over lower cfg scans now w ≡ not (is_active lower cfg scans now ecosystem name w)
  is_over-found ecosystem name w h =
      let eco : w.ecosystem ≡ ecosystem = str_eq→≡ w.ecosystem ecosystem (ground (arith, h)) in
      let low : lower w.name ≡ lower name =
        str_eq→≡ (lower w.name) (lower name) (ground (arith, h)) in
      rw (eco, scans_since-same ecosystem w.name name w.added_at low) (ground arith)

  kept-answer :
      (ecosystem name : String) (o : Option Watch)
      → ((w : Watch) → o ≡ some w → is_watch lower ecosystem name w ≡ true)
      → answer lower cfg scans now ecosystem name
          (keep_if (λ (w : Watch). not (is_over lower cfg scans now w)) o)
        ≡ answer lower cfg scans now ecosystem name o
  kept-answer ecosystem name none h = refl
  kept-answer ecosystem name (some w) h =
      rw (is_over-found ecosystem name w (h w refl))
        (elim (Bool-cases (is_active lower cfg scans now ecosystem name w)) [
          | inl y ↦ rw y (rw y refl)
          | inr n ↦ rw n refl
        ])

  -- Where no ecosystem is over its number, the pruning changes no answer at that time: it deletes only
  -- what no longer counts. The name has at most one row, as its unique key demands.
  pub prune-is_maintainer_watched :
      (rows : List Watch) (ecosystem name : String)
      → fits cfg.max_per_eco watch_ecosystems rows ≡ true
      → count (is_watch lower ecosystem name) rows ≤ 1
      → is_maintainer_watched lower cfg scans now ecosystem name (prune lower cfg scans now rows).0
        ≡ is_maintainer_watched lower cfg scans now ecosystem name rows
  unfolding prune
  prune-is_maintainer_watched rows ecosystem name h one =
      let p = is_watch lower ecosystem name in
      let q : Watch → Bool = λ w. not (is_over lower cfg scans now w) in
      let capped =
        cap_watches-none cfg.max_per_eco watch_ecosystems (filter q rows)
          (fits-filter cfg.max_per_eco watch_ecosystems q rows h) in
      let left : (prune lower cfg scans now rows).0 ≡ filter q rows = ground (arith, capped) in
      rw
        (
          left,
          is_maintainer_watched-answer lower cfg scans now ecosystem name (filter q rows),
          is_maintainer_watched-answer lower cfg scans now ecosystem name rows,
          find?-filter p q rows one,
          kept-answer ecosystem name (find? p rows) (λ w e. (any-find? p rows w e).1),
        )
        refl
