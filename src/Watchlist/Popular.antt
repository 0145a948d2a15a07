-- ===== src/Watchlist/Popular.antt =====
-- What the automatic additions do to the watchlist, and that they leave its popularity rows alone.
use pkgsentry_oss.Prelude.{
  ℕ, ◌≤◌, ◌≡◌, refl, ap, String, Bool, true, false, not, ◌&&◌, some, List, [], ◌∷◌, ◌++◌, arith,
  filter, any, any-append, find?, length, length-append, Dict, lookup, lookup-insert, get_or,
  eq_iff, Bool-cases, Option-cases, inl, inr, if◌then◌else◌,
}
use pkgsentry_oss.Watchlist.{
  Entry, Settings, Watchlist, AddStatus, is_auto, is_named, is_named_auto, refresh_first, pop_old,
  rate_limited, add_confirmed_malicious, is_watchlist_auto_only, remove_auto_entry, is_expired,
  prune_expired, auto_malicious_rank,
}

abbrev pub is_popular : Entry → Bool
is_popular e = not (is_auto e)

abbrev pub is_on_list : AddStatus → Bool
is_on_list AddStatus.added = true
is_on_list AddStatus.refreshed = true
is_on_list _ = false

filter-append_one :
    (p : Entry → Bool) (xs : List Entry) (e : Entry)
    → p e ≡ false
    → filter p (xs ++ e ∷ []) ≡ filter p xs
filter-append_one p [] e h = rw h refl
filter-append_one p (x ∷ xs) e h = ground (arith, filter-append_one p xs e h)

popular-filter :
    (p : Entry → Bool) (xs : List Entry)
    → filter is_popular (filter (λ e. not (p e && is_auto e)) xs) ≡ filter is_popular xs
popular-filter p [] = refl
popular-filter p (x ∷ xs) = elim (Bool-cases (is_auto x)) [
  | inl t ↦ elim (Bool-cases (p x)) [
    | inl y ↦ rw (t, y) (popular-filter p xs)
    | inr n ↦ rw (t, n) (rw t (popular-filter p xs))
  ]
  | inr f ↦ elim (Bool-cases (p x)) [
    | inl y ↦ rw (f, y) (rw f (ap (λ l. x ∷ l) (popular-filter p xs)))
    | inr n ↦ rw (f, n) (rw f (ap (λ l. x ∷ l) (popular-filter p xs)))
  ]
]

pub length-pop_old : (now : ℕ) (ts : List ℕ) → length (pop_old now ts) ≤ length ts
unfolding pop_old
length-pop_old now [] = omega arith
length-pop_old now (t ∷ ts) = ground (arith, length-pop_old now ts)

-- The rate limiter never keeps more additions of an ecosystem than the limit allows in an hour.
pub rate_limited-bounded :
    (cap now : ℕ) (ecosystem : String) (recent : Dict (List ℕ))
    → length (get_or [] (lookup ecosystem recent)) ≤ cap
    → length (get_or [] (lookup ecosystem (rate_limited cap now ecosystem recent).1)) ≤ cap
unfolding rate_limited
rate_limited-bounded cap now ecosystem recent h =
    let old = get_or [] (lookup ecosystem recent) in
    let kept = pop_old now old in
    ground (
      arith,
      h,
      length-pop_old now old,
      length-append kept (now ∷ []),
      lookup-insert ecosystem ecosystem kept recent,
      lookup-insert ecosystem ecosystem (kept ++ now ∷ []) recent,
      eq_iff ecosystem ecosystem,
    )

popular-refresh_first :
    (p : Entry → Bool) (now : ℕ) (xs : List Entry) (e : Entry)
    → find? p xs ≡ some e
    → is_auto e ≡ true
    → filter is_popular (refresh_first p now xs) ≡ filter is_popular xs
unfolding refresh_first
popular-refresh_first p now [] e h t = refl
popular-refresh_first p now (x ∷ xs) e h t = elim (Bool-cases (p x)) [
  | inl y ↦ let same : x ≡ e = ground (arith, h, y) in rw (y, same, t) refl
  | inr n ↦
      let ih = popular-refresh_first p now xs e (ground (arith, h, n)) t in
      rw n (ap (λ l. if is_popular x then x ∷ l else l) ih)
]

popular-expired :
    (ttl_days now : ℕ) (xs : List Entry)
    → filter is_popular (filter (λ e. not (is_expired ttl_days now e)) xs) ≡ filter is_popular xs
unfolding is_expired
popular-expired ttl_days now [] = refl
popular-expired ttl_days now (x ∷ xs) = elim (Bool-cases (is_auto x)) [
  | inl t ↦ ground (arith, t, popular-expired ttl_days now xs)
  | inr f ↦ rw f (rw f (ap (λ l. x ∷ l) (popular-expired ttl_days now xs)))
]

module _ (lower : String → String) where
  popular-add :
      (cfg : Settings) (inserted : Bool) (now clock : ℕ) (ecosystem name : String) (w : Watchlist)
      → filter is_popular
          (add_confirmed_malicious lower cfg inserted now clock ecosystem name w).0.entries
        ≡ filter is_popular w.entries
  unfolding add_confirmed_malicious
  popular-add cfg inserted now clock ecosystem name w =
      elim (Option-cases (find? (is_named lower ecosystem name) w.entries)) [
        | inr (e, h) ↦ elim (Bool-cases (is_auto e)) [
          | inl t ↦
              rw (h, add_confirmed_malicious)
                (ground (
                  arith,
                  t,
                  popular-refresh_first (is_named lower ecosystem name) now w.entries e h t,
                ))
          | inr f ↦ rw (h, add_confirmed_malicious) (ground (arith, f))
        ]
        | inl h ↦
            rw (h, add_confirmed_malicious)
              (ground (
                arith,
                filter-append_one is_popular w.entries
                    (record {
                      id = w.next_id;
                      ecosystem = ecosystem;
                      name = name;
                      rank = auto_malicious_rank;
                      refreshed_at = now;
                    })
                    refl,
              ))
      ]

  -- Adding a name, pruning what has expired and removing a name leave the popularity rows as they are.
  pub popular-kept :
      (cfg : Settings) (inserted : Bool) (now clock : ℕ) (ecosystem name : String) (w : Watchlist)
      → (filter is_popular
            (add_confirmed_malicious lower cfg inserted now clock ecosystem name w).0.entries
          ≡ filter is_popular w.entries)
        × (filter is_popular (prune_expired cfg now w.entries).0 ≡ filter is_popular w.entries)
        × (filter is_popular (remove_auto_entry lower ecosystem name w.entries).0
            ≡ filter is_popular w.entries)
  unfolding prune_expired remove_auto_entry
  popular-kept cfg inserted now clock ecosystem name w = (
    popular-add cfg inserted now clock ecosystem name w,
    ground (arith, popular-expired cfg.ttl_days now w.entries),
    popular-filter (is_named lower ecosystem name) w.entries,
  )

  auto-refresh_first :
      (ecosystem name : String) (now : ℕ) (xs : List Entry) (e : Entry)
      → find? (is_named lower ecosystem name) xs ≡ some e
      → is_auto e ≡ true
      → any
          (is_named_auto lower ecosystem name)
          (refresh_first (is_named lower ecosystem name) now xs)
        ≡ true
  unfolding refresh_first
  auto-refresh_first ecosystem name now [] e h t = cc h
  auto-refresh_first ecosystem name now (x ∷ xs) e h t =
      elim (Bool-cases (is_named lower ecosystem name x)) [
        | inl y ↦
            let same : x ≡ e = ground (arith, h, y) in
            let auto : is_auto x ≡ true = rw same t in ground (arith, y, auto)
        | inr n ↦
            ground (arith, n, auto-refresh_first ecosystem name now xs e (ground (arith, h, n)) t)
      ]

  -- A name that is reported as added or as refreshed is on the watchlist as an automatic entry.
  pub added-is_watchlist_auto_only :
      (cfg : Settings) (inserted : Bool) (now clock : ℕ) (ecosystem name : String) (w : Watchlist)
      (s : AddStatus)
      → (add_confirmed_malicious lower cfg inserted now clock ecosystem name w).1 ≡ some s
      → is_on_list s ≡ true
      → is_watchlist_auto_only lower ecosystem name
          (add_confirmed_malicious lower cfg inserted now clock ecosystem name w).0.entries
        ≡ true
  unfolding add_confirmed_malicious is_watchlist_auto_only
  added-is_watchlist_auto_only cfg inserted now clock ecosystem name w s =
      elim (Option-cases (find? (is_named lower ecosystem name) w.entries)) [
        | inr (e, h) ↦ elim (Bool-cases (is_auto e)) [
          | inl t ↦
              rw (h, add_confirmed_malicious)
                (λ a o.
                  ground (arith, a, o, t, auto-refresh_first ecosystem name now w.entries e h t))
          | inr f ↦ rw (h, add_confirmed_malicious) (λ a o. ground (arith, a, o, f))
        ]
        | inl h ↦
            rw (h, add_confirmed_malicious)
              (λ a o. ground (
                arith,
                a,
                o,
                eq_iff ecosystem ecosystem,
                eq_iff (lower name) (lower name),
                any-append (is_named_auto lower ecosystem name) w.entries (
                    record {
                      id = w.next_id;
                      ecosystem = ecosystem;
                      name = name;
                      rank = auto_malicious_rank;
                      refreshed_at = now;
                    }
                    ∷ []),
              ))
      ]
