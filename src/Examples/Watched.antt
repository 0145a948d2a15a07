-- ===== src/Examples/Watched.antt =====
-- A watchlist with one popular package and one automatic entry.
use pkgsentry_oss.Prelude.{
  ℕ, ◌≤◌, ◌≡◌, refl, true, String, [], ◌∷◌, some, filter, lookup, get_or, length, arith,
}
use pkgsentry_oss.Prelude.Evict.{oldest_ids, sort_by}
use pkgsentry_oss.Watchlist.{
  Entry, Settings, Watchlist, AddStatus, add_confirmed_malicious, rate_limited, prune_expired,
  remove_auto_entry, is_watchlist_auto_only, prune_over_cap, prune_ecosystems, evict_oldest,
}
use pkgsentry_oss.Watchlist.Popular.{
  is_popular, popular-kept, rate_limited-bounded, added-is_watchlist_auto_only,
}

abbrev pub entry : ℕ → String → ℕ → ℕ → Entry
entry i name rank at = record {
  id = i;
  ecosystem = "npm";
  name = name;
  rank = rank;
  refreshed_at = at;
}

abbrev pub listed : Watchlist
listed = record {
  entries = entry 1 "react" 3 0 ∷ entry 2 "forge-jsxy" 9999999 50 ∷ [];
  next_id = 3;
  recent_adds = ("npm", 10 ∷ 3000 ∷ []) ∷ [];
}

abbrev pub settings : Settings
settings = record {
  enabled = true;
  blocklist = [];
  ttl_days = 180;
  max_per_eco = 1;
  max_adds_per_hour = 2;
}

abbrev pub same_case : String → String
same_case s = s

-- The old addition has left the window, so that a new name is added.
adds :
    (add_confirmed_malicious same_case settings true 90 4000 "npm" "evil" listed).1
    ≡ some AddStatus.added
unfolding add_confirmed_malicious rate_limited
adds = refl

-- Within the hour, the limit holds.
limits :
    (add_confirmed_malicious same_case settings true 90 3001 "npm" "evil" listed).1
    ≡ some AddStatus.rate_limited_add
unfolding add_confirmed_malicious rate_limited
limits = refl

-- The oldest automatic entry is evicted.
evicts :
    prune_over_cap settings (entry 3 "evil" 9999999 90 ∷ listed.entries)
    ≡ (entry 3 "evil" 9999999 90 ∷ entry 1 "react" 3 0 ∷ [], 1)
unfolding prune_over_cap prune_ecosystems evict_oldest oldest_ids sort_by
evicts = refl

popular-kept_test :
    (filter is_popular
        (add_confirmed_malicious same_case settings true 90 4000 "npm" "evil" listed).0.entries
      ≡ filter is_popular listed.entries)
    × (filter is_popular (prune_expired settings 90 listed.entries).0
        ≡ filter is_popular listed.entries)
    × (filter is_popular (remove_auto_entry same_case "npm" "evil" listed.entries).0
        ≡ filter is_popular listed.entries)
popular-kept_test = popular-kept same_case settings true 90 4000 "npm" "evil" listed

rate_limited-bounded_test :
    length (get_or [] (lookup "npm" (rate_limited 2 4000 "npm" listed.recent_adds).1)) ≤ 2
rate_limited-bounded_test = rate_limited-bounded 2 4000 "npm" listed.recent_adds (omega arith)

added-is_watchlist_auto_only_test :
    is_watchlist_auto_only same_case "npm" "evil"
      (add_confirmed_malicious same_case settings true 90 4000 "npm" "evil" listed).0.entries
    ≡ true
added-is_watchlist_auto_only_test =
    added-is_watchlist_auto_only same_case settings true 90 4000 "npm" "evil" listed AddStatus.added
      adds refl
