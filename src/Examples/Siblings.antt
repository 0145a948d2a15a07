-- ===== src/Examples/Siblings.antt =====
-- Watches on the packages of a caught maintainer, and an over-full watchlist.
use pkgsentry_oss.Prelude.{
  ℕ, ◌≤◌, ◌≡◌, refl, true, List, [], ◌∷◌, none, some, count, arith, String, filter,
}
use pkgsentry_oss.Watchlist.{Entry, auto_of, prune_over_cap}
use pkgsentry_oss.Watchlist.Popular.{is_popular}
use pkgsentry_oss.Watchlist.Cap.{prune_over_cap-le, prune_over_cap-popular}
use pkgsentry_oss.Maintainers.{
  WatchSettings, Watch, Watches, VersionScan, is_maintainer_watched, prune, in_ecosystem,
}
use pkgsentry_oss.Maintainers.Pruned.{prune-le, prune-is_maintainer_watched}
use pkgsentry_oss.Examples.Watched.{entry, listed, settings, same_case}

abbrev crowded : List Entry
crowded = entry 3 "evil" 9999999 90 ∷ listed.entries

prune_over_cap-le_test : count (auto_of "npm") (prune_over_cap settings crowded).0 ≤ 1
prune_over_cap-le_test = prune_over_cap-le settings "npm" crowded refl refl

prune_over_cap-popular_test :
    filter is_popular (prune_over_cap settings crowded).0 ≡ filter is_popular crowded
prune_over_cap-popular_test = prune_over_cap-popular settings crowded (refl, (refl, (refl, tt)))

abbrev limits : WatchSettings
limits = record { enabled = true; releases = 3; ttl_days = 180; max_per_eco = 1 }

abbrev watch : ℕ → String → ℕ → Watch
watch i name at = record {
  id = i;
  ecosystem = "npm";
  name = name;
  maintainer = none;
  added_at = at;
}

abbrev table : Watches
table = record { rows = watch 1 "left-pad" 5 ∷ []; next_id = 2 }

abbrev scans : List VersionScan
scans =
    record { ecosystem = "npm"; name = "right-pad"; version = "1.0"; finished_at = some 50 } ∷ []

prune-le_test :
    count
      (in_ecosystem "npm")
      (prune same_case limits scans 90 (watch 2 "right-pad" 7 ∷ table.rows)).0
    ≤ 1
prune-le_test =
    prune-le same_case limits scans 90 (watch 2 "right-pad" 7 ∷ table.rows) "npm" refl refl

prune-is_maintainer_watched_example :
    is_maintainer_watched same_case limits scans 90 "npm" "left-pad"
      (prune same_case limits scans 90 table.rows).0
    ≡ is_maintainer_watched same_case limits scans 90 "npm" "left-pad" table.rows
prune-is_maintainer_watched_example =
    prune-is_maintainer_watched same_case limits scans 90 table.rows "npm" "left-pad" refl
      (omega arith)
