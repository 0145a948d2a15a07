-- ===== src/Examples/Scopes.antt =====
-- A caught npm package, and the curated scopes.
use pkgsentry_oss.Prelude.{◌≡◌, ◌↔◌, refl, true, false, List, [], ◌∷◌}
use pkgsentry_oss.Prelude.Texts.{codes, lower, lower_code}
use pkgsentry_oss.Scope.{
  WatchlistScope, matches, scope_of, scope_row, add_scope, remove_scope, is_scope_watchlisted,
  auto_watch_on_malicious, seed_baseline, normal_scope, trim,
}
use pkgsentry_oss.Scope.Baseline.{wanted_scopes}
use pkgsentry_oss.Scope.Siblings.{Falls, matches-Falls}
use pkgsentry_oss.Scope.Caught.{auto_watch-siblings}
use pkgsentry_oss.Scope.Rows.{remove_scope-add_scope, seed_baseline_idem}

abbrev watched : List WatchlistScope
watched = scope_row "npm" (codes "@Other") "manual" 5 ∷ []

matches-Falls_example :
    (matches "npm" (codes "@Org") (codes "@org/kit") ≡ true)
    ↔ Falls (lower (codes "@Org")) (lower (codes "@org/kit"))
matches-Falls_example = matches-Falls "npm" (codes "@Org") (codes "@org/kit") refl

-- A name that only begins like the scope does not fall under it.
apart : matches "npm" (codes "@org") (codes "@organic/kit") ≡ false
unfolding matches lower_code
apart = refl

auto_watch-siblings_test :
    is_scope_watchlisted true "npm"
      (codes "@ORG/other")
      (auto_watch_on_malicious true "npm" (codes "@org/evil") 9 watched).0
    ≡ true
unfolding scope_of auto_watch_on_malicious lower_code
auto_watch-siblings_test =
    auto_watch-siblings "npm" (codes "@org/evil") (codes "@ORG/other") (codes "@org") 9 watched refl
      refl refl

remove_scope-add_scope_example :
    remove_scope "npm" (codes " Org/") (add_scope "npm" (codes " Org/") "manual" 9 watched).0
    ≡ (watched, 1)
unfolding add_scope normal_scope trim lower_code
remove_scope-add_scope_example =
    remove_scope-add_scope "npm" (codes " Org/") "manual" 9 watched refl

seed_baseline_idem_test :
    seed_baseline 20 (wanted_scopes true) (seed_baseline 9 (wanted_scopes true) watched).0
    ≡ ((seed_baseline 9 (wanted_scopes true) watched).0, 0)
seed_baseline_idem_test = seed_baseline_idem 9 20 (wanted_scopes true) watched
