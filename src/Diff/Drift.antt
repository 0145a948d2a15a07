-- ===== src/Diff/Drift.antt =====
-- When a version is found to have changed.
use pkgsentry_oss.Prelude.{
  ◌≡◌, refl, String, true, false, not, Option, none, some, List, [], ◌∷◌, filter, all, contains,
  extend_new, eq_iff, arith,
}
use pkgsentry_oss.Adapter.{Finding}
use pkgsentry_oss.Diff.{
  PreviousVersion, CurrentMetadata, new_of, rule_ids_of, text_or, author_changed, dependency_spike,
  analyze_version_diff,
}

filter-none_new :
    (xs ys : List String)
    → all (contains ys) xs ≡ true
    → filter (λ (x : String). not (contains ys x)) xs ≡ []
filter-none_new [] ys h = refl
filter-none_new (x ∷ xs) ys h = ground (arith, h, filter-none_new xs ys)

new_of-none : (xs ys : List String) → all (contains ys) xs ≡ true → new_of xs ys ≡ []
unfolding new_of extend_new
new_of-none xs ys h = rw (filter-none_new xs ys h) refl

author_changed-same :
    (lower : String → String) (a : Option String) → author_changed lower a a ≡ false
unfolding author_changed
author_changed-same lower none = refl
author_changed-same lower (some a) = ground (arith, eq_iff (lower a) (lower a))

-- A version that fires no new rule, names no new dependency and has the same author and address as the
-- previous one gets no finding for its changes.
pub analyze_version_diff-quiet :
    (lower : String → String) (fs : List Finding) (now : CurrentMetadata) (prev : PreviousVersion)
    → all (contains prev.rule_ids) (rule_ids_of fs) ≡ true
    → all (contains prev.requires_dist) now.requires_dist ≡ true
    → now.author ≡ prev.author
    → now.author_email ≡ prev.author_email
    → analyze_version_diff lower fs now prev ≡ []
unfolding analyze_version_diff dependency_spike
analyze_version_diff-quiet lower fs now prev rules deps author email =
    rw
      (
        new_of-none (rule_ids_of fs) prev.rule_ids rules,
        new_of-none now.requires_dist prev.requires_dist deps,
        author,
        email,
        author_changed-same lower (text_or prev.author_email prev.author),
      )
      (ground arith)
