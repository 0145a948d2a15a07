-- ===== src/Examples/Feeds.antt =====
-- Two new npm packages of which one cannot be resolved yet.
use pkgsentry_oss.Prelude.{
  lookup, is_some, str_eq, false, contains, ◌||◌, length, ℕ, ◌≤◌, ◌<◌, ◌≡◌, refl, String, List, [],
  ◌∷◌, Dict, max, arith,
}
use pkgsentry_oss.Npm.{advance, hold_back, count_attempt, safe_seq, drop_names, cap_attempts}
use pkgsentry_oss.Npm.Carryover.{
  Split, split_checks, next_carryover, split_checks-keeps, next_carryover-keeps,
}
use pkgsentry_oss.Queue.{Priority}
use pkgsentry_oss.Npm.Gate.{
  Change, Gathered, gate_page, gate_decision, is_relevant, brand_new, gate_page-places,
}
use pkgsentry_oss.Npm.Holdback.{advance-behind, advance-bounds, advance-progress}

abbrev seqs : Dict ℕ
seqs = ("new-lib", 105) ∷ ("gone", 102) ∷ []

abbrev names : List String
names = "new-lib" ∷ "gone" ∷ []

abbrev found : List String
found = "new-lib" ∷ []

-- The first failure holds the cursor in front of the package, and is counted.
held : advance 5 50000 100 110 seqs found names [] ≡ (101, ("gone", 1) ∷ [])
unfolding advance hold_back count_attempt safe_seq drop_names cap_attempts
held = refl

-- The fifth lets it pass, and the counter is dropped.
passed : advance 5 50000 100 110 seqs found names (("gone", 4) ∷ []) ≡ (110, [])
unfolding advance hold_back count_attempt safe_seq drop_names cap_attempts
passed = refl

advance-behind_example : (advance 5 50000 100 110 seqs found names []).0 < 102
advance-behind_example =
    advance-behind 5 50000 100 110 seqs found names [] "gone" 102 refl refl refl (omega arith)
      (omega arith)

advance-bounds_test :
    let new = (advance 5 50000 100 110 seqs found names []).0 in (100 ≤ new) × (new ≤ max 100 110)
advance-bounds_test = advance-bounds 5 50000 100 110 seqs found names []

advance-progress_example :
    (advance 5 50000 100 110 seqs found names (("gone", 4) ∷ [])).0 ≡ max 100 110
advance-progress_example = advance-progress 5 50000 100 110 seqs found names (("gone", 4) ∷ []) refl

-- Two checks: one carried-over name and one fresh name; the others wait.
abbrev split : Split
split = split_checks 2 ("a" ∷ "b" ∷ []) ("b" ∷ "c" ∷ "d" ∷ [])

splits : (split.names ≡ "a" ∷ "c" ∷ []) × (split.deferred ≡ "b" ∷ "d" ∷ [])
unfolding split_checks
splits = (refl, refl)

split_checks-keeps_test :
    ((contains split.names "d" || contains split.deferred "d")
      ≡ (contains ("a" ∷ "b" ∷ []) "d" || contains ("b" ∷ "c" ∷ "d" ∷ []) "d"))
    × (length split.names ≤ 2)
split_checks-keeps_test = split_checks-keeps 2 ("a" ∷ "b" ∷ []) ("b" ∷ "c" ∷ "d" ∷ []) "d"

next_carryover-keeps_test :
    (contains split.names "d"
      || contains (next_carryover 5 2 ("a" ∷ "b" ∷ []) ("b" ∷ "c" ∷ "d" ∷ [])) "d")
    ≡ (contains ("a" ∷ "b" ∷ []) "d" || contains ("b" ∷ "c" ∷ "d" ∷ []) "d")
next_carryover-keeps_test =
    next_carryover-keeps 5 2 ("a" ∷ "b" ∷ []) ("b" ∷ "c" ∷ "d" ∷ []) "d" (omega arith)

abbrev change : String → ℕ → Change
change name seq = record { name = name; seq = seq; deleted = false }

abbrev page : List Change
page =
    change "new-lib" 105 ∷ change "react" 106 ∷ change "_design/app" 107 ∷ change "new-lib" 108 ∷ []

abbrev nothing_gathered : Gathered
nothing_gathered = record { gated = []; gated_seq = []; anomalies = []; newly = 0; skipped = 0 }

abbrev gate : List Change → Gathered → Gathered
gate = gate_page false (λ n. false) (λ n. false) (λ n. str_eq n "react")

-- The new package is gated once, at its first place; the known one is an anomaly candidate.
gates : gate page nothing_gathered ≡ record {
  gated = ("new-lib", Priority.normal) ∷ [];
  gated_seq = ("new-lib", 105) ∷ [];
  anomalies = "react" ∷ [];
  newly = 1;
  skipped = 1;
}
unfolding gate_page is_relevant gate_decision brand_new
gates = refl

page_places_test :
    is_some (lookup "new-lib" (gate page nothing_gathered).gated)
    ≡ is_some (lookup "new-lib" (gate page nothing_gathered).gated_seq)
page_places_test =
    gate_page-places false (λ n. false) (λ n. false) (λ n. str_eq n "react") "new-lib" page
      nothing_gathered refl
