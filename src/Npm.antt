-- ===== src/Npm.antt =====
-- How the npm feed's cursor advances (the end of `poll_changes_once` in
-- pkgward/ecosystems/npm/ingest/cursor.py). `max_attempts` is NPM_RESOLVE_MAX_ATTEMPTS and `attempts_cap`
-- is _RESOLVE_ATTEMPTS_CAP. A sequence number is a natural number; `min - 1` at 0 is 0 where Python has
-- -1, and the test `safe_seq > cursor` refuses both.
pub mod Holdback
pub mod Carryover
pub mod Gate
use pkgsentry_oss.Prelude.{
  ℕ, zero, suc, ◌+◌, ◌-◌, String, Bool, true, false, not, Option, none, some, List, [], ◌∷◌, ◌++◌,
  map, filter, any, contains, length, Dict, lookup, insert, get_or, ltb, leb, min, str_eq, is_some,
  if◌then◌else◌,
}

-- the counters, the sequence numbers that hold the cursor back, and the names given up
pub record Held : Type 0 where
  pub attempts : Dict ℕ
  pub blocker_seqs : List ℕ
  pub given_up : List String

-- `_resolve_attempts[n] += 1`
unfoldable pub count_attempt : String → Dict ℕ → Dict ℕ
count_attempt n attempts = insert n (suc (get_or 0 (lookup n attempts))) attempts

-- `for n in unresolved`
unfoldable pub hold_back : ℕ → Dict ℕ → List String → Dict ℕ → Held
unfolding count_attempt
hold_back max_attempts gated_seq [] attempts = record {
  attempts = attempts;
  blocker_seqs = [];
  given_up = [];
}
hold_back max_attempts gated_seq (n ∷ unresolved) attempts =
    let counted = count_attempt n attempts in
    let rest = hold_back max_attempts gated_seq unresolved counted in
    if leb max_attempts (get_or 0 (lookup n counted))
    then record rest { given_up = n ∷ rest.given_up }
    else elim (lookup n gated_seq) [
      | none ↦ rest
      | some seq ↦ record rest { blocker_seqs = seq ∷ rest.blocker_seqs }
    ]

-- `pop` of all these names
unfoldable pub drop_names : List String → Dict ℕ → Dict ℕ
drop_names names attempts = filter (λ kv. not (contains names kv.0)) attempts

-- the hard cap on the counters
unfoldable pub cap_attempts : ℕ → Dict ℕ → Dict ℕ → Dict ℕ
cap_attempts attempts_cap gated_seq attempts =
    if ltb attempts_cap (length attempts)
    then filter (λ kv. is_some (lookup kv.0 gated_seq)) attempts
    else attempts

-- `min(seqs)` of a list that is not empty
abbrev pub minimum : ℕ → List ℕ → ℕ
minimum x [] = x
minimum x (y ∷ ys) = min x (minimum y ys)

unfoldable pub safe_seq : List ℕ → ℕ → ℕ
safe_seq [] max_seq = max_seq
safe_seq (x ∷ xs) max_seq = min (minimum x xs - 1) max_seq

-- the cursor and the counters after a poll
unfoldable pub advance : ℕ → ℕ → ℕ → ℕ → Dict ℕ → List String → List String → Dict ℕ → ℕ × Dict ℕ
unfolding hold_back drop_names cap_attempts safe_seq
advance max_attempts attempts_cap cursor max_seq gated_seq resolved names attempts =
    let unresolved = filter (λ n. not (contains resolved n)) names in
    let held = hold_back max_attempts gated_seq unresolved attempts in
    let safe = safe_seq held.blocker_seqs max_seq in
    (
      if ltb cursor safe then safe else cursor,
      cap_attempts attempts_cap gated_seq (drop_names (resolved ++ held.given_up) held.attempts),
    )
