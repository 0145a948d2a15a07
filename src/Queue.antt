-- ===== src/Queue.antt =====
-- The scan queue (pkgward/queue.py, table ScanQueue of pkgward/store/models.py). Times are seconds,
-- error texts are lists of code points, and the session is the table itself: a function takes the
-- table and returns the new one with its result. A commit of another session between a SELECT and
-- the UPDATE that follows it is a parameter of `claim_next`; what the database answers to an INSERT
-- is a parameter of `enqueue`.
pub mod Schedule
pub mod Claim
pub mod Rows
pub mod Lifecycle
pub mod Unique
pub mod Dedup
use pkgsentry_oss.Prelude.{
  ℕ, zero, suc, ◌+◌, ◌*◌, String, Bool, true, false, not, ◌&&◌, ◌||◌, Option, none, some, List, [],
  ◌∷◌, ◌++◌, map, filter, count, find?, str_eq, nat_eq, ltb, leb, opt_str_eq, if◌then◌else◌,
}

pub data Status : Type 0 where
  pending claimed done failed : Status

pub data Priority : Type 0 where
  high normal low : Priority

-- `_PRIORITY_ORDER`
abbrev pub priority_order : Priority → ℕ
priority_order Priority.high = 0
priority_order Priority.normal = 1
priority_order Priority.low = 2

abbrev pub is_pending : Status → Bool
is_pending Status.pending = true
is_pending _ = false

abbrev pub is_claimed : Status → Bool
is_claimed Status.claimed = true
is_claimed _ = false

abbrev pub is_failed : Status → Bool
is_failed Status.failed = true
is_failed _ = false

abbrev pub is_terminal : Status → Bool
is_terminal Status.done = true
is_terminal Status.failed = true
is_terminal _ = false

pub record Row : Type 0 where
  pub id : ℕ
  pub ecosystem : String
  pub name : String
  pub version : String
  pub priority : Priority
  pub status : Status
  pub attempts : ℕ
  pub claim_token : Option String
  pub last_error : Option (List ℕ)
  pub enqueued_at : ℕ
  pub claimed_at : Option ℕ
  pub finished_at : Option ℕ

pub record ScanQueue : Type 0 where
  pub rows : List Row
  pub next_id : ℕ

abbrev pub max_auto_attempts : ℕ
max_auto_attempts = 3

abbrev pub claim_cas_retries : ℕ
claim_cas_retries = 5

abbrev pub stale_claim_timeout_seconds : ℕ
stale_claim_timeout_seconds = 1800

-- `UPDATE … WHERE id = i`: every row that the key names
abbrev pub update_row : ℕ → (Row → Row) → List Row → List Row
update_row i f rows = map (λ r. if nat_eq r.id i then f r else r) rows

abbrev pub get_row : ℕ → List Row → Option Row
get_row i rows = find? (λ r. nat_eq r.id i) rows

-- the row of a package version
abbrev pub is_item : String → String → String → Row → Bool
is_item ecosystem name version r =
    str_eq r.ecosystem ecosystem && (str_eq r.name name && str_eq r.version version)

-- A priority is only ever raised.
unfoldable pub raise_priority : Priority → Row → Row
raise_priority p r =
    if ltb (priority_order p) (priority_order r.priority) then record r { priority = p } else r

-- back to pending, for another claim
unfoldable pub reset_row : Row → Row
reset_row r = record r {
  status = Status.pending;
  last_error = none;
  claim_token = none;
  claimed_at = none;
  finished_at = none;
}

-- what ingest makes of the row that is already there
unfoldable pub enqueue_auto : Priority → Row → Row
unfolding raise_priority reset_row
enqueue_auto p r = elim r.status [
  | Status.done ↦ r
  | Status.failed ↦ if leb max_auto_attempts r.attempts then r else raise_priority p (reset_row r)
  | _ ↦ raise_priority p r
]

-- what the operator's `rescan` makes of it
unfoldable pub enqueue_rescan : Priority → Row → Row
unfolding raise_priority reset_row
enqueue_rescan p r =
    if is_terminal r.status then record (reset_row r) { priority = p } else raise_priority p r

-- what the database answers to an INSERT
pub data InsertOutcome : Type 0 where
  inserted integrity_error deadlock lock_timeout other_error : InsertOutcome

-- The row id that `enqueue` returns, `None`, or an exception.
pub data Reply : Type 0 where
  returned : Option ℕ → Reply
  raised : Reply

unfoldable pub new_row : ScanQueue → String → String → String → Priority → ℕ → Row
new_row q ecosystem name version p now = record {
  id = q.next_id;
  ecosystem = ecosystem;
  name = name;
  version = version;
  priority = p;
  status = Status.pending;
  attempts = 0;
  claim_token = none;
  last_error = none;
  enqueued_at = now;
  claimed_at = none;
  finished_at = none;
}

unfoldable pub insert_row : ScanQueue → Row → ScanQueue
insert_row q r = record { rows = q.rows ++ r ∷ []; next_id = suc q.next_id }

-- The loop over the attempts: `left` retries are left after this one. Only a deadlock is retried.
unfoldable pub insert_loop : (ℕ → InsertOutcome) → ℕ → ℕ → ScanQueue → Row → ScanQueue × Reply
unfolding insert_row
insert_loop answer zero attempt q r = elim (answer attempt) [
  | InsertOutcome.inserted ↦ (insert_row q r, returned (some r.id))
  | InsertOutcome.other_error ↦ (q, raised)
  | _ ↦ (q, returned none)
]
insert_loop answer (suc left) attempt q r =
    let retry = insert_loop answer left (suc attempt) q r in
    elim (answer attempt) [
      | InsertOutcome.inserted ↦ (insert_row q r, returned (some r.id))
      | InsertOutcome.deadlock ↦ retry
      | InsertOutcome.other_error ↦ (q, raised)
      | _ ↦ (q, returned none)
    ]

-- `retries` is ENQUEUE_DEADLOCK_RETRIES.
unfoldable pub enqueue :
    (ℕ → InsertOutcome)
    → ℕ
    → ScanQueue
    → String
    → String
    → String
    → Priority
    → Bool
    → ℕ
    → ScanQueue × Reply
unfolding enqueue_auto enqueue_rescan new_row insert_loop
enqueue answer retries q ecosystem name version p allow_rescan now =
    elim (find? (is_item ecosystem name version) q.rows) [
      | none ↦ insert_loop answer retries 0 q (new_row q ecosystem name version p now)
      | some r ↦ (
        record q {
          rows = update_row r.id (if allow_rescan then enqueue_rescan p else enqueue_auto p) q.rows;
        },
        returned (some r.id),
      )
    ]

-- `claim_token != token`, where the caller may pass no token
unfoldable pub owns : Option String → Row → Bool
owns none r = true
owns (some token) r = opt_str_eq r.claim_token token

unfoldable pub finish : Status → ℕ → Row → Row
finish status now r = record r { status = status; finished_at = some now }

unfoldable pub mark_done : List Row → Row → Option String → ℕ → List Row × Bool
unfolding owns finish
mark_done rows r token now =
    if owns token r then (update_row r.id (finish Status.done now) rows, true) else (rows, false)

-- `error.replace("\x00", "")`
unfoldable pub strip_nul : List ℕ → List ℕ
strip_nul error = filter (λ c. not (nat_eq c 0)) error

unfoldable pub mark_failed : List Row → Row → List ℕ → Option String → ℕ → List Row × Bool
unfolding owns finish strip_nul
mark_failed rows r error token now =
    if owns token r
    then (
      update_row r.id
          (λ s. record (finish Status.failed now s) { last_error = some (strip_nul error) }) rows,
      true,
    )
    else (rows, false)

-- `t < now - age` on a nullable column, written without a subtraction
abbrev pub older_than : ℕ → ℕ → Option ℕ → Bool
older_than age now none = false
older_than age now (some t) = ltb (t + age) now

unfoldable pub is_prunable : ℕ → ℕ → Row → Bool
is_prunable days now r = is_terminal r.status && older_than (days * 86400) now r.finished_at

unfoldable pub prune_terminal : ℕ → ℕ → List Row → List Row × ℕ
unfolding is_prunable
prune_terminal days now rows =
    (filter (λ r. not (is_prunable days now r)) rows, count (is_prunable days now) rows)

unfoldable pub is_stale : ℕ → Row → Bool
is_stale now r = is_claimed r.status && older_than stale_claim_timeout_seconds now r.claimed_at

-- the text "claim_timeout"
abbrev pub claim_timeout : List ℕ
claim_timeout = 99 ∷ 108 ∷ 97 ∷ 105 ∷ 109 ∷ 95 ∷ 116 ∷ 105 ∷ 109 ∷ 101 ∷ 111 ∷ 117 ∷ 116 ∷ []

-- a stale claim goes back to pending, or fails when its attempts are used up
unfoldable pub release : ℕ → Row → Row
release now r =
    if leb max_auto_attempts r.attempts
    then record r {
      status = Status.failed;
      last_error = some claim_timeout;
      finished_at = some now;
    }
    else record r { status = Status.pending; claimed_at = none; claim_token = none }

unfoldable pub sweep_stale_claims : ℕ → List Row → List Row × ℕ
unfolding is_stale release
sweep_stale_claims now rows =
    (map (λ r. if is_stale now r then release now r else r) rows, count (is_stale now) rows)
