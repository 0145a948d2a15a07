-- ===== src/Queue/Dedup.antt =====
-- What single operations of the scan queue do: repeated enqueues, lost inserts, late workers.
use pkgsentry_oss.Prelude.{
  ℕ, zero, suc, ◌+◌, ◌≤◌, ◌<◌, String, ◌≡◌, ◌≢◌, refl, Bool, false, ◌&&◌, none, some, List, arith,
  find?, str_eq, ltb, leb, if◌then◌else◌, eq_iff,
}
use native.Mathlib.Nat.{add-zero, zero-add}
use pkgsentry_oss.Queue.{
  is_failed, Row, Status, Priority, ScanQueue, InsertOutcome, Reply, priority_order,
  max_auto_attempts, enqueue_auto, new_row, insert_row, insert_loop, enqueue, is_item, mark_done,
  mark_failed, release,
}
use pkgsentry_oss.Queue.Claim.{claim_row}

-- Ingest that meets a row twice in succession changes it once.
pub enqueue_auto_idem :
    (p : Priority) (r : Row) → enqueue_auto p (enqueue_auto p r) ≡ enqueue_auto p r
unfolding enqueue_auto
enqueue_auto_idem p r = ground arith

-- What ingest makes of a row that is there: a finished scan stays as it is, and so does a failed row
-- that has used up its attempts; a failed row with attempts left waits again, with no owner and no
-- error; a priority is never lowered; and attempts are never forgotten.
pub enqueue_auto_lem :
    (p : Priority) (r : Row)
    → (r.attempts ≡ (enqueue_auto p r).attempts)
      × (priority_order (enqueue_auto p r).priority ≤ priority_order r.priority)
      × ((enqueue_auto p r).status ≡ (
          if is_failed r.status && ltb r.attempts max_auto_attempts
          then Status.pending
          else r.status))
      × ((enqueue_auto p r).last_error
          ≡ (if is_failed r.status && ltb r.attempts max_auto_attempts then none else r.last_error))
      × ((enqueue_auto p r).claim_token ≡ (
          if is_failed r.status && ltb r.attempts max_auto_attempts then none else r.claim_token))
unfolding enqueue_auto
enqueue_auto_lem p r = ground arith

-- the attempts before the first answer that is not a deadlock
abbrev pub deadlocks : (ℕ → InsertOutcome) → ℕ → ℕ → ℕ
deadlocks answer zero attempt = 0
deadlocks answer (suc left) attempt =
    let more = deadlocks answer left (suc attempt) in
    elim (answer attempt) [ InsertOutcome.deadlock ↦ suc more | _ ↦ 0 ]

-- what an answer other than a deadlock decides; a deadlock decides that the item is skipped
abbrev pub decide_insert : ScanQueue → Row → InsertOutcome → ScanQueue × Reply
decide_insert q r InsertOutcome.inserted = (insert_row q r, Reply.returned (some r.id))
decide_insert q r InsertOutcome.other_error = (q, Reply.raised)
decide_insert q r _ = (q, Reply.returned none)

insert_loop_lem :
    (answer : ℕ → InsertOutcome) (left attempt : ℕ) (q : ScanQueue) (r : Row)
    → insert_loop answer left attempt q r
      ≡ decide_insert q r (answer (attempt + deadlocks answer left attempt))
unfolding insert_loop
insert_loop_lem answer zero attempt q r = rw add-zero (last (answer attempt))
  where
    last :
        (o : InsertOutcome)
        → (elim o as (λ x. ScanQueue × Reply) [
          | InsertOutcome.inserted ↦ (insert_row q r, Reply.returned (some r.id))
          | InsertOutcome.other_error ↦ (q, Reply.raised)
          | _ ↦ (q, Reply.returned none)
        ])
          ≡ decide_insert q r o
    last InsertOutcome.inserted = refl
    last _ = refl
insert_loop_lem answer (suc left) attempt q r =
    ground (arith, insert_loop_lem answer left (suc attempt) q r)

-- An item that is new to the queue: the first answer that is not a deadlock within the retries decides,
-- or else the last deadlock; the row is appended exactly if the database inserts it, an exception
-- leaves only for another error, and otherwise the item is skipped with the queue unchanged.
pub enqueue_new :
    (answer : ℕ → InsertOutcome) (retries : ℕ) (q : ScanQueue) (ecosystem name version : String)
    (p : Priority) (allow_rescan : Bool) (now : ℕ)
    → find? (is_item ecosystem name version) q.rows ≡ none
    → enqueue answer retries q ecosystem name version p allow_rescan now
      ≡ decide_insert q
          (new_row q ecosystem name version p now)
          (answer (deadlocks answer retries 0))
unfolding enqueue
enqueue_new answer retries q ecosystem name version p allow_rescan now e =
    rw (e, enqueue) (rw insert_loop_lem (rw zero-add refl))

-- A worker whose claim was swept with attempts left changes nothing when it reports, done or failed,
-- while the row waits again, and after another worker has taken it with another token.
pub late_worker :
    (rows : List Row) (r : Row) (old new : String) (swept_at claimed_at now : ℕ) (error : List ℕ)
    → r.attempts < max_auto_attempts
    → new ≢ old
    → let waiting = release swept_at r in
      let taken = claim_row new claimed_at waiting in
      (mark_done rows waiting (some old) now ≡ (rows, false))
      × (mark_failed rows waiting error (some old) now ≡ (rows, false))
      × (mark_done rows taken (some old) now ≡ (rows, false))
      × (mark_failed rows taken error (some old) now ≡ (rows, false))
unfolding mark_done mark_failed claim_row release
late_worker rows r old new swept_at claimed_at now error left other =
    let differ : str_eq new old ≡ false = ground (arith, eq_iff new old) in
    let spare : leb max_auto_attempts r.attempts ≡ false = ground arith in
    (rw spare refl, rw spare refl, rw differ refl, rw differ refl)
