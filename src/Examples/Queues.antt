-- ===== src/Examples/Queues.antt =====
-- A scan queue with two ecosystems.
use pkgsentry_oss.Prelude.{
  ℕ, ◌≤◌, ◌≡◌, refl, ◌&&◌, false, List, [], ◌∷◌, none, some, min, ltb, count, any, All, nat_eq,
  if◌then◌else◌, String, length, arith, eq_iff, extend_new,
}
use pkgsentry_oss.Queue.{
  Row, Status, Priority, ScanQueue, InsertOutcome, enqueue, new_row, enqueue_auto, is_failed,
  is_pending, max_auto_attempts, priority_order, release, mark_done, mark_failed,
  sweep_stale_claims,
}
use pkgsentry_oss.Queue.Schedule.{
  eco_weights, WithinShares, total_of, eco_weights-WithinShares, weighted_order, occurs,
  occurs_pair, PicksMember, weighted_order_lem,
}
use pkgsentry_oss.Queue.Claim.{claim_next, try_order, cas_hits, cas_rows, claim_row, claimable}
use pkgsentry_oss.Queue.Claim.Races.{claim_next_cas}
use pkgsentry_oss.Queue.Claim.Quiet.{quiet, DistinctIds, IsNext}
use pkgsentry_oss.Queue.Claim.Tiers.{claim_next-none, claim_next-some, more_urgent}
use pkgsentry_oss.Queue.Lifecycle.{Step, Reach}
use pkgsentry_oss.Queue.Unique.{DistinctItems, Reach-DistinctItems}
use pkgsentry_oss.Queue.Dedup.{enqueue_auto_lem, enqueue_new, decide_insert, deadlocks, late_worker}

abbrev pub row : ℕ → String → Priority → ℕ → Row
row i ecosystem p at = record {
  id = i;
  ecosystem = ecosystem;
  name = "left-pad";
  version = "1.0.0";
  priority = p;
  status = Status.pending;
  attempts = 0;
  claim_token = none;
  last_error = none;
  enqueued_at = at;
  claimed_at = none;
  finished_at = none;
}

abbrev rows : List Row
rows = row 1 "npm" Priority.normal 50 ∷ row 2 "pypi" Priority.high 70 ∷ []

abbrev queue : ScanQueue
queue = record { rows = rows; next_id = 3 }

-- always the first of what is offered
abbrev first : List (String × ℕ) → String
first [] = ""
first ((e, w) ∷ xs) = e

first-PicksMember : PicksMember first
first-PicksMember (e, w) xs = ground (arith, eq_iff e e)

abbrev ecosystems : List String
ecosystems = "npm" ∷ "pypi" ∷ []

abbrev backlog : List (String × ℕ)
backlog = ("npm", 9) ∷ ("pypi", 1) ∷ []

eco_weights-WithinShares_test :
    All
      (WithinShares (min 40 100) (min 70 100) (length ecosystems) (total_of backlog ecosystems))
      (eco_weights 40 70 ecosystems backlog)
eco_weights-WithinShares_test = eco_weights-WithinShares 40 70 ecosystems backlog (omega arith)

weighted_order_lem_test :
    occurs "pypi" (weighted_order first 2 backlog) ≡ min 1 (occurs_pair "pypi" backlog)
weighted_order_lem_test = weighted_order_lem first 2 backlog "pypi" first-PicksMember (omega arith)

-- another session claims row 2 just before the first UPDATE
abbrev rival : ℕ → List Row → List Row
rival k rs = if nat_eq k 2 then cas_rows "rival" 90 2 rs else rs

runs : Unit {0}
unfolding claim_next try_order weighted_order extend_new eco_weights
runs = tt

rival_takes_high : (claim_next rival first 40 70 "mine" 100 rows).won ≡ some 1
unfolding runs
rival_takes_high = refl

All-unit : (rs : List Row) → All (λ r. Unit {0}) rs
All-unit [] = tt
All-unit (r ∷ rs) = (tt, All-unit rs)

claim_next_cas_example :
    (met : List Row) × All (λ r. Unit {0}) met
    × (count (cas_hits 1) met ≡ 1)
    × ((claim_next rival first 40 70 "mine" 100 rows).rows ≡ cas_rows "mine" 100 1 met)
claim_next_cas_example =
    claim_next_cas rival first 40 70 "mine" 100 (λ r. Unit {0}) (λ k rs h. All-unit (rival k rs))
      (λ r h e. tt) rows 1 (All-unit rows) rival_takes_high

rows-DistinctIds : DistinctIds rows
rows-DistinctIds = (refl, (refl, tt))

claim_next-some_example :
    (p : Priority) × IsNext rows p 2 × All (λ q. any (claimable q) rows ≡ false) (more_urgent p)
unfolding runs
claim_next-some_example =
    claim_next-some first 40 70 "mine" 100 rows 2 first-PicksMember rows-DistinctIds refl

abbrev taken : List Row
taken = record (row 1 "npm" Priority.normal 50) { status = Status.done } ∷ []

claim_next-none_example :
    ((claim_next quiet first 40 70 "mine" 100 taken).rows ≡ taken)
    × (any (λ r. is_pending r.status) taken ≡ false)
unfolding runs
claim_next-none_example =
    claim_next-none first 40 70 "mine" 100 taken first-PicksMember (refl, tt) refl

-- claimed, and swept after the worker died
abbrev swept_queue : ScanQueue
swept_queue = record queue {
  rows =
      (sweep_stale_claims 5000 (record queue { rows = cas_rows "mine" 100 2 queue.rows }).rows).0;
}

swept-Reach : Reach queue swept_queue
swept-Reach = Reach.next (Reach.next Reach.here (Step.claim "mine" 100 2)) (Step.swept 5000)

Reach-DistinctItems_example : DistinctItems swept_queue.rows
Reach-DistinctItems_example = Reach-DistinctItems swept-Reach (refl, (refl, tt))

abbrev spent : Row
spent = record (row 1 "npm" Priority.normal 50) { status = Status.failed; attempts = 3 }

enqueue_auto_lem_test :
    let r = enqueue_auto Priority.high spent in
    let again = is_failed spent.status && ltb spent.attempts max_auto_attempts in
    (spent.attempts ≡ r.attempts)
    × (priority_order r.priority ≤ priority_order spent.priority)
    × (r.status ≡ (if again then Status.pending else spent.status))
    × (r.last_error ≡ (if again then none else spent.last_error))
    × (r.claim_token ≡ (if again then none else spent.claim_token))
enqueue_auto_lem_test = enqueue_auto_lem Priority.high spent

-- two deadlocks, and then the row is in
abbrev answers : ℕ → InsertOutcome
answers k = if ltb k 2 then InsertOutcome.deadlock else InsertOutcome.inserted

enqueue_new_example :
    enqueue answers 3 queue "npm" "evil" "9.9.9" Priority.high false 100
    ≡ decide_insert queue
        (new_row queue "npm" "evil" "9.9.9" Priority.high 100)
        (answers (deadlocks answers 3 0))
enqueue_new_example = enqueue_new answers 3 queue "npm" "evil" "9.9.9" Priority.high false 100 refl

late_worker_test :
    let waiting = release 5000 (claim_row "mine" 100 (row 1 "npm" Priority.normal 50)) in
    let next = claim_row "theirs" 5001 waiting in
    (mark_done rows waiting (some "mine") 5002 ≡ (rows, false))
    × (mark_failed rows waiting [] (some "mine") 5002 ≡ (rows, false))
    × (mark_done rows next (some "mine") 5002 ≡ (rows, false))
    × (mark_failed rows next [] (some "mine") 5002 ≡ (rows, false))
unfolding claim_row
late_worker_test =
    late_worker rows (claim_row "mine" 100 (row 1 "npm" Priority.normal 50)) "mine" "theirs" 5000
      5001 5002 [] (omega arith) (λ e. cc ((eq_iff "theirs" "mine").1 e))
