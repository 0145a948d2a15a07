-- ===== src/Queue/Rows.antt =====
-- What holds of every row of the scan queue while only ingest, workers and sweeps touch it.
use pkgsentry_oss.Prelude.{
  ℕ, zero, suc, ◌≤◌, ◌<◌, String, ◌≡◌, refl, true, false, Option, none, some, List, arith, find?,
  nat_eq, is_some, All, All-map, All-filter, All-append_one, Bool-cases, Option-cases, inl, inr,
}
use pkgsentry_oss.Queue.{
  Row, Status, Priority, ScanQueue, InsertOutcome, is_terminal, max_auto_attempts, update_row,
  enqueue_auto, new_row, insert_loop, enqueue, is_item, owns, finish, mark_done, mark_failed,
  strip_nul, prune_terminal, is_stale, release, sweep_stale_claims,
}
use pkgsentry_oss.Queue.Claim.{claim_row}

-- A row waits with attempts to spare and no owner; a claimed row has an owner, a claim time and has
-- used an attempt; a finished row has an end time; and no row is claimed more often than allowed.
pub record IsValid (r : Row) : Type 0 where
  pub bounded : r.attempts ≤ max_auto_attempts
  pub waiting :
      r.status ≡ Status.pending → (r.attempts < max_auto_attempts) × (r.claim_token ≡ none)
  pub running :
      r.status ≡ Status.claimed
      → (0 < r.attempts) × (is_some r.claim_token ≡ true) × (is_some r.claimed_at ≡ true)
  pub ended : is_terminal r.status ≡ true → is_some r.finished_at ≡ true

pub claim_row-IsValid :
    (token : String) (now : ℕ) (r : Row)
    → IsValid r
    → r.status ≡ Status.pending
    → IsValid (claim_row token now r)
unfolding claim_row
claim_row-IsValid token now r h e = ground (arith, h.waiting e)

enqueue_auto-IsValid : (p : Priority) (r : Row) → IsValid r → IsValid (enqueue_auto p r)
unfolding enqueue_auto
enqueue_auto-IsValid p r h = ground (arith, h.bounded, h.waiting, h.running, h.ended)

finish-IsValid :
    (s : Status) (now : ℕ) (r : Row) → is_terminal s ≡ true → IsValid r → IsValid (finish s now r)
unfolding finish
finish-IsValid s now r t h = ground (arith, h.bounded)

release-IsValid : (now : ℕ) (r : Row) → IsValid r → IsValid (release now r)
unfolding release
release-IsValid now r h = ground (arith, h.bounded)

new_row-IsValid :
    (q : ScanQueue) (ecosystem name version : String) (p : Priority) (now : ℕ)
    → IsValid (new_row q ecosystem name version p now)
unfolding new_row
new_row-IsValid q ecosystem name version p now = ground arith

All-update_row :
    (P : Row → Type 0) (i : ℕ) (f : Row → Row) (rows : List Row)
    → ((r : Row) → P r → P (f r))
    → All P rows
    → All P (update_row i f rows)
All-update_row P i f rows h =
    All-map P _ rows
      λ r k. elim (Bool-cases (nat_eq r.id i)) [ inl t ↦ rw t (h r k) | inr e ↦ rw e k ]

All-insert_loop :
    (answer : ℕ → InsertOutcome) (left attempt : ℕ) (q : ScanQueue) (r : Row)
    → All IsValid q.rows
    → IsValid r
    → All IsValid (insert_loop answer left attempt q r).0.rows
unfolding insert_loop
All-insert_loop answer zero attempt q r h v = ground (arith, h, All-append_one IsValid q.rows r h v)
All-insert_loop answer (suc left) attempt q r h v = ground (
  arith,
  h,
  All-append_one IsValid q.rows r h v,
  All-insert_loop answer left (suc attempt) q r h v,
)

-- Each operation keeps the invariant of all rows. An operator's rescan is left out.
pub enqueue-IsValid :
    (answer : ℕ → InsertOutcome) (retries : ℕ) (q : ScanQueue) (ecosystem name version : String)
    (p : Priority) (now : ℕ)
    → All IsValid q.rows
    → All IsValid (enqueue answer retries q ecosystem name version p false now).0.rows
unfolding enqueue
enqueue-IsValid answer retries q ecosystem name version p now h =
    elim (Option-cases (find? (is_item ecosystem name version) q.rows)) [
      | inl e ↦
          rw (e, All)
            (All-insert_loop answer retries 0 q _ h
              (new_row-IsValid q ecosystem name version p now))
      | inr (r, e) ↦ rw (e, All) (All-update_row IsValid r.id _ q.rows (enqueue_auto-IsValid p) h)
    ]

pub mark_done-IsValid :
    (rows : List Row) (r : Row) (token : Option String) (now : ℕ)
    → All IsValid rows
    → All IsValid (mark_done rows r token now).0
unfolding mark_done
mark_done-IsValid rows r token now h = elim (Bool-cases (owns token r)) [
  | inl t ↦ rw t (All-update_row IsValid r.id _ rows (λ s. finish-IsValid Status.done now s refl) h)
  | inr f ↦ rw f h
]

failed-IsValid :
    (now : ℕ) (error : List ℕ) (r : Row)
    → IsValid r
    → IsValid (record (finish Status.failed now r) { last_error = some (strip_nul error) })
unfolding finish
failed-IsValid now error r h = ground (arith, h.bounded)

pub mark_failed-IsValid :
    (rows : List Row) (r : Row) (error : List ℕ) (token : Option String) (now : ℕ)
    → All IsValid rows
    → All IsValid (mark_failed rows r error token now).0
unfolding mark_failed
mark_failed-IsValid rows r error token now h = elim (Bool-cases (owns token r)) [
  | inl t ↦ rw t (All-update_row IsValid r.id _ rows (failed-IsValid now error) h)
  | inr f ↦ rw f h
]

pub sweep_stale_claims-IsValid :
    (now : ℕ) (rows : List Row) → All IsValid rows → All IsValid (sweep_stale_claims now rows).0
unfolding sweep_stale_claims
sweep_stale_claims-IsValid now rows = All-map IsValid _ rows λ r k.
    elim (Bool-cases (is_stale now r)) [ inl t ↦ rw t (release-IsValid now r k) | inr e ↦ rw e k ]

pub prune_terminal-IsValid :
    (days now : ℕ) (rows : List Row)
    → All IsValid rows
    → All IsValid (prune_terminal days now rows).0
unfolding prune_terminal
prune_terminal-IsValid days now rows = All-filter IsValid _ rows
