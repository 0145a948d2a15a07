-- ===== src/Queue/Lifecycle.antt =====
-- The life of the scan queue: any operations of ingest, workers and sweeps, in any order.
use pkgsentry_oss.Prelude.{ℕ, String, false, Option, List}
use pkgsentry_oss.Queue.{
  Row, Priority, ScanQueue, InsertOutcome, enqueue, mark_done, mark_failed, prune_terminal,
  sweep_stale_claims,
}
use pkgsentry_oss.Queue.Claim.{cas_rows}

-- One committed operation. A claim is the UPDATE that takes the row.
pub data Step (q : ScanQueue) : ScanQueue → Type 0 where
  enqueued :
      (answer : ℕ → InsertOutcome) (retries : ℕ) (ecosystem name version : String) (p : Priority)
      (now : ℕ)
      → Step q (enqueue answer retries q ecosystem name version p false now).0
  claim : (token : String) (now i : ℕ) → Step q (record q { rows = cas_rows token now i q.rows })
  done :
      (r : Row) (token : Option String) (now : ℕ)
      → Step q (record q { rows = (mark_done q.rows r token now).0 })
  failed :
      (r : Row) (error : List ℕ) (token : Option String) (now : ℕ)
      → Step q (record q { rows = (mark_failed q.rows r error token now).0 })
  swept : (now : ℕ) → Step q (record q { rows = (sweep_stale_claims now q.rows).0 })
  pruned : (days now : ℕ) → Step q (record q { rows = (prune_terminal days now q.rows).0 })

pub data Reach (q : ScanQueue) : ScanQueue → Type 0 where
  here : Reach q q
  next : {s t : ScanQueue} → Reach q s → Step s t → Reach q t
