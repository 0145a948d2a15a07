-- ===== src/Jobs/Steps.antt =====
-- The committed transactions on the detonation jobs, in any order: the scanner enqueues, the workers
-- claim and finish, sweeps and expiry run beside them.
use pkgsentry_oss.Prelude.{ℕ, ◌≡◌, some, String, Option, Bool, List}
use pkgsentry_oss.Adapter.{Finding}
use pkgsentry_oss.Intel.{IntelPack}
use pkgsentry_oss.Jobs.{
  Job, get_job, enqueue_job, cas_jobs, sweep_stale_jobs, is_outdated, has_id, expire_where,
}
use pkgsentry_oss.Jobs.Worker.{Ticket, DetResult, Store, give_up, requeue_or_fail, finalize}

-- One transaction. A claim and the two halves of the expiry are the UPDATEs that write them, the second
-- half for any ids, since other sessions may commit between its SELECT and its UPDATE. The ticket of a
-- finalized job names that job's scan.
pub data Step (st : Store) : Store → Type 0 where
  enqueued :
      (keys_ok : Bool) (r : Job) → Step st (record st { jobs = (enqueue_job keys_ok r st.jobs).0 })
  claim : (token : String) (now i : ℕ) → Step st (record st { jobs = cas_jobs token now i st.jobs })
  swept : (now : ℕ) → Step st (record st { jobs = (sweep_stale_jobs now st.jobs).0 })
  outdated :
      (ttl_hours now : ℕ)
      → Step st (record st { jobs = expire_where (is_outdated ttl_hours now) now st.jobs })
  expired :
      (ids : List ℕ) (now : ℕ)
      → Step st (record st { jobs = expire_where (has_id ids) now st.jobs })
  gave_up :
      (now : ℕ) (job : Ticket) (reason : List ℕ)
      → Step st (record st { jobs = give_up now job reason st.jobs })
  requeued :
      (now : ℕ) (job : Ticket) (reason : List ℕ)
      → Step st (record st { jobs = requeue_or_fail now job reason st.jobs })
  finalized :
      (pack : IntelPack) (self_download : List Finding → Finding → Bool) (rank : Option ℕ) (now : ℕ)
      (job : Ticket) (det : DetResult) (q : Job)
      → get_job job.id st.jobs ≡ some q
      → job.scan_id ≡ q.scan_id
      → Step st (finalize pack self_download rank now job det st).0

pub data Reach (st : Store) : Store → Type 0 where
  here : Reach st st
  next : {s t : Store} → Reach st s → Step s t → Reach st t
