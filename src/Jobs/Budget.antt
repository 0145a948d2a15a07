-- ===== src/Jobs/Budget.antt =====
-- The retry budget of the detonation jobs: only failures that a worker reports use it up.
use pkgsentry_oss.Prelude.{
  ℕ, ◌≤◌, ◌<◌, String, ◌≡◌, sym, Bool, true, false, Option, none, some, List, [], ◌∷◌, arith,
  nat_eq, is_some, All, All-map, All-append_one, Bool-cases, Option-cases, inl, inr, if◌then◌else◌,
  find?,
}
use pkgsentry_oss.Jobs.{
  Job, JobStatus, is_over, max_job_attempts, get_job, update_job, new_job, enqueue_job, job_hits,
  claim_job, cas_jobs, job_back, job_failed, job_done, is_stale_job, release_job, sweep_stale_jobs,
  expire_job,
}
use pkgsentry_oss.Jobs.Worker.{
  Ticket, DetResult, Store, give_up, mark_job_failed, mark_job_done, requeue_or_fail, finalize,
  holds, owns_job, count_failure,
}
use pkgsentry_oss.Jobs.Steps.{Step, Reach}
use pkgsentry_oss.Jobs.Counts.{get_own, holds-open}
use pkgsentry_oss.Adapter.{Finding}
use pkgsentry_oss.Intel.{IntelPack}

-- No job has failed more often than allowed, an open one has an attempt left; a waiting job has no owner
-- and a claimed one has an owner and a claim time.
pub record IsValidJob (r : Job) : Type 0 where
  pub bounded : r.attempts ≤ max_job_attempts
  pub open_left : is_over r.status ≡ false → r.attempts < max_job_attempts
  pub waiting : r.status ≡ JobStatus.pending → (r.claim_token ≡ none) × (r.claimed_at ≡ none)
  pub running :
      r.status ≡ JobStatus.claimed → (is_some r.claim_token ≡ true) × (is_some r.claimed_at ≡ true)

new_job-IsValidJob : (r : Job) → IsValidJob (new_job r)
unfolding new_job
new_job-IsValidJob r = ground arith

claim_job-IsValidJob :
    (token : String) (now i : ℕ) (r : Job)
    → IsValidJob r
    → IsValidJob (if job_hits i r then claim_job token now r else r)
unfolding claim_job
claim_job-IsValidJob token now i r h = ground (arith, h.bounded, h.open_left, h.waiting, h.running)

release_job-IsValidJob :
    (now : ℕ) (r : Job)
    → IsValidJob r
    → IsValidJob (if is_stale_job now r then release_job now r else r)
unfolding release_job is_stale_job job_back job_failed
release_job-IsValidJob now r h = ground (arith, h.bounded, h.open_left, h.waiting, h.running)

expire_job-IsValidJob :
    (p : Job → Bool) (now : ℕ) (r : Job)
    → IsValidJob r
    → IsValidJob (if p r then expire_job now r else r)
expire_job-IsValidJob p now r h = ground (arith, h.bounded, h.open_left, h.waiting, h.running)

job_done-IsValidJob : (now : ℕ) (r : Job) → IsValidJob r → IsValidJob (job_done now r)
unfolding job_done
job_done-IsValidJob now r h = ground (arith, h.bounded)

job_failed-IsValidJob :
    (now : ℕ) (error : List ℕ) (r : Job) → IsValidJob r → IsValidJob (job_failed now error r)
unfolding job_failed
job_failed-IsValidJob now error r h = ground (arith, h.bounded)

-- the job that the failure is counted on is open
count_failure-IsValidJob :
    (now : ℕ) (reason : List ℕ) (r : Job)
    → is_over r.status ≡ false
    → IsValidJob r
    → IsValidJob (count_failure now reason r)
unfolding count_failure job_back job_failed
count_failure-IsValidJob now reason r o h = ground (arith, h.open_left o)

All-update_job :
    (i : ℕ) (f : Job → Job) (q : Job) (jobs : List Job)
    → get_job i jobs ≡ some q
    → (IsValidJob q → IsValidJob (f q))
    → All IsValidJob jobs
    → All IsValidJob (update_job i f jobs)
All-update_job i f q [] g k h = tt
All-update_job i f q (r ∷ jobs) g k (v, h) = elim (Bool-cases (nat_eq r.id i)) [
  | inl t ↦ let same : r ≡ q = ground (arith, t, g) in rw (t, All, same) (k (rw (sym same) v), h)
  | inr e ↦ rw (e, All) (v, All-update_job i f q jobs (ground (arith, e, g)) k h)
]

enqueue_job-IsValidJob :
    (keys_ok : Bool) (r : Job) (jobs : List Job)
    → All IsValidJob jobs
    → All IsValidJob (enqueue_job keys_ok r jobs).0
unfolding enqueue_job
enqueue_job-IsValidJob keys_ok r jobs h =
    ground (arith, h, All-append_one IsValidJob jobs (new_job r) h (new_job-IsValidJob r))

give_up-IsValidJob :
    (now : ℕ) (job : Ticket) (reason : List ℕ) (jobs : List Job)
    → All IsValidJob jobs
    → All IsValidJob (give_up now job reason jobs)
unfolding give_up mark_job_failed
give_up-IsValidJob now job reason jobs h = elim (Option-cases (get_job job.id jobs)) [
  | inl e ↦ rw (e, give_up) h
  | inr (q, e) ↦ elim (Bool-cases (owns_job (some job.token) q)) [
    | inl t ↦
        rw (e, give_up)
          (rw (t, All)
            (All-update_job q.id _ q jobs (get_own job.id q jobs e) (job_failed-IsValidJob now _ q)
              h))
    | inr f ↦ rw (e, give_up) (rw (f, All) h)
  ]
]

requeue_or_fail-IsValidJob :
    (now : ℕ) (job : Ticket) (reason : List ℕ) (jobs : List Job)
    → All IsValidJob jobs
    → All IsValidJob (requeue_or_fail now job reason jobs)
unfolding requeue_or_fail
requeue_or_fail-IsValidJob now job reason jobs h = elim (Option-cases (get_job job.id jobs)) [
  | inl e ↦ rw (e, requeue_or_fail) h
  | inr (q, e) ↦ elim (Bool-cases (holds job q)) [
    | inl t ↦
        rw (e, requeue_or_fail)
          (rw (t, All)
            (All-update_job q.id _ q jobs (get_own job.id q jobs e)
              (count_failure-IsValidJob now reason q (holds-open job q t)) h))
    | inr f ↦ rw (e, requeue_or_fail) (rw (f, All) h)
  ]
]

mark_job_done-IsValidJob :
    (jobs : List Job) (q : Job) (token : Option String) (now : ℕ)
    → get_job q.id jobs ≡ some q
    → All IsValidJob jobs
    → All IsValidJob (mark_job_done jobs q token now).0
unfolding mark_job_done
mark_job_done-IsValidJob jobs q token now g h = elim (Bool-cases (owns_job token q)) [
  | inl t ↦ rw (t, All) (All-update_job q.id _ q jobs g (job_done-IsValidJob now q) h)
  | inr f ↦ rw (f, All) h
]

finalize-IsValidJob :
    (pack : IntelPack) (self_download : List Finding → Finding → Bool) (rank : Option ℕ) (now : ℕ)
    (job : Ticket) (det : DetResult) (q : Job) (st : Store)
    → get_job job.id st.jobs ≡ some q
    → All IsValidJob st.jobs
    → All IsValidJob (finalize pack self_download rank now job det st).0.jobs
unfolding finalize
finalize-IsValidJob pack self_download rank now job det q st g h =
    let closed =
      mark_job_done-IsValidJob st.jobs q (some job.token) now (get_own job.id q st.jobs g) h in
    elim (Bool-cases (holds job q)) [
      | inr f ↦ rw (g, finalize) (rw (f, All) h)
      | inl t ↦ elim (Option-cases (find? (λ s. nat_eq s.id job.scan_id) st.scans)) [
        | inl missing ↦ rw (g, finalize) (rw (t, missing, All) closed)
        | inr (scan, found) ↦ rw (g, finalize) (rw (t, found, All) closed)
      ]
    ]

Step-IsValidJob :
    {st after : Store} → Step st after → All IsValidJob st.jobs → All IsValidJob after.jobs
unfolding cas_jobs sweep_stale_jobs
Step-IsValidJob {st} (Step.enqueued keys_ok r) h = enqueue_job-IsValidJob keys_ok r st.jobs h
Step-IsValidJob {st} (Step.claim token now i) h =
    All-map IsValidJob _ st.jobs (claim_job-IsValidJob token now i) h
Step-IsValidJob {st} (Step.swept now) h =
    All-map IsValidJob _ st.jobs (release_job-IsValidJob now) h
Step-IsValidJob {st} (Step.outdated ttl_hours now) h =
    All-map IsValidJob _ st.jobs (expire_job-IsValidJob _ now) h
Step-IsValidJob {st} (Step.expired ids now) h =
    All-map IsValidJob _ st.jobs (expire_job-IsValidJob _ now) h
Step-IsValidJob {st} (Step.gave_up now job reason) h = give_up-IsValidJob now job reason st.jobs h
Step-IsValidJob {st} (Step.requeued now job reason) h =
    requeue_or_fail-IsValidJob now job reason st.jobs h
Step-IsValidJob {st} (Step.finalized pack self_download rank now job det q g e) h =
    finalize-IsValidJob pack self_download rank now job det q st g h

pub Reach-IsValidJob :
    {st after : Store} → Reach st after → All IsValidJob st.jobs → All IsValidJob after.jobs
Reach-IsValidJob Reach.here h = h
Reach-IsValidJob (Reach.next r s) h = Step-IsValidJob s (Reach-IsValidJob r h)
