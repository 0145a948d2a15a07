-- ===== src/Jobs/Deaths.antt =====
-- Worker deaths and the sweep (detonation_queue.sweep_stale_claims): a lost claim costs no attempt.
use pkgsentry_oss.Prelude.{
  ℕ, zero, suc, ◌+◌, String, ◌≡◌, refl, ap, sym, true, false, none, List, [], ◌∷◌, map, arith, leb,
  ltb, lt→ltb, All, Bool-cases, inl, inr, if◌then◌else◌,
}
use pkgsentry_oss.Jobs.{
  Job, JobStatus, is_over, is_waiting, is_running, max_job_attempts, job_hits, claim_job, cas_jobs,
  job_back, is_stale_job, release_job, sweep_stale_jobs, stale_job_seconds,
}
use pkgsentry_oss.Jobs.Worker.{Store}
use pkgsentry_oss.Jobs.Steps.{Reach}
use pkgsentry_oss.Jobs.Budget.{IsValidJob, Reach-IsValidJob}

release_job-back :
    (now : ℕ) (r : Job) → IsValidJob r → is_stale_job now r ≡ true → release_job now r ≡ job_back r
unfolding release_job is_stale_job
release_job-back now r h t =
    let running : is_over r.status ≡ false = ground (arith, t) in
    let left : leb max_job_attempts r.attempts ≡ false = ground (arith, h.open_left running) in
    rw (left, release_job) refl

sweep-back :
    (now : ℕ) (jobs : List Job)
    → All IsValidJob jobs
    → (sweep_stale_jobs now jobs).0 ≡ map (λ r. if is_stale_job now r then job_back r else r) jobs
unfolding sweep_stale_jobs
sweep-back now [] h = refl
sweep-back now (r ∷ jobs) (v, h) = elim (Bool-cases (is_stale_job now r)) [
  | inr f ↦ rw f (ap (λ xs. r ∷ xs) (sweep-back now jobs h))
  | inl t ↦ rw (t, release_job-back now r v t) (ap (λ xs. job_back r ∷ xs) (sweep-back now jobs h))
]

-- The sweep fails no job: in every reachable table whose jobs were valid at first, each stale claim goes
-- back to pending, so that the branch that fails a job with "claim_timeout" is never taken.
pub sweep_stale_jobs-back :
    {st after : Store} (now : ℕ)
    → Reach st after
    → All IsValidJob st.jobs
    → (sweep_stale_jobs now after.jobs).0
      ≡ map (λ r. if is_stale_job now r then job_back r else r) after.jobs
sweep_stale_jobs-back {st} {after} now r h = sweep-back now after.jobs (Reach-IsValidJob r h)

-- a claim whose worker dies, and the sweep that comes 901 seconds later
abbrev pub lost_claim : String → ℕ → ℕ → List Job → List Job
lost_claim token now i jobs =
    (sweep_stale_jobs (now + suc stale_job_seconds) (cas_jobs token now i jobs)).0

-- `n` of them
abbrev pub lost_claims : ℕ → String → ℕ → ℕ → List Job → List Job
lost_claims zero token now i jobs = jobs
lost_claims (suc n) token now i jobs = lost_claim token now i (lost_claims n token now i jobs)

back_same :
    (r : Job)
    → r.status ≡ JobStatus.pending
    → r.claim_token ≡ none
    → r.claimed_at ≡ none
    → job_back r ≡ r
unfolding job_back
back_same r s c t = rw (sym s, sym c, sym t) refl

lost_job :
    (token : String) (now i : ℕ) (r : Job)
    → IsValidJob r
    → is_waiting r.status ≡ true
    → lost_claim token now i (r ∷ []) ≡ r ∷ []
unfolding sweep_stale_jobs cas_jobs claim_job is_stale_job release_job
lost_job token now i r h w =
    let status : r.status ≡ JobStatus.pending = ground (arith, w) in
    let (owner, at) = h.waiting status in
    elim (Bool-cases (job_hits i r)) [
      | inr f ↦ let rest : is_running r.status ≡ false = ground (arith, w) in rw f (rw rest refl)
      | inl t ↦
          let old : ltb (now + stale_job_seconds) (now + suc stale_job_seconds) ≡ true =
            lt→ltb _ _ (omega arith) in
          let left : leb max_job_attempts r.attempts ≡ false = ground (arith, h.open_left, w) in
          rw t (rw (old, left) (ap (λ x. x ∷ []) (unfold job_back in back_same r status owner at)))
    ]

-- A job whose worker dies at every claim comes back unchanged, its attempts included, however often.
pub lost_claims-back :
    (n : ℕ) (token : String) (now i : ℕ) (r : Job)
    → IsValidJob r
    → is_waiting r.status ≡ true
    → lost_claims n token now i (r ∷ []) ≡ r ∷ []
lost_claims-back zero token now i r h w = refl
lost_claims-back (suc n) token now i r h w =
    rw (lost_claims-back n token now i r h w) (lost_job token now i r h w)
