-- ===== src/Examples/Detonations.antt =====
-- A package that was clean when scanned and phones home when it is installed.
use pkgsentry_oss.Prelude.{
  ℕ, ◌≤◌, ◌≡◌, refl, false, nat_eq, String, Option, Bool, none, some, List, [], ◌∷◌, map, count,
  All, arith, ◌+◌, if◌then◌else◌, extend_new,
}
use pkgsentry_oss.Adapter.{Finding, severity_name}
use pkgsentry_oss.Queue.{Priority}
use pkgsentry_oss.Detect.{
  Verdict, score_and_verdict, raw_score, scoring_findings, is_shadow_finding, add_findings,
  add_points, sum_values, base_verdict, severity_points, category_cap, watchlist_verdict,
  has_behavioral_chain,
}
use pkgsentry_oss.Prelude.Evict.{oldest_ids, sort_by}
use pkgsentry_oss.Jobs.{
  Job, JobStatus, is_stale_job, job_back, sweep_stale_jobs, cas_jobs, claim_job, is_clean_backlog,
  expire_stale_clean, alone, claim_next_job, excess_ids,
}
use pkgsentry_oss.Jobs.Worker.{Ticket, DetResult, Store, Alert, finalize}
use pkgsentry_oss.Jobs.Steps.{Step, Reach}
use pkgsentry_oss.Jobs.Counts.{of_scan, detonation_of}
use pkgsentry_oss.Jobs.Once.{Reach-detonations}
use pkgsentry_oss.Jobs.Budget.{IsValidJob}
use pkgsentry_oss.Jobs.Deaths.{sweep_stale_jobs-back, lost_claims, lost_claims-back}
use pkgsentry_oss.Jobs.Backlog.{expire_stale_clean-le-cap}
use pkgsentry_oss.Jobs.Expiry.{
  DistinctJobIds, OnlyClean, expire_stale_clean-OnlyClean, expire_stale_clean-count,
}
use pkgsentry_oss.Jobs.Alerts.{Flipped, finalize-alert}
use pkgsentry_oss.Examples.Packs.{baseline}
use pkgsentry_oss.Examples.Scans.{exfil}

abbrev job : ℕ → ℕ → Job
job i at = record {
  id = i;
  scan_id = i + 100;
  version_id = i;
  ecosystem = "npm";
  name = "left-pad";
  version = "9.9.9";
  archive_kind = "sdist";
  priority = Priority.low;
  static_verdict = Verdict.clean;
  status = JobStatus.pending;
  attempts = 0;
  claim_token = none;
  last_error = none;
  enqueued_at = at;
  claimed_at = none;
  finished_at = none;
}

abbrev store : Store
store = record {
  jobs = job 1 50 ∷ job 2 70 ∷ [];
  scans = record { id = 101; verdict = Verdict.clean; score = 0; alert_tag = none } ∷ [];
  findings = [];
  detonations = [];
}

abbrev claimed_store : Store
claimed_store = record store { jobs = cas_jobs "mine" 100 1 store.jobs }

abbrev ticket : Ticket
ticket = record { id = 1; token = "mine"; scan_id = 101; static_verdict = Verdict.clean }

abbrev result : DetResult
result = record { detonation_id = "box"; status = "ok"; findings = exfil ∷ [] }

abbrev trust_nothing : List Finding → Finding → Bool
trust_nothing fs f = false

abbrev alert : Alert
alert = record {
  static_verdict = Verdict.clean;
  new_verdict = Verdict.malicious;
  new_score = 25;
  findings = exfil ∷ [];
}

-- The claimed job is finalized, and the verdict flips.
flips : (finalize baseline trust_nothing none 200 ticket result claimed_store).1 ≡ some alert
unfolding finalize cas_jobs score_and_verdict raw_score add_findings add_points sum_values
    severity_points category_cap severity_name watchlist_verdict base_verdict has_behavioral_chain
    scoring_findings is_shadow_finding
flips = refl

finalize-alert_example : Flipped baseline trust_nothing none 200 ticket result claimed_store alert
finalize-alert_example =
    finalize-alert baseline trust_nothing none 200 ticket result claimed_store alert flips

abbrev done_store : Store
done_store = (finalize baseline trust_nothing none 200 ticket result claimed_store).0

done-Reach : Reach store done_store
unfolding cas_jobs claim_job
done-Reach = Reach.next (Reach.next Reach.here (Step.claim "mine" 100 1)) (
    Step.finalized baseline trust_nothing none 200 ticket result (claim_job "mine" 100 (job 1 50))
      refl refl)

one_each : (k : ℕ) → count (of_scan k) store.jobs ≤ 1
one_each k = ground arith

Reach-detonations_example : count (detonation_of 101) done_store.detonations ≤ 1
Reach-detonations_example = Reach-detonations 101 done-Reach refl one_each

store-IsValidJob : All IsValidJob store.jobs
store-IsValidJob = (ground arith, (ground arith, tt))

claimed-Reach : Reach store claimed_store
claimed-Reach = Reach.next Reach.here (Step.claim "mine" 100 1)

sweep_stale_jobs-back_example :
    (sweep_stale_jobs 5000 claimed_store.jobs).0
    ≡ map (λ r. if is_stale_job 5000 r then job_back r else r) claimed_store.jobs
sweep_stale_jobs-back_example = sweep_stale_jobs-back 5000 claimed-Reach store-IsValidJob

lost_claims-back_test : lost_claims 7 "mine" 100 1 (job 1 50 ∷ []) ≡ job 1 50 ∷ []
lost_claims-back_test = lost_claims-back 7 "mine" 100 1 (job 1 50) (ground arith) refl

expire_stale_clean-le-cap_example :
    count is_clean_backlog (expire_stale_clean alone 24 1 100 store.jobs).0 ≤ 1
expire_stale_clean-le-cap_example = expire_stale_clean-le-cap 24 1 100 store.jobs

store-DistinctJobIds : DistinctJobIds store.jobs
store-DistinctJobIds = (refl, (refl, tt))

expire_stale_clean-OnlyClean_example :
    OnlyClean 100 store.jobs (expire_stale_clean alone 24 1 100 store.jobs).0
expire_stale_clean-OnlyClean_example =
    expire_stale_clean-OnlyClean 24 1 100 store.jobs store-DistinctJobIds

expire_stale_clean-count_test :
    let (after, expired) = expire_stale_clean alone 24 1 100 store.jobs in
    count is_clean_backlog after + expired ≡ 2
expire_stale_clean-count_test = expire_stale_clean-count 24 1 100 store.jobs store-DistinctJobIds

-- A worker claims the oldest job between the SELECT and the UPDATE, which expires it all the same.
abbrev claims_meanwhile : ℕ → List Job → List Job
claims_meanwhile k jobs = if nat_eq k 2 then cas_jobs "worker" 100 1 jobs else jobs

claimed_expires :
    map {B = JobStatus × Option String}
      (λ r. (r.status, r.claim_token))
      (expire_stale_clean claims_meanwhile 24 1 100 store.jobs).0
    ≡ (JobStatus.expired, some "worker") ∷ (JobStatus.pending, none) ∷ []
unfolding expire_stale_clean excess_ids oldest_ids sort_by cas_jobs
claimed_expires = refl

-- The oldest of the two expires.
oldest_expires :
    map (λ r. r.status) (expire_stale_clean alone 24 1 100 store.jobs).0
    ≡ JobStatus.expired ∷ JobStatus.pending ∷ []
unfolding expire_stale_clean excess_ids oldest_ids sort_by
oldest_expires = refl

-- The newest clean job is claimed first.
claim_newest_first :
    (claim_next_job (λ k jobs. jobs) (λ ecos. ecos) "mine" 100 store.jobs).won ≡ some 2
unfolding claim_next_job extend_new
claim_newest_first = refl
