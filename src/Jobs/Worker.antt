-- ===== src/Jobs/Worker.antt =====
-- The detonation worker's transactions (pkgward/detonation_worker.py) on the jobs, the scans, their
-- findings and their detonations. `self_download` tells which dynamic findings are a download that the
-- static findings of the scan have verified; `rank` is the package's rank on the watchlist. The trace
-- events of a detonation, the timings of its phases and the counters of rule hits are left out.
use pkgsentry_oss.Prelude.{
  ℕ, ◌+◌, String, Bool, true, false, not, ◌&&◌, Option, none, some, List, [], ◌∷◌, ◌++◌, map,
  filter, find?, take, leb, nat_eq, opt_str_eq, if◌then◌else◌,
}
use pkgsentry_oss.Adapter.{Finding}
use pkgsentry_oss.Intel.{IntelPack}
use pkgsentry_oss.Detect.{Verdict, score_and_verdict, is_shadow_finding}
use pkgsentry_oss.Jobs.{
  Job, get_job, update_job, is_running, job_done, job_failed, job_back, max_job_attempts,
}

-- what `_claim_job` hands to the worker
pub record Ticket : Type 0 where
  pub id : ℕ
  pub token : String
  pub scan_id : ℕ
  pub static_verdict : Verdict

pub record Scan : Type 0 where
  pub id : ℕ
  pub verdict : Verdict
  pub score : ℕ
  pub alert_tag : Option String

pub record Detonation : Type 0 where
  pub scan_id : ℕ
  pub sandbox_id : String
  pub status : String

-- what the sandbox service answers
pub record DetResult : Type 0 where
  pub detonation_id : String
  pub status : String
  pub findings : List Finding

pub record Store : Type 0 where
  pub jobs : List Job
  pub scans : List Scan
  pub findings : List (ℕ × Finding)
  pub detonations : List Detonation

pub record Alert : Type 0 where
  pub static_verdict : Verdict
  pub new_verdict : Verdict
  pub new_score : ℕ
  pub findings : List Finding

abbrev pub is_malicious : Verdict → Bool
is_malicious Verdict.malicious = true
is_malicious _ = false

unfoldable pub owns_job : Option String → Job → Bool
owns_job none r = true
owns_job (some token) r = opt_str_eq r.claim_token token

unfoldable pub mark_job_done : List Job → Job → Option String → ℕ → List Job × Bool
unfolding owns_job job_done
mark_job_done jobs r token now =
    if owns_job token r then (update_job r.id (job_done now) jobs, true) else (jobs, false)

unfoldable pub mark_job_failed : List Job → Job → List ℕ → Option String → ℕ → List Job × Bool
unfolding owns_job job_failed
mark_job_failed jobs r error token now =
    if owns_job token r then (update_job r.id (job_failed now error) jobs, true) else (jobs, false)

-- `_mark_failed`
unfoldable pub give_up : ℕ → Ticket → List ℕ → List Job → List Job
unfolding mark_job_failed
give_up now job reason jobs = elim (get_job job.id jobs) [
  | none ↦ jobs
  | some q ↦ (mark_job_failed jobs q (take 4000 reason) (some job.token) now).0
]

-- the job is still this worker's
unfoldable pub holds : Ticket → Job → Bool
holds job q = is_running q.status && opt_str_eq q.claim_token job.token

-- a failure counts against the attempts, and the last one allowed is final
unfoldable pub count_failure : ℕ → List ℕ → Job → Job
unfolding job_failed job_back
count_failure now reason q =
    let counted : Job = record q { attempts = q.attempts + 1 } in
    if leb max_job_attempts counted.attempts
    then job_failed now (take 4000 reason) counted
    else job_back counted

unfoldable pub requeue_or_fail : ℕ → Ticket → List ℕ → List Job → List Job
unfolding holds count_failure
requeue_or_fail now job reason jobs = elim (get_job job.id jobs) [
  | none ↦ jobs
  | some q ↦ if holds job q then update_job q.id (count_failure now reason) jobs else jobs
]

-- the findings of a scan
abbrev pub findings_of : ℕ → List (ℕ × Finding) → List Finding
findings_of i fs = map (λ f. f.1) (filter (λ f. nat_eq f.0 i) fs)

module _ (pack : IntelPack) (self_download : List Finding → Finding → Bool) (rank : Option ℕ) where
  -- the dynamic findings that are persisted
  unfoldable pub dynamic_findings : Store → Scan → DetResult → List Finding
  dynamic_findings st scan det =
      filter (λ f. not (self_download (findings_of scan.id st.findings) f)) det.findings

  -- all that the new verdict rests on
  unfoldable pub all_findings : Store → Scan → DetResult → List Finding
  unfolding dynamic_findings
  all_findings st scan det = findings_of scan.id st.findings ++ dynamic_findings st scan det

  unfoldable pub rescore : Store → DetResult → Scan → Scan
  unfolding all_findings
  rescore st det scan =
      let res = score_and_verdict pack (all_findings st scan det) rank in
      record scan { verdict = res.verdict; score = res.score; alert_tag = res.alert_tag }

  -- an alert when the verdict flips to malicious
  unfoldable pub flip_alert : Ticket → Store → DetResult → Scan → Option Alert
  unfolding rescore
  flip_alert job st det scan =
      let new = rescore st det scan in
      if is_malicious new.verdict && not (is_malicious job.static_verdict)
      then some record {
        static_verdict = job.static_verdict;
        new_verdict = new.verdict;
        new_score = new.score;
        findings = filter (λ f. not (is_shadow_finding f)) (all_findings st scan det);
      }
      else none

  -- the writes for a scan that is there, all but the job's
  unfoldable pub record_detonation : Ticket → DetResult → Scan → Store → Store × Option Alert
  unfolding flip_alert dynamic_findings
  record_detonation job det scan st =
      let detonated : Store = record st {
        detonations =
            st.detonations
            ++ record { scan_id = scan.id; sandbox_id = det.detonation_id; status = det.status }
              ∷ [];
      } in
      elim det.findings [
        | [] ↦ (detonated, none)
        | f ∷ fs ↦ (
          record detonated {
            scans = map (λ s. if nat_eq s.id scan.id then rescore st det s else s) st.scans;
            findings = st.findings ++ map (λ d. (scan.id, d)) (dynamic_findings st scan det);
          },
          flip_alert job st det scan,
        )
      ]

  -- `_finalize_detonation`
  unfoldable pub finalize : ℕ → Ticket → DetResult → Store → Store × Option Alert
  unfolding record_detonation mark_job_done holds
  finalize now job det st = elim (get_job job.id st.jobs) [
    | none ↦ (st, none)
    | some q ↦
        let closed = (mark_job_done st.jobs q (some job.token) now).0 in
        if holds job q
        then elim (find? (λ s. nat_eq s.id job.scan_id) st.scans) [
          | none ↦ (record st { jobs = closed }, none)
          | some scan ↦
              let written = record_detonation job det scan st in
              (record (written.0) { jobs = closed }, written.1)
        ]
        else (st, none)
  ]
