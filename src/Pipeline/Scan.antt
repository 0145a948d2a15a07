-- ===== src/Pipeline/Scan.antt =====
-- The first transaction of the end of a scan, the whole of it, and the guards on a claimed row
-- (pkgward/pipeline.py, _persist_and_finalize, _load_claimed and _mark_queue_failed).
-- The rows of findings, file hashes and version metadata that the transaction also writes are left out.
use pkgsentry_oss.Prelude.{
  ℕ, String, Bool, true, false, not, ◌&&◌, ◌||◌, Option, none, some, List, [], ◌∷◌, contains,
  is_some, str_eq, if◌then◌else◌,
}
use pkgsentry_oss.Intel.{IntelPack}
use pkgsentry_oss.Detect.{Verdict, ScoreResult, is_clean, score_and_verdict, should_detonate}
use pkgsentry_oss.Queue.{Row, Status, Priority, is_claimed, mark_done, mark_failed, owns, get_row}
use pkgsentry_oss.Jobs.{Job, JobStatus, enqueue_job}
use pkgsentry_oss.Triage.{ruling_of}
use pkgsentry_oss.Triage.Attempts.{TriageResult}
use pkgsentry_oss.Pipeline.{Desk, Setup, ScanCase, watchlist_rank}
use pkgsentry_oss.Pipeline.Stages.{steps, run_steps}

-- `_PREFERRED_ARCHIVE.get(ecosystem, "sdist")`
unfoldable pub preferred_archive : String → String
preferred_archive ecosystem =
    if str_eq ecosystem "crates"
    then "crate"
    else if str_eq ecosystem "gomod"
    then "gomod_zip"
    else if str_eq ecosystem "npm"
    then "npm_tarball"
    else "sdist"

-- `_DETONATION_ECOSYSTEMS`
abbrev pub detonation_ecosystems : List String
detonation_ecosystems = "pypi" ∷ "crates" ∷ "gomod" ∷ "npm" ∷ []

unfoldable pub detonation_priority : Verdict → Option ℕ → Priority
detonation_priority verdict rank =
    if not (is_clean verdict) || is_some rank then Priority.high else Priority.low

-- the job that the first transaction enqueues
abbrev pub detonation_job : ScanCase → ScoreResult → Option ℕ → ℕ → ℕ → Job
detonation_job c result rank id now = record {
  id = id;
  scan_id = c.scan_id;
  version_id = c.version_id;
  ecosystem = c.ecosystem;
  name = c.name;
  version = c.version;
  archive_kind = preferred_archive c.ecosystem;
  priority = detonation_priority result.verdict rank;
  static_verdict = result.verdict;
  status = JobStatus.pending;
  attempts = 0;
  claim_token = none;
  last_error = none;
  enqueued_at = now;
  claimed_at = none;
  finished_at = none;
}

-- why the archives could not be fetched: `fetch_error_type == "no_files"`, and the text of the error
pub record FetchError : Type 0 where
  pub no_files : Bool
  pub text : List ℕ

abbrev pub save_scan : ScoreResult → Desk → Desk
save_scan result d = record d {
  scan = some (record {
    verdict = ruling_of result.verdict;
    score = result.score;
    alert_tag = result.alert_tag;
    triage = none;
  });
}

module _ (pack : IntelPack) (setup : Setup) (c : ScanCase) (now : ℕ) where
  abbrev pub rank_of : Desk → Option ℕ
  rank_of d = watchlist_rank c.name c.ecosystem d.watchlist.entries

  -- `result`
  abbrev pub result_of : Desk → ScoreResult
  result_of d = score_and_verdict pack c.findings (rank_of d)

  -- the branch of a failed fetch, for the row that was found
  unfoldable pub close_unfetched : FetchError → Row → Desk → Desk
  unfolding mark_done mark_failed
  close_unfetched e row d =
      let rows =
        if e.no_files
        then (mark_failed d.rows row e.text c.claim_token now).0
        else (mark_done d.rows row c.claim_token now).0 in
      record (save_scan (result_of d) d) { rows = rows }

  -- whether a detonation is enqueued
  unfoldable pub wants_detonation : Desk → Bool
  unfolding should_detonate
  wants_detonation d =
      let result = result_of d in
      contains detonation_ecosystems c.ecosystem
      && (setup.cluster_enabled
          && should_detonate setup.chain_rules result.verdict c.findings (rank_of d)
              c.is_first_version)

  -- `do_triage`
  abbrev pub do_triage : Desk → Bool
  do_triage d = not (is_clean (result_of d).verdict)

  -- The rest of the first transaction: the scan's row, the detonation job with the next id, and the end
  -- of a scan that needs no adjudication.
  unfoldable pub first_transaction : ℕ → Row → Desk → Desk
  unfolding wants_detonation mark_done enqueue_job
  first_transaction job_id row d =
      let result = result_of d in
      let job = detonation_job c result (rank_of d) job_id now in
      record (save_scan result d) {
        jobs = if wants_detonation d then (enqueue_job true job d.jobs).0 else d.jobs;
        rows = if do_triage d then d.rows else (mark_done d.rows row c.claim_token now).0;
      }

-- what follows the first transaction: `triaged` tells whether the scan is adjudicated
unfoldable pub after_commit :
    (String → String)
    → Setup
    → ScanCase
    → Bool
    → Verdict
    → Option TriageResult
    → Bool
    → ℕ
    → ℕ
    → Desk
    → Desk
unfolding steps
after_commit lower setup c triaged rule tri inserted now clock d =
    if triaged then run_steps (steps lower setup c rule tri d.scan inserted now clock) d else d

-- `_persist_and_finalize`. `answer` is the model's answer to the rules' verdict, `between` is what others
-- commit while it is awaited.
unfoldable pub persist_and_finalize :
    IntelPack
    → Setup
    → ScanCase
    → ℕ
    → (String → String)
    → Option FetchError
    → ℕ
    → (Verdict → Option TriageResult)
    → (Desk → Desk)
    → Bool
    → ℕ
    → Desk
    → Desk
unfolding close_unfetched first_transaction after_commit
persist_and_finalize pack setup c now lower fetch_error job_id answer between inserted clock d =
    elim (get_row c.queue_id d.rows) [
      | none ↦ d
      | some row ↦ elim fetch_error [
        | some e ↦ close_unfetched pack setup c now e row d
        | none ↦
            let triaged = do_triage pack setup c now d in
            let rule = (result_of pack setup c now d).verdict in
            let stored = first_transaction pack setup c now job_id row d in
            let resumed = if triaged then between stored else stored in
            after_commit lower setup c triaged rule (answer rule) inserted now clock resumed
      ]
    ]

-- `_load_claimed`
unfoldable pub load_claimed : Option String → Option Row → Option (String × String × String)
unfolding owns
load_claimed claim_token none = none
load_claimed claim_token (some row) =
    if not (is_claimed row.status)
    then none
    else if not (owns claim_token row)
    then none
    else some (row.ecosystem, row.name, row.version)

abbrev pub is_done : Status → Bool
is_done Status.done = true
is_done _ = false

-- `_mark_queue_failed`
unfoldable pub mark_queue_failed : ℕ → List ℕ → Option String → ℕ → List Row → List Row
unfolding mark_failed
mark_queue_failed queue_id error claim_token now rows = elim (get_row queue_id rows) [
  | none ↦ rows
  | some row ↦ if is_done row.status then rows else (mark_failed rows row error claim_token now).0
]
