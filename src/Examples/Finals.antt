-- ===== src/Examples/Finals.antt =====
-- Scans that are finalized: a package with a behavioural chain, and models that clear or convict it.
use pkgsentry_oss.Prelude.{
  ℕ, ◌+◌, ◌&&◌, ◌||◌, ◌≤◌, ◌≡◌, refl, ◌⊎◌, String, Bool, true, false, none, some, Option, [], ◌∷◌,
  arith, extend_new, take, All, zero, suc, length,
}
use pkgsentry_oss.Detect.{
  Verdict, score_and_verdict, is_shadow_finding, base_verdict, has_behavioral_chain,
  watchlist_verdict, scoring_findings,
}
use pkgsentry_oss.Queue.{Row, Status, Priority, owns}
use pkgsentry_oss.Triage.{
  Ruling, hundredths, nan, rules_malicious, Limits, Budget, Claimed, check_budget,
  enforce_no_downgrade, validate_iocs, validate_list, validate_ioc, estimate_cost, record_call,
  is_exact_intel_match,
}
use pkgsentry_oss.Triage.Attempts.{
  Process, Reply, Answer, Parsed, TriageResult, triage, attempts, attempt, conclude, judge_reply,
  read_verdict, escalate, wants_more, attempt_cost,
}
use pkgsentry_oss.Triage.Trust.{IsGrounded, triage-IsGrounded}
use pkgsentry_oss.Triage.Spend.{IsWithin, triage-spend, Affordable}
use pkgsentry_oss.Triage.Shared.{Shared}
use pkgsentry_oss.Pipeline.{
  ScanRow, Setup, ScanCase, Desk, should_alert, final_verdict, auto_watchlist_qualifies,
  strong_categories, watchlist_rank,
}
use pkgsentry_oss.Pipeline.Stages.{steps, run_steps}
use pkgsentry_oss.Pipeline.Scan.{persist_and_finalize}
use pkgsentry_oss.Pipeline.Verdicts.{should_alert-final, is_number}
use pkgsentry_oss.Pipeline.Finish.{alerted, alert-before-finish}
use pkgsentry_oss.Pipeline.Ends.{
  EndsWith, end_status, persist_and_finalize-alerted, persist_and_finalize-EndsWith,
}
use pkgsentry_oss.Prelude.Texts.{codes, lower_code}
use pkgsentry_oss.Scope.{scope_of, is_scope_watchlisted}
use pkgsentry_oss.Pipeline.Stages.{adjudicate}
use pkgsentry_oss.Pipeline.Siblings.{promoted-siblings}
use pkgsentry_oss.Examples.Packs.{baseline}
use pkgsentry_oss.Examples.Scans.{exfil}
use pkgsentry_oss.Examples.Queues.{row}
use pkgsentry_oss.Examples.Watched.{listed, settings, same_case}

abbrev limits : Limits
limits = record {
  api_key = true;
  conf_floor = 70;
  max_usd = 1000;
  max_calls_per_hour = 10;
  est_prompt_usd = 5;
  est_completion_usd = 15;
  max_retries = 2;
  max_response_tokens = 5000;
  max_response_tokens_ceiling = 8000;
}

abbrev setup : Setup
setup = record {
  limits = limits;
  vault_enabled = true;
  discord_enabled = true;
  cluster_enabled = true;
  watchlist_auto = settings;
  scope_watchlist = true;
  chain_rules = baseline.behavioral_chain_ids;
}

abbrev case : ScanCase
case = record {
  queue_id = 1;
  claim_token = some "mine";
  scan_id = 7;
  version_id = 4;
  ecosystem = "npm";
  name = "left-pad";
  version = "1.0.0";
  findings = exfil ∷ [];
  is_first_version = false;
  has_archives = true;
}

abbrev budget : Budget
budget = record { spent_usd = 3; call_times = [] }

abbrev process : Process
process = record {
  started_at = 0;
  checked_at = λ n. n;
  recorded_at = λ n. n;
  before_check = λ n b. record b { spent_usd = b.spent_usd + 2 };
  during_call = λ n b. b;
}

abbrev reply : String → ℕ → Bool → Reply
reply verdict confidence cut_off = record {
  parsed = Parsed.object (record {
    verdict = verdict;
    confidence = some (hundredths confidence);
    iocs =
        some
          (Claimed.entry (some "url") (some "evil") ∷ Claimed.entry (some "ip") (some "1.1") ∷ []);
  });
  cut_off = cut_off;
  prompt_tokens = 10;
  completion_tokens = 2;
  cost = 0;
}

-- a first reply that is cut short, and a second one that clears with a high confidence
abbrev clears : ℕ → ℕ → Answer
clears zero tokens = Answer.replied (reply "benign" 95 true)
clears (suc n) tokens = Answer.replied (reply "benign" 95 false)

abbrev source : String
source = "get evil now"

abbrev cleared : TriageResult
cleared = record {
  verdict = Ruling.benign;
  confidence = hundredths 95;
  iocs = record { type = "url"; value = "evil" } ∷ [];
  prompt_tokens = 20;
  completion_tokens = 4;
  cost_usd = 160;
}

clears-cleared :
    (triage limits process clears setup.chain_rules Verdict.malicious case.findings source budget).1
    ≡ some cleared
unfolding triage check_budget attempts attempt conclude enforce_no_downgrade validate_iocs
    validate_list validate_ioc judge_reply read_verdict escalate wants_more attempt_cost
    estimate_cost record_call is_exact_intel_match extend_new
clears-cleared = refl

triage-IsGrounded_example : All (IsGrounded source) cleared.iocs
triage-IsGrounded_example =
    triage-IsGrounded limits process clears setup.chain_rules Verdict.malicious case.findings source
      budget cleared clears-cleared

clears-Affordable : Affordable limits process clears 80
unfolding attempt_cost estimate_cost
clears-Affordable zero tokens r h = ground (arith, h)
clears-Affordable (suc n) tokens r h = ground (arith, h)

triage-spend_test :
    let r =
      (triage limits process clears setup.chain_rules Verdict.malicious case.findings source
        budget).0 in
    (length r.calls ≤ 3) × IsWithin limits process clears 80 r
triage-spend_test =
    triage-spend limits process clears 80 clears-Affordable setup.chain_rules Verdict.malicious
      case.findings source budget

-- two workers begin a call at the same time, and one of them has recorded it
abbrev flown : Shared
flown = record { budget = record { spent_usd = 70; call_times = 5 ∷ [] }; in_flight = 1 }

abbrev scan : ScanRow
scan = record { verdict = Ruling.suspicious; score = 25; alert_tag = none; triage = none }

abbrev convicted : TriageResult
convicted = record cleared { verdict = Ruling.malicious }

should_alert-final_example : should_alert 70 Verdict.suspicious (some convicted) ≡ (
    rules_malicious (final_verdict 70 Verdict.suspicious (some convicted) (some scan))
    && (false || is_number (some convicted)))
should_alert-final_example = should_alert-final 70 Verdict.suspicious (some convicted) scan

-- with `NaN` for a confidence the verdict is malicious, and no alert is due
abbrev unnumbered : TriageResult
unnumbered = record convicted { confidence = nan }

unnumbered_verdict :
    (should_alert 70 Verdict.suspicious (some unnumbered) ≡ false)
    × (final_verdict 70 Verdict.suspicious (some unnumbered) (some scan) ≡ Ruling.malicious)
unfolding should_alert final_verdict
unnumbered_verdict = (refl, refl)

abbrev mine : Row
mine = record (row 1 "npm" Priority.normal 50) {
  status = Status.claimed;
  claim_token = some "mine";
  claimed_at = some 60;
}

abbrev desk : Desk
desk = record {
  rows = mine ∷ [];
  jobs = [];
  watchlist = listed;
  scopes = [];
  scan = none;
  events = [];
}

alert-before-finish_example :
    let fs =
      steps same_case setup case Verdict.malicious (some convicted) (some scan) true 100 90 in
    ((run_steps (take 3 fs) desk).rows ≡ desk.rows) ⊎ (alerted (run_steps (take 3 fs) desk) ≡ true)
unfolding should_alert
alert-before-finish_example =
    alert-before-finish same_case setup case Verdict.malicious (some convicted) (some scan) true 100
      90 desk refl refl 3

abbrev unmoved : Desk → Desk
unmoved d = d

abbrev convicts : Verdict → Option TriageResult
convicts v = some convicted

persist_and_finalize-alerted_example :
    alerted
      (persist_and_finalize baseline setup case 100 same_case none 1 convicts unmoved true 90 desk)
    ≡ true
unfolding watchlist_rank score_and_verdict base_verdict scoring_findings is_shadow_finding
    has_behavioral_chain watchlist_verdict extend_new should_alert
persist_and_finalize-alerted_example =
    persist_and_finalize-alerted baseline setup case 100 same_case 1 90 convicts true unmoved desk
      mine refl refl refl refl

persist_and_finalize-EndsWith_example :
    EndsWith 1
      (end_status none)
      (persist_and_finalize baseline setup case 100 same_case none 1 convicts unmoved true 90
        desk).rows
unfolding owns
persist_and_finalize-EndsWith_example =
    persist_and_finalize-EndsWith baseline setup case 100 same_case 1 90 convicts true unmoved desk
      mine refl none refl (λ e. refl)

abbrev scoped : ScanCase
scoped = record case { name = "@org/evil" }

promoted-siblings_example :
    is_scope_watchlisted true "npm"
      (codes "@Org/kit")
      (adjudicate same_case setup scoped Verdict.malicious (some convicted) true 100 90 desk).scopes
    ≡ true
unfolding auto_watchlist_qualifies strong_categories extend_new is_shadow_finding scope_of
    lower_code
promoted-siblings_example =
    promoted-siblings same_case setup scoped Verdict.malicious (some convicted) true 100 90 desk
      (codes "@Org/kit") (codes "@org") refl refl refl refl refl refl refl
