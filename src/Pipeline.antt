-- ===== src/Pipeline.antt =====
-- The end of a scan (pkgward/pipeline.py): its first transaction, the adjudication with the language
-- model's answer, the alert and the last write to the queue. `Desk` is what these read and write: the
-- rows of the scan queue, the detonation jobs, the watchlist, the row of the scan, and a record of the
-- calls to the parts that are not modelled. Discord, the vault, seeding and the maintainer sweep catch
-- their own exceptions, so each is one event. The findings are those of all analyzers.
pub mod Scan
pub mod Ends
pub mod Stages
pub mod Verdicts
pub mod Finish
pub mod Siblings
use pkgsentry_oss.Prelude.{
  ℕ, String, Bool, true, false, not, ◌&&◌, ◌||◌, Option, none, some, List, [], ◌∷◌, ◌++◌, map,
  filter, any, find?, foldl, get_or, contains, extend_new, length, is_some, str_eq, ltb, leb,
  if◌then◌else◌,
}
use pkgsentry_oss.Adapter.{Finding, Severity, sev_eq}
use pkgsentry_oss.Intel.{IntelPack}
use pkgsentry_oss.Detect.{
  Verdict, ScoreResult, is_malicious, is_clean, is_shadow_finding, score_and_verdict,
  should_detonate,
}
use pkgsentry_oss.Queue.{Row, Status, Priority, is_claimed, mark_done, mark_failed, owns, get_row}
use pkgsentry_oss.Jobs.{Job, JobStatus, enqueue_job}
use pkgsentry_oss.Watchlist.{Entry, Settings, Watchlist, add_confirmed_malicious}
use pkgsentry_oss.Scope.{WatchlistScope}
use pkgsentry_oss.Triage.{
  Ruling, ruling_of, is_clearing, rules_malicious, is_below, is_at_least, Limits, Budget,
}
use pkgsentry_oss.Triage.Attempts.{Process, Answer, TriageResult, triage}

abbrev pub is_inconclusive : Ruling → Bool
is_inconclusive Ruling.inconclusive = true
is_inconclusive _ = false

-- the row of table Scan
pub record ScanRow : Type 0 where
  pub verdict : Ruling
  pub score : ℕ
  pub alert_tag : Option String
  pub triage : Option TriageResult

-- a call to a part that is not modelled, or a message
pub data Event : Type 0 where
  seed_intel archive_to_vault send_alert send_review_alert sweep_on_malicious : Event

abbrev pub is_alert : Event → Bool
is_alert Event.send_alert = true
is_alert _ = false

pub record Desk : Type 0 where
  pub rows : List Row
  pub jobs : List Job
  pub watchlist : Watchlist
  pub scopes : List WatchlistScope
  pub scan : Option ScanRow
  pub events : List Event

abbrev pub log : Event → Desk → Desk
log e d = record d { events = d.events ++ e ∷ [] }

-- `_NON_PRIMARY_PROMOTE_CATEGORIES`
abbrev pub non_primary_promote_categories : List String
non_primary_promote_categories = "iocs" ∷ "dep_intel" ∷ "metadata" ∷ "version_diff" ∷ []

-- `not _is_shadow_finding(f) and f.severity in ("high", "critical")`
abbrev pub is_strong : Finding → Bool
is_strong f =
    not (is_shadow_finding f)
    && (sev_eq f.severity Severity.high || sev_eq f.severity Severity.critical)

-- `{f.category for f in strong}`
unfoldable pub strong_categories : List Finding → List String
strong_categories findings =
    extend_new [] (map (λ (f : Finding). f.category) (filter is_strong findings))

pub data Reason : Type 0 where
  llm_not_malicious thin_evidence_single_soft_category llm_confidence_below_floor ok : Reason
  weak_corroboration : Reason

unfoldable pub auto_watchlist_qualifies :
    ℕ → Verdict → Option TriageResult → List Finding → Bool × Reason
unfolding strong_categories
auto_watchlist_qualifies conf_floor rule none findings = (false, Reason.llm_not_malicious)
auto_watchlist_qualifies conf_floor rule (some tri) findings =
    let cats = strong_categories findings in
    let has_primary = any (λ c. not (contains non_primary_promote_categories c)) cats in
    if not (rules_malicious tri.verdict)
    then (false, Reason.llm_not_malicious)
    else if not has_primary && ltb (length cats) 2
    then (false, Reason.thin_evidence_single_soft_category)
    else if is_below conf_floor tri.confidence
    then (false, Reason.llm_confidence_below_floor)
    else if is_malicious rule || is_at_least 80 tri.confidence
    then (true, Reason.ok)
    else (false, Reason.weak_corroboration)

-- the verdict that the answer puts in the place of the rules' one, if it does
unfoldable pub override : ℕ → Verdict → Option TriageResult → Option Ruling
override conf_floor rule none = none
override conf_floor rule (some tri) =
    if rules_malicious tri.verdict
      && (is_below conf_floor tri.confidence && not (is_malicious rule))
    then none
    else if rules_malicious tri.verdict || is_clearing tri.verdict
    then some tri.verdict
    else if is_inconclusive tri.verdict && not (is_malicious rule)
    then some Ruling.inconclusive
    else none

-- `final_verdict`: nothing is overridden when the scan's row is gone
unfoldable pub final_verdict : ℕ → Verdict → Option TriageResult → Option ScanRow → Ruling
unfolding override
final_verdict conf_floor rule tri none = ruling_of rule
final_verdict conf_floor rule tri (some scan) =
    get_or (ruling_of rule) (override conf_floor rule tri)

abbrev pub says : (Ruling → Bool) → Option TriageResult → Bool
says p none = false
says p (some tri) = p tri.verdict

-- the tag of a scan whose adjudication is open, given its verdict by now
unfoldable pub adjudication_tag : Ruling → Option TriageResult → Option String
adjudication_tag final tri =
    if is_inconclusive final
    then some "needs_review"
    else if says is_clearing tri || says rules_malicious tri
    then none
    else some "llm_unverified"

-- what is written to the row of the scan, where it still exists
unfoldable pub adjudicate_scan : ℕ → Verdict → Option TriageResult → ScanRow → ScanRow
unfolding override final_verdict adjudication_tag
adjudicate_scan conf_floor rule tri scan =
    let v = get_or scan.verdict (override conf_floor rule tri) in
    let final = final_verdict conf_floor rule tri (some scan) in
    let tag = if is_some scan.alert_tag then scan.alert_tag else adjudication_tag final tri in
    record {
      verdict = v;
      score = scan.score;
      alert_tag = tag;
      triage = if is_some tri then tri else scan.triage;
    }

-- `vault_keep`
unfoldable pub vault_keep : Bool → Verdict → Option TriageResult → Bool
vault_keep llm_enabled rule tri =
    says rules_malicious tri || (is_malicious rule && (not (is_some tri) && llm_enabled))

-- `tri.confidence >= MALICIOUS_CONF_FLOOR`
abbrev pub is_confident : ℕ → Option TriageResult → Bool
is_confident conf_floor none = false
is_confident conf_floor (some tri) = is_at_least conf_floor tri.confidence

unfoldable pub should_alert : ℕ → Verdict → Option TriageResult → Bool
should_alert conf_floor rule tri =
    (is_malicious rule && not (says is_clearing tri))
    || (says rules_malicious tri && is_confident conf_floor tri)

-- the settings and the switches that are read while a scan is finalized
pub record Setup : Type 0 where
  pub limits : Limits
  pub vault_enabled : Bool
  pub discord_enabled : Bool
  pub cluster_enabled : Bool
  pub watchlist_auto : Settings
  pub scope_watchlist : Bool
  pub chain_rules : List String

-- what is known of the scan when its first transaction begins
pub record ScanCase : Type 0 where
  pub queue_id : ℕ
  pub claim_token : Option String
  pub scan_id : ℕ
  pub version_id : ℕ
  pub ecosystem : String
  pub name : String
  pub version : String
  pub findings : List Finding
  pub is_first_version : Bool
  pub has_archives : Bool

-- `tri`: the answer of the model, or nothing where it is switched off, the package has no source, or the
-- triage ends in an exception
unfoldable pub consult :
    Setup → ScanCase → Process → (ℕ → ℕ → Answer) → String → Budget → Verdict → Option TriageResult
unfolding triage
consult setup c w ask source budget rule =
    if setup.limits.api_key && c.has_archives
    then (triage setup.limits w ask setup.chain_rules rule c.findings source budget).1
    else none

-- `_is_watchlist`
unfoldable pub watchlist_rank : String → String → List Entry → Option ℕ
watchlist_rank name ecosystem entries =
    elim (find? (λ (e : Entry). str_eq e.ecosystem ecosystem && str_eq e.name name) entries) [
      | none ↦ none
      | some e ↦ some e.rank
    ]
