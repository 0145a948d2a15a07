-- ===== src/Detect.antt =====
-- The scoring of a scan (pkgward/detect/score.py) and the gate of the sandbox
-- (pkgward/detonate/gate.py). `intel.current()` is the pack that each function takes first. Weights
-- and thresholds are naturals, as in every pack of the repository. Logging is left out.
pub mod Buckets
pub mod Order
pub mod Verdicts
pub mod Convictions
use text.Mathlib.Text.{starts_with}
use pkgsentry_oss.Prelude.{
  ℕ, ◌+◌, String, Bool, true, false, not, ◌&&◌, ◌||◌, Option, none, some, List, [], ◌∷◌, Dict,
  lookup, insert, get_or, contains, any, filter, str_eq, leb, min, is_some, if◌then◌else◌,
}
use pkgsentry_oss.Adapter.{Finding, Severity, severity_name, sev_eq}
use pkgsentry_oss.Intel.{IntelPack}

pub data Verdict : Type 0 where
  clean suspicious malicious : Verdict

pub record ScoreResult : Type 0 where
  pub score : ℕ
  pub verdict : Verdict
  pub alert_tag : Option String

unfoldable pub severity_points : IntelPack → Severity → ℕ
severity_points pack s = get_or 0 (lookup (severity_name s) pack.scoring_weights)

unfoldable pub category_cap : IntelPack → ℕ
category_cap pack = get_or 30 (lookup "category_cap" pack.thresholds)

unfoldable pub suspicious_min : IntelPack → ℕ
suspicious_min pack = get_or 20 (lookup "suspicious_min" pack.thresholds)

unfoldable pub malicious_min : IntelPack → ℕ
malicious_min pack = get_or 61 (lookup "malicious_min" pack.thresholds)

-- the bucket that a finding's points go to
unfoldable pub bucket : Finding → String
bucket f = if str_eq f.category "dynamic" then f.rule_id else f.category

-- `per_cat[key] = min(per_cat.get(key, 0) + pts, cap)`
unfoldable pub add_points : ℕ → String → ℕ → Dict ℕ → Dict ℕ
add_points cap key pts per_cat = insert key (min (get_or 0 (lookup key per_cat) + pts) cap) per_cat

-- the loop over the findings
unfoldable pub add_findings : IntelPack → List Finding → Dict ℕ → Dict ℕ
add_findings pack [] per_cat = per_cat
add_findings pack (f ∷ fs) per_cat =
    add_findings pack fs
      (add_points (category_cap pack) (bucket f) (severity_points pack f.severity) per_cat)

-- `sum(per_cat.values())`
unfoldable pub sum_values : Dict ℕ → ℕ
sum_values [] = 0
sum_values ((k, v) ∷ d) = v + sum_values d

unfoldable pub raw_score : IntelPack → List Finding → ℕ
raw_score pack fs = sum_values (add_findings pack fs [])

unfoldable pub has_any : List Finding → Severity → Bool
has_any fs severity = any (λ f. sev_eq f.severity severity) fs

unfoldable pub has_behavioral_chain : IntelPack → List Finding → Bool
has_behavioral_chain pack fs = any (λ f. contains pack.behavioral_chain_ids f.rule_id) fs

unfoldable pub is_shadow_finding : Finding → Bool
is_shadow_finding f = starts_with f.rule_id "opengrep.shadow_"

-- the verdict before the watchlist is consulted
unfoldable pub base_verdict : IntelPack → List Finding → Verdict
base_verdict pack scoring =
    let score = raw_score pack scoring in
    if has_behavioral_chain pack scoring
      || (has_any scoring Severity.critical || leb (malicious_min pack) score)
    then Verdict.malicious
    else if has_any scoring Severity.high || leb (suspicious_min pack) score
    then Verdict.suspicious
    else Verdict.clean

abbrev pub is_malicious : Verdict → Bool
is_malicious Verdict.malicious = true
is_malicious _ = false

abbrev pub is_clean : Verdict → Bool
is_clean Verdict.clean = true
is_clean _ = false

-- `any(f.severity in ("medium", "high", "critical") for f in scoring)`
unfoldable pub has_medium_up : List Finding → Bool
has_medium_up fs =
    any
      (λ f.
        sev_eq f.severity Severity.medium
        || (sev_eq f.severity Severity.high || sev_eq f.severity Severity.critical))
      fs

-- `any(f.severity in ("high", "critical") for f in scoring)`
unfoldable pub has_high_up : List Finding → Bool
has_high_up fs =
    any (λ f. sev_eq f.severity Severity.high || sev_eq f.severity Severity.critical) fs

-- the two rules for packages of the watchlist
unfoldable pub watchlist_verdict : List Finding → Option ℕ → Verdict → Verdict × Option String
watchlist_verdict scoring none v = (v, none)
watchlist_verdict scoring (some rank) v =
    let raised = if is_clean v && has_medium_up scoring then Verdict.suspicious else v in
    if leb rank 100 && has_high_up scoring
    then (Verdict.malicious, some "watchlist_top100")
    else (raised, none)

unfoldable pub scoring_findings : List Finding → List Finding
scoring_findings fs = filter (λ f. not (is_shadow_finding f)) fs

unfoldable pub score_and_verdict : IntelPack → List Finding → Option ℕ → ScoreResult
score_and_verdict pack fs rank =
    let scoring = scoring_findings fs in
    let (v, tag) = watchlist_verdict scoring rank (base_verdict pack scoring) in
    record { score = raw_score pack scoring; verdict = v; alert_tag = tag }

-- Whether the package is executed in the sandbox. `chain_rules` is `BEHAVIORAL_CHAIN_RULES`, the chain
-- ids of the pack that was current when the gate's module was imported.
unfoldable pub should_detonate : List String → Verdict → List Finding → Option ℕ → Bool → Bool
should_detonate chain_rules v fs rank is_new_package =
    let has_chain = any (λ f. contains chain_rules f.rule_id) fs in
    if is_new_package
    then true
    else if is_some rank
    then true
    else if is_malicious v && has_chain
    then false
    else not (is_clean v)
