-- ===== src/Examples/Scans.antt =====
-- Scans of small packages under the baseline pack.
use mathlib.Core.List.Perm
use pkgsentry_oss.Prelude.{
  extend_new, ℕ, ◌*◌, ◌≤◌, ◌≡◌, refl, ◌&&◌, not, true, false, ◌⊎◌, [], ◌∷◌, none, some, min, leb,
  if◌then◌else◌, String, length, arith, Option,
}
use pkgsentry_oss.Adapter.{severity_name, Finding, Severity, Confidence}
use pkgsentry_oss.Detect.{
  Verdict, raw_score, category_cap, score_and_verdict, scoring_findings, is_shadow_finding,
  malicious_min, watchlist_verdict, base_verdict, severity_points, add_findings, add_points,
  sum_values, bucket, has_high_up, has_medium_up, has_any, has_behavioral_chain, should_detonate,
  is_clean,
}
use pkgsentry_oss.Detect.Buckets.{sum_over, points, buckets, raw_score-eq-sum_over, raw_score-le}
use pkgsentry_oss.Detect.Verdicts.{level, score_and_verdict-perm, more_findings, shadow_findings}
use pkgsentry_oss.Detect.Convictions.{
  malicious_needs, watchlist_raises, chain_not_detonated, detonated_unless_clean,
}
use pkgsentry_oss.Examples.Packs.{baseline}

abbrev pub finding : String → String → Severity → Finding
finding rule category severity = record {
  rule_id = rule;
  category = category;
  severity = severity;
  confidence = Confidence.high;
  file = "setup.py";
  line = none;
  evidence = "";
}

abbrev secret : Finding
secret = finding "iocs.secret" "iocs" Severity.high

abbrev url : Finding
url = finding "iocs.url" "iocs" Severity.high

abbrev pub exfil : Finding
exfil = finding "dyn_install_exfil" "dynamic" Severity.high

abbrev shadow : Finding
shadow = finding "opengrep.shadow_exec" "opengrep" Severity.critical

-- Two high findings of one category stop at the cap.
capped : raw_score baseline (secret ∷ url ∷ []) ≡ 30
unfolding raw_score add_findings add_points sum_values severity_points category_cap bucket
    severity_name
capped = refl

raw_score-eq-sum_over_example :
    raw_score baseline (secret ∷ url ∷ [])
    ≡ sum_over
        (λ k. min (points baseline k (secret ∷ url ∷ [])) (category_cap baseline))
        (buckets (secret ∷ url ∷ []))
raw_score-eq-sum_over_example = raw_score-eq-sum_over baseline (secret ∷ url ∷ [])

score_and_verdict-perm_example :
    score_and_verdict baseline (secret ∷ exfil ∷ []) (some 7)
    ≡ score_and_verdict baseline (exfil ∷ secret ∷ []) (some 7)
score_and_verdict-perm_example =
    score_and_verdict-perm baseline (secret ∷ exfil ∷ []) (exfil ∷ secret ∷ []) (some 7)
      (Perm.swap exfil secret [])

more_findings_example :
    ((score_and_verdict baseline (secret ∷ []) none).score
      ≤ (score_and_verdict baseline (exfil ∷ secret ∷ []) none).score)
    × (level (score_and_verdict baseline (secret ∷ []) none).verdict
        ≤ level (score_and_verdict baseline (exfil ∷ secret ∷ []) none).verdict)
more_findings_example =
    more_findings baseline (secret ∷ []) (exfil ∷ []) (exfil ∷ secret ∷ []) none
      (Perm.swap exfil secret [])

shadow_findings_example :
    score_and_verdict baseline (shadow ∷ secret ∷ []) none
    ≡ score_and_verdict baseline (secret ∷ []) none
unfolding is_shadow_finding
shadow_findings_example =
    shadow_findings baseline (secret ∷ []) (shadow ∷ []) (shadow ∷ secret ∷ []) none refl
      (Perm.swap shadow secret [])

malicious_needs_example :
    (has_behavioral_chain baseline (scoring_findings (secret ∷ [])) ≡ true)
    ⊎ (has_any (scoring_findings (secret ∷ [])) Severity.critical ≡ true)
    ⊎ ((has_high_up (scoring_findings (secret ∷ [])) ≡ true)
        × (r : ℕ) × (◌≡◌ {A = Option ℕ} (some 7) (some r))
        × (r ≤ 100))
unfolding category_cap malicious_min scoring_findings is_shadow_finding bucket score_and_verdict
    watchlist_verdict has_high_up base_verdict extend_new
malicious_needs_example = malicious_needs baseline (secret ∷ []) (some 7) (omega arith) refl

watchlist_raises_test :
    let fs = secret ∷ [] in
    let off = score_and_verdict baseline fs none in
    let on = score_and_verdict baseline fs (some 7) in
    let top = leb 7 100 && has_high_up (scoring_findings fs) in
    (on.score ≡ off.score)
    × (level off.verdict ≤ level on.verdict)
    × (on.alert_tag ≡ (if top then some "watchlist_top100" else none))
    × ((if top then 2 else 0) ≤ level on.verdict)
    × ((if has_medium_up (scoring_findings fs) then 1 else 0) ≤ level on.verdict)
watchlist_raises_test = watchlist_raises baseline (secret ∷ []) 7

chain_not_detonated_test :
    let ids = baseline.behavioral_chain_ids in
    let fs = exfil ∷ [] in
    let v = (score_and_verdict baseline fs none).verdict in
    (v ≡ Verdict.malicious)
    × (should_detonate ids v fs none false ≡ false)
    × (should_detonate ids v fs (some 7) false ≡ true)
    × (should_detonate ids v fs none true ≡ true)
unfolding has_behavioral_chain scoring_findings is_shadow_finding
chain_not_detonated_test = chain_not_detonated baseline (exfil ∷ []) 7 refl

detonated_unless_clean_test :
    should_detonate baseline.behavioral_chain_ids
      (score_and_verdict baseline (secret ∷ []) none).verdict
      (secret ∷ [])
      none
      false
    ≡ not (is_clean (score_and_verdict baseline (secret ∷ []) none).verdict)
unfolding has_behavioral_chain
detonated_unless_clean_test = detonated_unless_clean baseline (secret ∷ []) refl

raw_score-le_test :
    raw_score baseline (secret ∷ url ∷ [])
    ≤ category_cap baseline * length (buckets (secret ∷ url ∷ []))
raw_score-le_test = raw_score-le baseline (secret ∷ url ∷ [])
