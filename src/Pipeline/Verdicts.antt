-- ===== src/Pipeline/Verdicts.antt =====
-- The final verdict, the alert and the promotion of a scan, and what they rest on.
use pkgsentry_oss.Prelude.{
  ℕ, ◌≡◌, refl, Bool, true, false, not, ◌&&◌, ◌||◌, ◌⊎◌, none, some, Option, arith, inl, inr,
}
use pkgsentry_oss.Detect.{Verdict, is_malicious}
use pkgsentry_oss.Triage.{Score, is_nan, is_below, is_at_least, rules_malicious}
use pkgsentry_oss.Triage.Attempts.{TriageResult}
use pkgsentry_oss.Pipeline.{ScanRow, should_alert, final_verdict, override}

-- `tri.confidence` is a number
abbrev pub is_number : Option TriageResult → Bool
is_number none = true
is_number (some tri) = not (is_nan tri.confidence)

Score-cases :
    (s : Score)
    → (s ≡ Score.nan)
      ⊎ ((is_nan s ≡ false) × ((bound : ℕ) → is_below bound s ≡ not (is_at_least bound s)))
Score-cases Score.nan = inl refl
Score-cases Score.infinity = inr (refl, λ bound. refl)
Score-cases (Score.hundredths c) = inr (refl, λ bound. ground arith)

-- `tri.confidence < MALICIOUS_CONF_FLOOR`
abbrev pub is_under_floor : ℕ → Option TriageResult → Bool
is_under_floor conf_floor none = false
is_under_floor conf_floor (some tri) = is_below conf_floor tri.confidence

-- While the row of the scan exists, an alert is due exactly when the final verdict is malicious, with one
-- exception: a package that the model alone calls malicious with `NaN` as its confidence gets the verdict
-- and no alert.
pub should_alert-final :
    (conf_floor : ℕ) (rule : Verdict) (tri : Option TriageResult) (scan : ScanRow)
    → should_alert conf_floor rule tri ≡ (
        rules_malicious (final_verdict conf_floor rule tri (some scan))
        && (is_malicious rule || is_number tri))
unfolding should_alert final_verdict override
should_alert-final conf_floor rule none scan = ground arith
should_alert-final conf_floor rule (some tri) scan = elim (Score-cases tri.confidence) [
  | inl e ↦ rw (e, should_alert, final_verdict, override) (ground arith)
  | inr (number, k) ↦ ground (arith, number, k conf_floor)
]
