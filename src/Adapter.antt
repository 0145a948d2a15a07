-- ===== src/Adapter.antt =====
-- Findings and their closed vocabularies (pkgward/adapter.py), and the verdicts of a scan.
use pkgsentry_oss.Prelude.{ℕ, String, Bool, true, false, Option}

-- `Severity = Literal["low", "medium", "high", "critical"]`
pub data Severity : Type 0 where
  low medium high critical : Severity

-- `Confidence = Literal["low", "medium", "high"]`
pub data Confidence : Type 0 where
  low medium high : Confidence

pub record Finding : Type 0 where
  pub rule_id : String
  pub category : String
  pub severity : Severity
  pub confidence : Confidence
  pub file : String
  pub line : Option ℕ
  pub evidence : String

-- the text that a severity is written as
unfoldable pub severity_name : Severity → String
severity_name Severity.low = "low"
severity_name Severity.medium = "medium"
severity_name Severity.high = "high"
severity_name Severity.critical = "critical"

-- `s == t` of two severities
abbrev pub sev_eq : Severity → Severity → Bool
sev_eq Severity.low Severity.low = true
sev_eq Severity.medium Severity.medium = true
sev_eq Severity.high Severity.high = true
sev_eq Severity.critical Severity.critical = true
sev_eq _ _ = false
