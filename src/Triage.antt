-- ===== src/Triage.antt =====
-- The adjudication of a scan by a language model (pkgward/llm/triage.py): the budget of paid calls, the
-- attempts of one triage, the check of the indicators that the model names, and the verdicts that it
-- cannot soften. The model is a function `ask` from the number of the attempt and its token limit to an
-- answer; `Process` has the times and the threads that share the budget. Money is in a unit that makes the estimated rates per token whole. `json.loads`, `str` and `float` are behind `Parsed`. The
-- source text that the model is shown is an argument; messages and the latency are left out.
pub mod Attempts
pub mod Trust
pub mod Spend
pub mod Shared
use text.Mathlib.Text.{starts_with}
use pkgsentry_oss.Prelude.{
  ℕ, zero, suc, ◌+◌, ◌*◌, ◌/◌, min, String, Bool, true, false, not, ◌&&◌, ◌||◌, Option, none, some,
  List, [], ◌∷◌, ◌++◌, any, contains, length, str_eq, nat_eq, ltb, leb, if◌then◌else◌,
}
use pkgsentry_oss.Adapter.{Finding}
use pkgsentry_oss.Detect.{Verdict, is_malicious, is_clean}
use pkgsentry_oss.Watchlist.{pop_old}

-- the words that the program uses for a verdict, those of the rules and those of the model
pub data Ruling : Type 0 where
  malicious suspicious clean benign inconclusive skipped error : Ruling

abbrev pub ruling_of : Verdict → Ruling
ruling_of Verdict.malicious = Ruling.malicious
ruling_of Verdict.suspicious = Ruling.suspicious
ruling_of Verdict.clean = Ruling.clean

-- `verdict in ("benign", "suspicious")`
abbrev pub is_clearing : Ruling → Bool
is_clearing Ruling.benign = true
is_clearing Ruling.suspicious = true
is_clearing _ = false

abbrev pub is_benign : Ruling → Bool
is_benign Ruling.benign = true
is_benign _ = false

abbrev pub rules_malicious : Ruling → Bool
rules_malicious Ruling.malicious = true
rules_malicious _ = false

-- A confidence as Python's `float` has it, rounded down to hundredths, of which the thresholds are whole
-- numbers; one below zero counts as zero. JSON may give `NaN` and `Infinity` as well.
pub data Score : Type 0 where
  nan infinity : Score
  hundredths : ℕ → Score

abbrev pub is_nan : Score → Bool
is_nan nan = true
is_nan _ = false

-- `confidence < bound`
abbrev pub is_below : ℕ → Score → Bool
is_below bound nan = false
is_below bound infinity = false
is_below bound (hundredths c) = ltb c bound

-- `confidence >= bound`
abbrev pub is_at_least : ℕ → Score → Bool
is_at_least bound nan = false
is_at_least bound infinity = true
is_at_least bound (hundredths c) = leb bound c

-- the settings of the environment
pub record Limits : Type 0 where
  pub api_key : Bool
  pub conf_floor : ℕ
  pub max_usd : ℕ
  pub max_calls_per_hour : ℕ
  pub est_prompt_usd : ℕ
  pub est_completion_usd : ℕ
  pub max_retries : ℕ
  pub max_response_tokens : ℕ
  pub max_response_tokens_ceiling : ℕ

-- what the process has spent, and when it made its calls
pub record Budget : Type 0 where
  pub spent_usd : ℕ
  pub call_times : List ℕ

unfoldable pub check_budget : Limits → ℕ → Budget → Bool × Budget
unfolding pop_old
check_budget l now b =
    let kept = pop_old now b.call_times in
    if leb l.max_usd b.spent_usd
    then (true, b)
    else (leb l.max_calls_per_hour (length kept), record b { call_times = kept })

unfoldable pub record_call : ℕ → ℕ → Budget → Budget
record_call cost now b = record {
  spent_usd = b.spent_usd + cost;
  call_times = b.call_times ++ now ∷ [];
}

unfoldable pub estimate_cost : Limits → ℕ → ℕ → ℕ
estimate_cost l prompt_tokens completion_tokens =
    prompt_tokens * l.est_prompt_usd + completion_tokens * l.est_completion_usd

-- an indicator as the model names it: no dictionary, or one whose two fields may be no texts
pub data Claimed : Type 0 where
  other : Claimed
  entry : Option String → Option String → Claimed

pub record Ioc : Type 0 where
  pub type : String
  pub value : String

-- `v in source`
abbrev pub occurs : String → String → Bool
occurs v String.[] = starts_with String.[] v
occurs v (String.◌∷◌ c s) = let rest = occurs v s in starts_with (String.◌∷◌ c s) v || rest

abbrev pub ioc_types : List String
ioc_types = "url" ∷ "ip" ∷ "domain" ∷ "hash" ∷ "email" ∷ "path" ∷ []

-- the body of the loop: the indicator that is kept, if it is
unfoldable pub validate_ioc : String → Claimed → Option Ioc
validate_ioc source (Claimed.entry (some t) (some v)) =
    if contains ioc_types t && occurs v source then some (record { type = t; value = v }) else none
validate_ioc source _ = none

-- the loop over a list
unfoldable pub validate_list : String → List Claimed → List Ioc
unfolding validate_ioc
validate_list source [] = []
validate_list source (c ∷ claimed) =
    let rest = validate_list source claimed in
    elim (validate_ioc source c) [ none ↦ rest | some i ↦ i ∷ rest ]

-- `none` stands for what is no list
unfoldable pub validate_iocs : String → Option (List Claimed) → List Ioc
unfolding validate_list
validate_iocs source none = []
validate_iocs source (some claimed) = validate_list source claimed

unfoldable pub is_exact_intel_match : Finding → Bool
is_exact_intel_match f = str_eq f.category "threat_intel" && occurs "(sha256 match" f.evidence

-- `f.rule_id == "iocs.llm_prompt_injection"`
abbrev pub is_injection : Finding → Bool
is_injection f = str_eq f.rule_id "iocs.llm_prompt_injection"

-- `chain_rules` is `BEHAVIORAL_CHAIN_RULES`, as the gate of the sandbox takes it
unfoldable pub enforce_no_downgrade : List String → Ruling → Verdict → List Finding → Score → Ruling
enforce_no_downgrade chain_rules llm rule findings confidence =
    let has_chain = any (λ (f : Finding). contains chain_rules f.rule_id) findings in
    if any is_injection findings && (is_benign llm && not (is_clean rule))
    then ruling_of rule
    else if is_malicious rule
    then if any is_exact_intel_match findings
      then Ruling.malicious
      else if has_chain && (is_clearing llm && is_at_least 80 confidence)
      then llm
      else if has_chain
      then Ruling.malicious
      else llm
    else llm
