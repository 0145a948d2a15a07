-- ===== src/Triage/Attempts.antt =====
-- The attempts of one triage (pkgward/llm/triage.py, triage): the calls of the model, what is made of each
-- reply, and the result.
use pkgsentry_oss.Prelude.{
  ℕ, zero, suc, ◌+◌, ◌*◌, ◌/◌, min, String, Bool, false, not, ◌&&◌, Option, none, some, List, [],
  ◌∷◌, ◌++◌, str_eq, nat_eq, ltb, if◌then◌else◌,
}
use pkgsentry_oss.Adapter.{Finding}
use pkgsentry_oss.Detect.{Verdict}
use pkgsentry_oss.Triage.{
  Ruling, Score, hundredths, is_clearing, Limits, Budget, check_budget, record_call, estimate_cost,
  Claimed, Ioc, validate_iocs, enforce_no_downgrade,
}

-- a reply that is a JSON object: the verdict's text in lower case, and the confidence if `float` takes it
pub record Candidate : Type 0 where
  pub verdict : String
  pub confidence : Option Score
  pub iocs : Option (List Claimed)

pub data Parsed : Type 0 where
  invalid_json not_an_object : Parsed
  object : Candidate → Parsed

pub record Reply : Type 0 where
  pub parsed : Parsed
  -- `finish_reason == "length"`
  pub cut_off : Bool
  pub prompt_tokens : ℕ
  pub completion_tokens : ℕ
  -- `usage.cost`, zero if it is not reported
  pub cost : ℕ

-- what a paid call ends in: an exception, or a reply
pub data Answer : Type 0 where
  failed : Answer
  replied : Reply → Answer

-- `cand_verdict in {"malicious", "suspicious", "benign", "inconclusive"}`
unfoldable pub read_verdict : String → Option Ruling
read_verdict v =
    if str_eq v "malicious"
    then some Ruling.malicious
    else if str_eq v "suspicious"
    then some Ruling.suspicious
    else if str_eq v "benign"
    then some Ruling.benign
    else if str_eq v "inconclusive"
    then some Ruling.inconclusive
    else none

-- What happens around a triage, by the number of its attempt: the times at which it looks at the budget and
-- records a call, and what the other threads do to the budget before that look and during the call.
pub record Process : Type 0 where
  pub started_at : ℕ
  pub checked_at : ℕ → ℕ
  pub recorded_at : ℕ → ℕ
  pub before_check : ℕ → Budget → Budget
  pub during_call : ℕ → Budget → Budget

-- the variables of the loop over the attempts; `calls` are the token limits of the paid calls so far
pub record Run : Type 0 where
  pub budget : Budget
  pub max_tokens : ℕ
  pub total_prompt : ℕ
  pub total_completion : ℕ
  pub total_cost : ℕ
  pub calls : List ℕ

-- what an attempt leads to
pub data Next : Type 0 where
  again stop crash : Next
  accept : Ruling → Candidate → Next

unfoldable pub attempt_cost : Limits → Reply → ℕ
unfolding estimate_cost
attempt_cost l r =
    if nat_eq r.cost 0 then estimate_cost l r.prompt_tokens r.completion_tokens else r.cost

-- `min(int(current_max_tokens * 1.5), MAX_RESPONSE_TOKENS_CEILING)`, where it may still grow
unfoldable pub escalate : Limits → Bool → ℕ → ℕ
escalate l cut_off tokens =
    if cut_off && ltb tokens l.max_response_tokens_ceiling
    then min (tokens * 3 / 2) l.max_response_tokens_ceiling
    else tokens

-- what is made of a parsed reply
unfoldable pub judge_reply : Reply → Next
unfolding read_verdict
judge_reply r = elim r.parsed [
  | invalid_json ↦ Next.again
  | not_an_object ↦ Next.crash
  | object c ↦ elim (read_verdict c.verdict) [
    | none ↦ Next.again
    | some v ↦ if r.cut_off && is_clearing v then Next.again else Next.accept v c
  ]
]

-- whether the reply asks for a longer one
unfoldable pub wants_more : Reply → Bool
unfolding read_verdict
wants_more r = elim r.parsed [
  | invalid_json ↦ r.cut_off
  | not_an_object ↦ false
  | object c ↦ elim (read_verdict c.verdict) [ none ↦ false | some v ↦ r.cut_off && is_clearing v ]
]

module _ (l : Limits) (w : Process) (ask : ℕ → ℕ → Answer) where
  -- the body of the loop
  unfoldable pub attempt : ℕ → Run → Run × Next
  unfolding check_budget record_call attempt_cost escalate judge_reply wants_more
  attempt n r =
      let (blocked, b) = check_budget l (w.checked_at n) (w.before_check n r.budget) in
      if blocked then (record r { budget = b }, Next.stop) else elim (ask n r.max_tokens) [
        | failed ↦ (
          record r {
            budget = record_call 0 (w.recorded_at n) (w.during_call n b);
            calls = r.calls ++ r.max_tokens ∷ [];
          },
          Next.again,
        )
        | replied reply ↦
            let cost = attempt_cost l reply in
            (
              record {
                budget = record_call cost (w.recorded_at n) (w.during_call n b);
                max_tokens = escalate l (wants_more reply) r.max_tokens;
                total_prompt = r.total_prompt + reply.prompt_tokens;
                total_completion = r.total_completion + reply.completion_tokens;
                total_cost = r.total_cost + cost;
                calls = r.calls ++ r.max_tokens ∷ [];
              },
              judge_reply reply,
            )
      ]

  -- `for attempt in range(MAX_RETRIES + 1)`: the attempts from `n` on, `left` of them
  unfoldable pub attempts : ℕ → ℕ → Run → Run × Next
  unfolding attempt
  attempts zero n r = (r, Next.stop)
  attempts (suc left) n r =
      let (s, next) = attempt n r in
      let rest = attempts left (suc n) s in elim next [ again ↦ rest | ended ↦ (s, ended) ]

pub record TriageResult : Type 0 where
  pub verdict : Ruling
  pub confidence : Score
  pub iocs : List Ioc
  pub prompt_tokens : ℕ
  pub completion_tokens : ℕ
  pub cost_usd : ℕ

-- what is returned after the loop, `none` for an exception
unfoldable pub conclude :
    List String → Verdict → List Finding → String → Run → Next → Option TriageResult
unfolding enforce_no_downgrade validate_iocs
conclude chain_rules rule findings source r next =
    let answer : Ruling → Score → List Ioc → TriageResult = λ verdict confidence iocs. record {
      verdict = verdict;
      confidence = confidence;
      iocs = iocs;
      prompt_tokens = r.total_prompt;
      completion_tokens = r.total_completion;
      cost_usd = r.total_cost;
    } in
    elim next [
      | crash ↦ none
      | accept v c ↦ elim c.confidence [
        | none ↦ none
        | some conf ↦ some (
            answer (enforce_no_downgrade chain_rules v rule findings conf) conf
              (validate_iocs source c.iocs))
      ]
      | _ ↦ some (answer Ruling.error (hundredths 0) [])
    ]

abbrev pub start_run : Limits → Budget → Run
start_run l b = record {
  budget = b;
  max_tokens = l.max_response_tokens;
  total_prompt = 0;
  total_completion = 0;
  total_cost = 0;
  calls = [];
}

-- The run of a triage, and its result, `none` for an exception.
unfoldable pub triage :
    Limits
    → Process
    → (ℕ → ℕ → Answer)
    → List String
    → Verdict
    → List Finding
    → String
    → Budget
    → Run × Option TriageResult
unfolding check_budget attempts conclude
triage l w ask chain_rules rule findings source b0 =
    let (blocked, b) = check_budget l w.started_at b0 in
    let (r, next) = attempts l w ask (suc l.max_retries) 0 (start_run l b) in
    if not l.api_key
    then (start_run l b0, none)
    else if blocked
    then (
      start_run l b,
      some record {
        verdict = Ruling.skipped;
        confidence = hundredths 0;
        iocs = [];
        prompt_tokens = 0;
        completion_tokens = 0;
        cost_usd = 0;
      },
    )
    else (r, conclude chain_rules rule findings source r next)
