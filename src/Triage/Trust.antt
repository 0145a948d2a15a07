-- ===== src/Triage/Trust.antt =====
-- When the model's answer is trusted: what it can never clear, and which replies count.
use pkgsentry_oss.Prelude.{
  ℕ, zero, suc, ◌≡◌, refl, String, true, false, not, ◌&&◌, ◌||◌, ◌⊎◌, none, some, List, [], ◌∷◌,
  arith, any, contains, Option-cases, inl, inr, All,
}
use pkgsentry_oss.Adapter.{Finding}
use pkgsentry_oss.Detect.{Verdict, is_malicious}
use pkgsentry_oss.Triage.{
  Ruling, Score, is_at_least, is_clearing, is_benign, Limits, Budget, is_exact_intel_match,
  is_injection, enforce_no_downgrade, Ioc, Claimed, ioc_types, occurs, validate_ioc, validate_list,
  validate_iocs, rules_malicious, check_budget,
}
use pkgsentry_oss.Triage.Attempts.{
  Process, Reply, Answer, Parsed, Candidate, read_verdict, Run, Next, judge_reply, attempt,
  attempts, triage, TriageResult, conclude, start_run,
}

module _ (chain_rules : List String) (llm : Ruling) (rule : Verdict) (fs : List Finding)
    (conf : Score) where
  -- what a milder verdict than the rules' rests on
  pub enforce_no_downgrade-softened :
      is_malicious rule ≡ true
      → rules_malicious (enforce_no_downgrade chain_rules llm rule fs conf) ≡ false
      → (any is_exact_intel_match fs ≡ false)
        × ((any is_injection fs && is_benign llm) ≡ false)
        × ((not (any (λ (f : Finding). contains chain_rules f.rule_id) fs)
              || (is_clearing llm && is_at_least 80 conf))
            ≡ true)
        × (enforce_no_downgrade chain_rules llm rule fs conf ≡ llm)
  unfolding enforce_no_downgrade
  enforce_no_downgrade-softened h k = ground (arith, h, k)

-- a reply that was not cut short while it clears, and whose words are the verdict and the candidate
abbrev pub Backs : Reply → Ruling → Candidate → Type 0
Backs r v c =
    (r.parsed ≡ Parsed.object c)
    × (read_verdict c.verdict ≡ some v)
    × ((r.cut_off && is_clearing v) ≡ false)

judge_reply-Backs :
    (r : Reply) (v : Ruling) (c : Candidate) → judge_reply r ≡ Next.accept v c → Backs r v c
unfolding judge_reply
judge_reply-Backs r v c h = ground (arith, h)

-- some call of the attempts was answered by such a reply
abbrev pub Answered : (ℕ → ℕ → Answer) → Ruling → Candidate → Type 0
Answered ask v c =
    (n : ℕ) × (tokens : ℕ) × (r : Reply) × (ask n tokens ≡ Answer.replied r) × Backs r v c

pub Answer-cases : (a : Answer) → (a ≡ Answer.failed) ⊎ ((r : Reply) × (a ≡ Answer.replied r))
Answer-cases Answer.failed = inl refl
Answer-cases (Answer.replied r) = inr (r, refl)

module _ (l : Limits) (w : Process) (ask : ℕ → ℕ → Answer) where
  attempt-Answered :
      (n : ℕ) (r : Run) (v : Ruling) (c : Candidate)
      → (attempt l w ask n r).1 ≡ Next.accept v c
      → Answered ask v c
  unfolding attempt
  attempt-Answered n r v c h = elim (Answer-cases (ask n r.max_tokens)) [
    | inl e ↦ ground (arith, h, e)
    | inr (reply, e) ↦
        (n, r.max_tokens, reply, e, judge_reply-Backs reply v c (ground (arith, h, e)))
  ]

  attempts-Answered :
      (left n : ℕ) (r : Run) (v : Ruling) (c : Candidate)
      → (attempts l w ask left n r).1 ≡ Next.accept v c
      → Answered ask v c
  unfolding attempts
  attempts-Answered zero n r v c h = ground (arith, h)
  attempts-Answered (suc left) n r v c h = ground (
    arith,
    h,
    attempt-Answered n r v c,
    attempts-Answered left (suc n) (attempt l w ask n r).0 v c,
  )

module _ (chain_rules : List String) (rule : Verdict) (fs : List Finding) where
  -- nothing in the findings forbids that a malicious package is softened to this verdict
  abbrev pub MaySoften : TriageResult → Type 0
  MaySoften res =
      (any is_exact_intel_match fs ≡ false)
      × ((any is_injection fs && is_benign res.verdict) ≡ false)
      × ((not (any (λ (f : Finding). contains chain_rules f.rule_id) fs)
            || is_at_least 80 res.confidence)
          ≡ true)

  conclude-MaySoften :
      (source : String) (r : Run) (next : Next) (res : TriageResult)
      → is_malicious rule ≡ true
      → conclude chain_rules rule fs source r next ≡ some res
      → is_clearing res.verdict ≡ true
      → MaySoften res × (c : Candidate) × (next ≡ Next.accept res.verdict c)
  unfolding conclude enforce_no_downgrade
  conclude-MaySoften source r Next.crash res m h k = ground (arith, h)
  conclude-MaySoften source r Next.again res m h k = ground (arith, h, k)
  conclude-MaySoften source r Next.stop res m h k = ground (arith, h, k)
  conclude-MaySoften source r (Next.accept v c) res m h k =
      let got : MaySoften res × (v ≡ res.verdict) = ground (arith, m, h, k) in
      (got.0, c, ground (arith, got.1))

-- When triage answers `benign` or `suspicious` for a package that the rules find malicious, then no file
-- is a known payload, no injected text has asked for `benign`, a behavioural chain among the findings
-- was outweighed by a confidence of 0.80 or more, and the model gave this very verdict in a reply that
-- was not cut short.
pub triage-cleared :
    (l : Limits) (w : Process) (ask : ℕ → ℕ → Answer) (chain_rules : List String) (rule : Verdict)
    (fs : List Finding) (source : String) (b : Budget) (res : TriageResult)
    → is_malicious rule ≡ true
    → (triage l w ask chain_rules rule fs source b).1 ≡ some res
    → is_clearing res.verdict ≡ true
    → MaySoften chain_rules rule fs res × (c : Candidate) × Answered ask res.verdict c
unfolding triage
triage-cleared l w ask chain_rules rule fs source b res m h k =
    let r0 = start_run l (check_budget l w.started_at b).1 in
    let (r, next) = attempts l w ask (suc l.max_retries) 0 r0 in
    let said : conclude chain_rules rule fs source r next ≡ some res = ground (arith, h, k) in
    let (soft, c, e) = conclude-MaySoften chain_rules rule fs source r next res m said k in
    (soft, c, attempts-Answered l w ask (suc l.max_retries) 0 r0 res.verdict c e)

-- an indicator of a known type that stands in the source
abbrev pub IsGrounded : String → Ioc → Type 0
IsGrounded source i = (contains ioc_types i.type ≡ true) × (occurs i.value source ≡ true)

validate_ioc-IsGrounded :
    (source : String) (c : Claimed) (i : Ioc) → validate_ioc source c ≡ some i → IsGrounded source i
unfolding validate_ioc
validate_ioc-IsGrounded source Claimed.other i h = ground (arith, h)
validate_ioc-IsGrounded source (Claimed.entry none v) i h = ground (arith, h)
validate_ioc-IsGrounded source (Claimed.entry (some t) none) i h = ground (arith, h)
validate_ioc-IsGrounded source (Claimed.entry (some t) (some v)) i h = ground (arith, h)

validate_list-IsGrounded :
    (source : String) (claimed : List Claimed)
    → All (IsGrounded source) (validate_list source claimed)
unfolding validate_list
validate_list-IsGrounded source [] = tt
validate_list-IsGrounded source (c ∷ claimed) = elim (Option-cases (validate_ioc source c)) [
  | inl e ↦ rw (e, All) (validate_list-IsGrounded source claimed)
  | inr (i, e) ↦
      rw (e, All) (validate_ioc-IsGrounded source c i e, validate_list-IsGrounded source claimed)
]

conclude-IsGrounded :
    (chain_rules : List String) (rule : Verdict) (fs : List Finding) (source : String) (r : Run)
    (next : Next) (res : TriageResult)
    → conclude chain_rules rule fs source r next ≡ some res
    → All (IsGrounded source) res.iocs
unfolding conclude validate_iocs
conclude-IsGrounded chain_rules rule fs source r Next.crash res h = ground (arith, h)
conclude-IsGrounded chain_rules rule fs source r Next.again res h = ground (arith, h)
conclude-IsGrounded chain_rules rule fs source r Next.stop res h = ground (arith, h)
conclude-IsGrounded chain_rules rule fs source r (Next.accept v c) res h =
    elim (Option-cases c.iocs) [
      | inl e ↦ ground (arith, h, e)
      | inr (claimed, e) ↦ ground (arith, h, e, validate_list-IsGrounded source claimed)
    ]

-- Every indicator in a triage's result has a known type and stands word for word in the source text.
pub triage-IsGrounded :
    (l : Limits) (w : Process) (ask : ℕ → ℕ → Answer) (chain_rules : List String) (rule : Verdict)
    (fs : List Finding) (source : String) (b : Budget) (res : TriageResult)
    → (triage l w ask chain_rules rule fs source b).1 ≡ some res
    → All (IsGrounded source) res.iocs
unfolding triage
triage-IsGrounded l w ask chain_rules rule fs source b res h =
    let (r, next) =
      attempts l w ask (suc l.max_retries) 0 (start_run l (check_budget l w.started_at b).1) in
    ground (arith, h, conclude-IsGrounded chain_rules rule fs source r next res)
