-- ===== src/Triage/Spend.antt =====
-- What one triage spends.
use pkgsentry_oss.Prelude.{
  ℕ, zero, suc, ◌+◌, ◌≤◌, ◌≡◌, ◌*◌, ◌++◌, max, String, List, [], ◌∷◌, arith, length, length-append,
  All, All-append_one, inl, inr,
}
use pkgsentry_oss.Adapter.{Finding}
use pkgsentry_oss.Detect.{Verdict}
use pkgsentry_oss.Triage.{Limits, Budget, check_budget}
use pkgsentry_oss.Triage.Attempts.{
  Process, Reply, Answer, attempt_cost, escalate, Run, attempt, attempts, triage, start_run,
}
use pkgsentry_oss.Triage.Trust.{Answer-cases}

length-append_one : (ts : List ℕ) (t : ℕ) → length (ts ++ t ∷ []) ≡ suc (length ts)
length-append_one ts t = omega (arith, length-append ts (t ∷ []))

module _ (l : Limits) (w : Process) (ask : ℕ → ℕ → Answer) (dearest : ℕ) where
  -- no reply costs more than `dearest`
  abbrev pub Affordable : Type 0
  Affordable =
      (n tokens : ℕ) (r : Reply) → ask n tokens ≡ Answer.replied r → attempt_cost l r ≤ dearest

  abbrev pub TokensFit : Run → Type 0
  TokensFit r = r.max_tokens ≤ max l.max_response_tokens l.max_response_tokens_ceiling

  -- what every run keeps true
  pub record IsWithin (r : Run) : Type 0 where
    pub charged : r.total_cost ≤ length r.calls * dearest
    pub tokens : TokensFit r
    pub asked : All (λ t. t ≤ max l.max_response_tokens l.max_response_tokens_ceiling) r.calls

  attempt-IsWithin : Affordable → (n : ℕ) (r : Run) → IsWithin r → IsWithin (attempt l w ask n r).0
  unfolding attempt escalate
  attempt-IsWithin cheap n r h =
      let more =
        All-append_one (λ t. t ≤ max l.max_response_tokens l.max_response_tokens_ceiling) r.calls
          r.max_tokens h.asked h.tokens in
      let one_more : length (r.calls ++ r.max_tokens ∷ []) * dearest
          ≡ dearest + length r.calls * dearest =
        rw (length-append_one r.calls r.max_tokens) (omega arith) in
      elim (Answer-cases (ask n r.max_tokens)) [
        | inl e ↦ ground (arith, h.charged, h.tokens, h.asked, more, e, one_more)
        | inr (reply, e) ↦
            ground
              (arith, h.charged, h.tokens, h.asked, more, e, one_more, cheap n r.max_tokens reply e)
      ]

  attempts-IsWithin :
      Affordable → (left n : ℕ) (r : Run) → IsWithin r → IsWithin (attempts l w ask left n r).0
  unfolding attempts
  attempts-IsWithin cheap zero n r h = h
  attempts-IsWithin cheap (suc left) n r h =
      let one = attempt-IsWithin cheap n r h in
      let more = attempts-IsWithin cheap left (suc n) (attempt l w ask n r).0 one in
      ground (arith, one, more)

  length-attempt : (n : ℕ) (r : Run) → length (attempt l w ask n r).0.calls ≤ suc (length r.calls)
  unfolding attempt
  length-attempt n r = ground (arith, length-append r.calls (r.max_tokens ∷ []))

  length-attempts :
      (left n : ℕ) (r : Run) → length (attempts l w ask left n r).0.calls ≤ left + length r.calls
  unfolding attempts
  length-attempts zero n r = omega arith
  length-attempts (suc left) n r =
      ground (arith, length-attempt n r, length-attempts left (suc n) (attempt l w ask n r).0)

  -- Whatever other threads do to the budget meanwhile, a triage makes at most one call more than it may
  -- retry, none above the token limits, and what it charges is at most the dearest call's cost for each.
  pub triage-spend :
      Affordable
      → (chain_rules : List String) (rule : Verdict) (fs : List Finding) (source : String)
        (b : Budget)
      → let r = (triage l w ask chain_rules rule fs source b).0 in
        (length r.calls ≤ suc l.max_retries) × IsWithin r
  unfolding triage check_budget
  triage-spend cheap chain_rules rule fs source b =
      let r0 = start_run l (check_budget l w.started_at b).1 in
      let start : IsWithin r0 = ground arith in
      let end = attempts-IsWithin cheap (suc l.max_retries) 0 r0 start in
      let fresh : IsWithin (start_run l b) = ground arith in
      let calls = length-attempts (suc l.max_retries) 0 r0 in
      ground (arith, start, end, calls, fresh)
