-- ===== src/Triage/Shared.antt =====
-- The budget that all threads of the process share (pkgward/llm/triage.py: _check_budget and _record_call,
-- each under the lock). A call is in flight between the look at the budget that lets it pass and the
-- moment that it is recorded.
use pkgsentry_oss.Prelude.{
  ℕ, suc, ◌+◌, ◌-◌, ◌*◌, ◌≤◌, ◌<◌, ◌≡◌, refl, ◌⊎◌, false, [], length, inl, inr, Bool-cases,
}
use pkgsentry_oss.Triage.{Limits, Budget, check_budget, record_call}
use pkgsentry_oss.Triage.Attempts.{Process, Answer, Run, attempt, attempt_cost}
use pkgsentry_oss.Triage.Trust.{Answer-cases}

pub record Shared : Type 0 where
  pub budget : Budget
  pub in_flight : ℕ

abbrev pub process_start : Shared
process_start = record { budget = record { spent_usd = 0; call_times = [] }; in_flight = 0 }

module _ (l : Limits) (workers dearest : ℕ) where
  -- One of the threads looks at the budget, begins a call that has passed, records one or drops it. There are at most
  -- `workers` calls at a time, none dearer than `dearest`.
  pub data Step (s : Shared) : Shared → Type 0 where
    looked : (now : ℕ) → Step s (record s { budget = (check_budget l now s.budget).1 })
    begun :
        (now : ℕ)
        → (check_budget l now s.budget).0 ≡ false
        → s.in_flight < workers
        → Step s (record { budget = (check_budget l now s.budget).1; in_flight = suc s.in_flight })
    recorded :
        (now cost rest : ℕ)
        → s.in_flight ≡ suc rest
        → cost ≤ dearest
        → Step s (record { budget = record_call cost now s.budget; in_flight = rest })
    -- an exception ends a call before it is recorded
    dropped : (rest : ℕ) → s.in_flight ≡ suc rest → Step s (record s { in_flight = rest })

  pub data Reach (s : Shared) : Shared → Type 0 where
    here : Reach s s
    next : {t u : Shared} → Reach s t → Step t u → Reach s u

  pub record IsBounded (s : Shared) : Type 0 where
    pub spent : s.budget.spent_usd + s.in_flight * dearest ≤ l.max_usd + workers * dearest
    pub hourly : length s.budget.call_times + s.in_flight ≤ l.max_calls_per_hour + (workers - 1)
    pub flying : s.in_flight ≤ workers

-- an attempt of a triage looks at the budget, and if it passes, it records its call after what the other
-- threads have done
attempt-shared :
    (l : Limits) (w : Process) (ask : ℕ → ℕ → Answer) (n : ℕ) (r : Run)
    → let (blocked, b) = check_budget l (w.checked_at n) (w.before_check n r.budget) in
      ((attempt l w ask n r).0.budget ≡ b)
      ⊎ ((blocked ≡ false)
          × (cost : ℕ) × ((attempt l w ask n r).0.budget
              ≡ record_call cost (w.recorded_at n) (w.during_call n b)))
unfolding attempt
attempt-shared l w ask n r =
    elim (Bool-cases (check_budget l (w.checked_at n) (w.before_check n r.budget)).0) [
      | inl y ↦ inl (rw (y, attempt) refl)
      | inr passed ↦ elim (Answer-cases (ask n r.max_tokens)) [
        | inl e ↦ inr (passed, 0, rw (passed, e, attempt) refl)
        | inr (reply, e) ↦ inr (passed, attempt_cost l reply, rw (passed, e, attempt) refl)
      ]
    ]
