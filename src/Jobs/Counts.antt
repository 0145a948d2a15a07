-- ===== src/Jobs/Counts.antt =====
-- Jobs and detonations counted by scan, and the operations on jobs that reopen none.
use mathlib.Core.Path.{subst}
use pkgsentry_oss.Prelude.{
  ℕ, ◌+◌, ◌≤◌, String, ◌≡◌, refl, sym, Bool, true, false, ◌&&◌, some, List, [], ◌∷◌, ◌++◌, map,
  arith, count, any, nat_eq, Bool-cases, Option-cases, inl, inr, if◌then◌else◌,
}
use pkgsentry_oss.Jobs.{
  Job, is_over, get_job, update_job, new_job, job_hits, is_stale_job, expire_job, enqueue_job,
  job_failed, job_back, release_job, claim_job,
}
use pkgsentry_oss.Jobs.Worker.{
  Ticket, Detonation, give_up, mark_job_failed, requeue_or_fail, holds, owns_job, count_failure,
}

abbrev pub of_scan : ℕ → Job → Bool
of_scan i r = nat_eq r.scan_id i

abbrev pub over_of : ℕ → Job → Bool
over_of i r = nat_eq r.scan_id i && is_over r.status

abbrev pub detonation_of : ℕ → Detonation → Bool
detonation_of i d = nat_eq d.scan_id i

-- an operation on jobs that leaves the scan alone and reopens nothing
abbrev pub KeepsOver : (Job → Job) → Type 0
KeepsOver f =
    (r : Job)
    → ((f r).scan_id ≡ r.scan_id) × (is_over r.status ≡ true → is_over (f r).status ≡ true)

-- the detonations of a scan are those of its finished job
abbrev pub Once : List Detonation → List Job → Type 0
Once ds jobs =
    (i : ℕ) → (count (detonation_of i) ds ≤ count (over_of i) jobs) × (count (of_scan i) jobs ≤ 1)

pub count-map_over :
    (i : ℕ) (f : Job → Job) (jobs : List Job)
    → KeepsOver f
    → (count (over_of i) jobs ≤ count (over_of i) (map f jobs))
      × (count (of_scan i) (map f jobs) ≡ count (of_scan i) jobs)
count-map_over i f [] k = ground arith
count-map_over i f (r ∷ jobs) k =
    let ih = count-map_over i f jobs k in
    let h = k r in
    elim (Bool-cases (is_over r.status)) [
      | inl t ↦ rw (h.0, h.1 t, t) (ground (arith, ih))
      | inr e ↦ rw (h.0, e) (ground (arith, ih))
    ]

pub Once-map :
    (ds : List Detonation) (f : Job → Job) (jobs : List Job)
    → KeepsOver f
    → Once ds jobs
    → Once ds (map f jobs)
Once-map ds f jobs k h i = ground (arith, h i, count-map_over i f jobs k)

pub count-append_one {ℓ} :
    {A : Type ℓ} (p : A → Bool) (xs : List A) (y : A)
    → count p (xs ++ y ∷ []) ≡ count p xs + (if p y then 1 else 0)
count-append_one p [] y = ground arith
count-append_one p (x ∷ xs) y = ground (arith, count-append_one p xs y)

pub any-count {ℓ} : {A : Type ℓ} (p : A → Bool) (xs : List A) → any p xs ≡ false → count p xs ≡ 0
any-count p [] h = refl
any-count p (x ∷ xs) h = ground (arith, any-count p xs)

pub count-over-le : (i : ℕ) (jobs : List Job) → count (over_of i) jobs ≤ count (of_scan i) jobs
count-over-le i [] = ground arith
count-over-le i (r ∷ jobs) = ground (arith, count-over-le i jobs)

pub open_job :
    (i : ℕ) (jobs : List Job) (q : Job)
    → get_job i jobs ≡ some q
    → is_over q.status ≡ false
    → count (over_of q.scan_id) jobs + 1 ≤ count (of_scan q.scan_id) jobs
open_job i [] q g o = cc
open_job i (r ∷ jobs) q g o = ground (arith, open_job i jobs q, count-over-le q.scan_id jobs, g, o)

pub closed_job :
    (i : ℕ) (f : Job → Job) (jobs : List Job) (q : Job)
    → get_job i jobs ≡ some q
    → (f q).scan_id ≡ q.scan_id
    → is_over (f q).status ≡ true
    → 1 ≤ count (over_of q.scan_id) (update_job i f jobs)
closed_job i f [] q g s o = cc
closed_job i f (r ∷ jobs) q g s o = ground (arith, closed_job i f jobs q, g, s, o)

pub Once-append :
    (ds : List Detonation) (jobs : List Job) (r : Job)
    → any (of_scan r.scan_id) jobs ≡ false
    → is_over r.status ≡ false
    → Once ds jobs
    → Once ds (jobs ++ r ∷ [])
Once-append ds jobs r e o h i = ground (
  arith,
  o,
  h i,
  any-count (of_scan r.scan_id) jobs e,
  count-append_one (of_scan i) jobs r,
  count-append_one (over_of i) jobs r,
)

pub enqueue_job-Once :
    (ds : List Detonation) (keys_ok : Bool) (r : Job) (jobs : List Job)
    → Once ds jobs
    → Once ds (enqueue_job keys_ok r jobs).0
unfolding enqueue_job
enqueue_job-Once ds keys_ok r jobs h i = elim (Bool-cases (any (of_scan r.scan_id) jobs)) [
  | inl t ↦ rw t (h i)
  | inr e ↦ elim (Bool-cases keys_ok) [
    | inr f ↦ rw (e, f) (h i)
    | inl t ↦
        rw (e, t)
          (Once-append ds jobs (new_job r) (unfold new_job in e) (unfold new_job in refl) h i)
  ]
]

pub claim_job-KeepsOver :
    (token : String) (now i : ℕ)
    → KeepsOver (λ r. if job_hits i r then claim_job token now r else r)
unfolding claim_job
claim_job-KeepsOver token now i r = ground arith

pub release_job-KeepsOver :
    (now : ℕ) → KeepsOver (λ r. if is_stale_job now r then release_job now r else r)
unfolding release_job is_stale_job
release_job-KeepsOver now r = ground arith

pub expire_job-KeepsOver :
    (p : Job → Bool) (now : ℕ) → KeepsOver (λ r. if p r then expire_job now r else r)
expire_job-KeepsOver p now r = ground arith

pub get_id : (i : ℕ) (q : Job) (jobs : List Job) → get_job i jobs ≡ some q → q.id ≡ i
get_id i q [] g = cc
get_id i q (r ∷ jobs) g = ground (arith, g, get_id i q jobs)

pub get_own :
    (i : ℕ) (q : Job) (jobs : List Job) → get_job i jobs ≡ some q → get_job q.id jobs ≡ some q
get_own i q jobs g = subst (λ k. get_job k jobs ≡ some q) (sym (get_id i q jobs g)) g

pub holds-open : (job : Ticket) (q : Job) → holds job q ≡ true → is_over q.status ≡ false
unfolding holds
holds-open job q h = ground (arith, h)

pub absurd_over :
    (job : Ticket) (q : Job) {b : Bool} → holds job q ≡ true → is_over q.status ≡ true → b ≡ true
absurd_over job q h o = cc (holds-open job q h, o)

pub count_failure-scan :
    (now : ℕ) (reason : List ℕ) (q : Job) → (count_failure now reason q).scan_id ≡ q.scan_id
unfolding count_failure job_failed job_back
count_failure-scan now reason q = ground arith

-- a write to one job that leaves its scan alone and does not reopen it
module _ (i : ℕ) (f : Job → Job) (q : Job) (scan : (f q).scan_id ≡ q.scan_id)
    (over : is_over q.status ≡ true → is_over (f q).status ≡ true) where
  pub count-update_over :
      (k : ℕ) (jobs : List Job)
      → get_job i jobs ≡ some q
      → (count (over_of k) jobs ≤ count (over_of k) (update_job i f jobs))
        × (count (of_scan k) (update_job i f jobs) ≡ count (of_scan k) jobs)
  count-update_over k [] g = cc
  count-update_over k (r ∷ jobs) g = elim (Bool-cases (nat_eq r.id i)) [
    | inl t ↦
        let same : r ≡ q = ground (arith, t, g) in
        rw (t, same, scan)
          (elim (Bool-cases (is_over q.status)) [
            | inl o ↦ rw (o, over o) (ground arith)
            | inr o ↦ rw o (ground arith)
          ])
    | inr e ↦ rw e (ground (arith, count-update_over k jobs (ground (arith, e, g))))
  ]

  pub Once-update :
      (ds : List Detonation) (jobs : List Job)
      → get_job i jobs ≡ some q
      → Once ds jobs
      → Once ds (update_job i f jobs)
  Once-update ds jobs g h k = ground (arith, h k, count-update_over k jobs g)

pub give_up-Once :
    (ds : List Detonation) (now : ℕ) (job : Ticket) (reason : List ℕ) (jobs : List Job)
    → Once ds jobs
    → Once ds (give_up now job reason jobs)
unfolding give_up job_failed mark_job_failed
give_up-Once ds now job reason jobs h = elim (Option-cases (get_job job.id jobs)) [
  | inl e ↦ rw (e, give_up) h
  | inr (q, e) ↦ elim (Bool-cases (owns_job (some job.token) q)) [
    | inl t ↦
        rw (e, give_up)
          (rw t (Once-update q.id _ q refl (λ o. refl) ds jobs (get_own job.id q jobs e) h))
    | inr f ↦ rw (e, give_up) (rw f h)
  ]
]

pub requeue_or_fail-Once :
    (ds : List Detonation) (now : ℕ) (job : Ticket) (reason : List ℕ) (jobs : List Job)
    → Once ds jobs
    → Once ds (requeue_or_fail now job reason jobs)
unfolding requeue_or_fail
requeue_or_fail-Once ds now job reason jobs h = elim (Option-cases (get_job job.id jobs)) [
  | inl e ↦ rw (e, requeue_or_fail) h
  | inr (q, e) ↦ elim (Bool-cases (holds job q)) [
    | inl t ↦
        rw (e, requeue_or_fail)
          (rw t (
            Once-update q.id _ q (count_failure-scan now reason q) (λ o. absurd_over job q t o) ds
              jobs (get_own job.id q jobs e) h))
    | inr f ↦ rw (e, requeue_or_fail) (rw f h)
  ]
]
