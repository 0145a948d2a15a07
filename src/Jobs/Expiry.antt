-- ===== src/Jobs/Expiry.antt =====
-- The expiry of the clean backlog (detonation_queue.expire_stale_clean) leaves all other jobs alone.
use pkgsentry_oss.Prelude.{
  ℕ, ◌+◌, ◌-◌, ◌≡◌, refl, ◌∙◌, Bool, true, false, not, ◌||◌, List, [], ◌∷◌, arith, count, any, all,
  nat_eq, ltb, Bool-cases, inl, inr,
}
use pkgsentry_oss.Jobs.{
  Job, is_clean_backlog, expire_job, expire_where, is_outdated, has_id, excess_ids,
  expire_stale_clean, alone,
}
use pkgsentry_oss.Prelude.Evict.{DistinctIds, oldest_ids-selected}

abbrev pub job_id_is : ℕ → Job → Bool
job_id_is i r = nat_eq r.id i

-- the primary key
abbrev pub DistinctJobIds : List Job → Type 0
DistinctJobIds [] = Unit
DistinctJobIds (r ∷ jobs) = (any (job_id_is r.id) jobs ≡ false) × DistinctJobIds jobs

-- job by job: unchanged, or a clean waiting job that has expired
pub data OnlyClean (now : ℕ) : List Job → List Job → Type 0 where
  done : OnlyClean now [] []
  same :
      (r : Job) {jobs after : List Job}
      → OnlyClean now jobs after
      → OnlyClean now (r ∷ jobs) (r ∷ after)
  gone :
      (r : Job) {jobs after : List Job}
      → is_clean_backlog r ≡ true
      → OnlyClean now jobs after
      → OnlyClean now (r ∷ jobs) (expire_job now r ∷ after)

OnlyClean-expire_where :
    (p : Job → Bool) (now : ℕ) (jobs : List Job)
    → all (λ r. not (p r) || is_clean_backlog r) jobs ≡ true
    → OnlyClean now jobs (expire_where p now jobs)
OnlyClean-expire_where p now [] h = OnlyClean.done
OnlyClean-expire_where p now (r ∷ jobs) h =
    let rest = OnlyClean-expire_where p now jobs (ground (arith, h)) in
    elim (Bool-cases (p r)) [
      | inl t ↦ rw t (OnlyClean.gone r (ground (arith, h, t)) rest)
      | inr f ↦ rw f (OnlyClean.same r rest)
    ]

any-expire_where :
    (p : Job → Bool) (now i : ℕ) (jobs : List Job)
    → any (job_id_is i) (expire_where p now jobs) ≡ any (job_id_is i) jobs
any-expire_where p now i [] = refl
any-expire_where p now i (r ∷ jobs) = ground (arith, any-expire_where p now i jobs)

DistinctJobIds-expire_where :
    (p : Job → Bool) (now : ℕ) (jobs : List Job)
    → DistinctJobIds jobs
    → DistinctJobIds (expire_where p now jobs)
DistinctJobIds-expire_where p now [] h = tt
DistinctJobIds-expire_where p now (r ∷ jobs) (d, h) = elim (Bool-cases (p r)) [
  | inl t ↦
      rw (t, DistinctJobIds)
        (any-expire_where p now r.id jobs ∙ d, DistinctJobIds-expire_where p now jobs h)
  | inr f ↦
      rw (f, DistinctJobIds)
        (any-expire_where p now r.id jobs ∙ d, DistinctJobIds-expire_where p now jobs h)
]

-- an id of the backlog names a job of the backlog
abbrev clean_if_named : List ℕ → Job → Bool
clean_if_named ids r = not (has_id ids r) || is_clean_backlog r

DistinctIds-jobs :
    (jobs : List Job)
    → DistinctJobIds jobs
    → DistinctIds (λ (r : Job). r.id) (λ (r : Job). r.enqueued_at) jobs
DistinctIds-jobs [] h = tt
DistinctIds-jobs (r ∷ jobs) (d, h) = (d, DistinctIds-jobs jobs h)

excess-clean :
    (remaining bound : ℕ) (jobs : List Job)
    → DistinctJobIds jobs
    → all (clean_if_named (excess_ids remaining bound jobs)) jobs ≡ true
unfolding excess_ids
excess-clean remaining bound jobs h =
    oldest_ids-selected (λ (r : Job). r.id) (λ (r : Job). r.enqueued_at) (remaining - bound)
      is_clean_backlog jobs (DistinctIds-jobs jobs h)

outdated-clean :
    (ttl_hours now : ℕ) (jobs : List Job)
    → all (λ r. not (is_outdated ttl_hours now r) || is_clean_backlog r) jobs ≡ true
unfolding is_outdated
outdated-clean ttl_hours now [] = refl
outdated-clean ttl_hours now (r ∷ jobs) = ground (arith, outdated-clean ttl_hours now jobs)

-- an expired job is out of the backlog for good
OnlyClean-trans :
    {now : ℕ} {xs ys zs : List Job}
    → OnlyClean now xs ys
    → OnlyClean now ys zs
    → OnlyClean now xs zs
OnlyClean-trans OnlyClean.done k = k
OnlyClean-trans (OnlyClean.same r h) (OnlyClean.same _ k) = OnlyClean.same r (OnlyClean-trans h k)
OnlyClean-trans (OnlyClean.same r h) (OnlyClean.gone _ c k) =
    OnlyClean.gone r c (OnlyClean-trans h k)
OnlyClean-trans (OnlyClean.gone r c h) (OnlyClean.same _ k) =
    OnlyClean.gone r c (OnlyClean-trans h k)
OnlyClean-trans (OnlyClean.gone r c h) (OnlyClean.gone _ d k) = cc d

-- Where the job ids are distinct and no other session commits while it runs, the expiry changes a job only from waiting with low priority to expired:
-- the others, high, normal, claimed or finished, stay as they are.
pub expire_stale_clean-OnlyClean :
    (ttl_hours cap now : ℕ) (jobs : List Job)
    → DistinctJobIds jobs
    → OnlyClean now jobs (expire_stale_clean alone ttl_hours cap now jobs).0
unfolding expire_stale_clean
expire_stale_clean-OnlyClean ttl_hours cap now jobs d =
    let outdated = is_outdated ttl_hours now in
    let kept = expire_where outdated now jobs in
    let first = OnlyClean-expire_where outdated now jobs (outdated-clean ttl_hours now jobs) in
    let second =
      OnlyClean-expire_where (has_id (excess_ids (count is_clean_backlog kept) cap kept)) now kept (
        excess-clean (count is_clean_backlog kept) cap kept
          (DistinctJobIds-expire_where outdated now jobs d)) in
    elim (Bool-cases (ltb cap (count is_clean_backlog kept))) [
      | inl t ↦ rw (t, expire_stale_clean) (OnlyClean-trans first second)
      | inr f ↦ rw (f, expire_stale_clean) first
    ]

count-expired :
    (p : Job → Bool) (now : ℕ) (jobs : List Job)
    → all (λ r. not (p r) || is_clean_backlog r) jobs ≡ true
    → count is_clean_backlog (expire_where p now jobs) + count p jobs ≡ count is_clean_backlog jobs
count-expired p now [] h = refl
count-expired p now (r ∷ jobs) h =
    let ih = count-expired p now jobs (ground (arith, h)) in
    elim (Bool-cases (p r)) [
      | inl t ↦ rw t (ground (arith, h, t, ih))
      | inr f ↦ rw f (ground (arith, ih))
    ]

-- Where the job ids are distinct and no other session commits meanwhile, the number returned is how many jobs have left the clean backlog.
pub expire_stale_clean-count :
    (ttl_hours cap now : ℕ) (jobs : List Job)
    → DistinctJobIds jobs
    → let (after, expired) = expire_stale_clean alone ttl_hours cap now jobs in
      count is_clean_backlog after + expired ≡ count is_clean_backlog jobs
unfolding expire_stale_clean
expire_stale_clean-count ttl_hours cap now jobs d =
    let outdated = is_outdated ttl_hours now in
    let kept = expire_where outdated now jobs in
    let ids = excess_ids (count is_clean_backlog kept) cap kept in
    let first = count-expired outdated now jobs (outdated-clean ttl_hours now jobs) in
    let second = count-expired (has_id ids) now kept (
      excess-clean (count is_clean_backlog kept) cap kept
        (DistinctJobIds-expire_where outdated now jobs d)) in
    elim (Bool-cases (ltb cap (count is_clean_backlog kept))) [
      | inl t ↦ rw (t, expire_stale_clean) (omega (arith, first, second))
      | inr f ↦ rw (f, expire_stale_clean) first
    ]
