-- ===== src/Jobs/Backlog.antt =====
-- The bound on the backlog of clean jobs (detonation_queue.expire_stale_clean).
use pkgsentry_oss.Prelude.{
  ℕ, ◌-◌, ◌≤◌, ◌≡◌, refl, Bool, not, ◌&&◌, List, [], ◌∷◌, arith, count, ltb, Bool-cases, inl, inr,
}
use pkgsentry_oss.Prelude.Evict.{count-oldest_ids}
use pkgsentry_oss.Jobs.{
  Job, is_clean_backlog, expire_where, is_outdated, has_id, excess_ids, expire_stale_clean, alone,
}

-- what is left of the backlog after an UPDATE
count-expire_where :
    (p : Job → Bool) (now : ℕ) (jobs : List Job)
    → count is_clean_backlog (expire_where p now jobs)
      ≡ count (λ r. is_clean_backlog r && not (p r)) jobs
count-expire_where p now [] = refl
count-expire_where p now (r ∷ jobs) = elim (Bool-cases (p r)) [
  | inl t ↦ rw t (ground (arith, count-expire_where p now jobs))
  | inr f ↦ rw f (ground (arith, count-expire_where p now jobs))
]

-- the second UPDATE of the expiry
count-excess :
    (cap now : ℕ) (jobs : List Job)
    → cap ≤ count is_clean_backlog jobs
    → count is_clean_backlog
        (expire_where (has_id (excess_ids (count is_clean_backlog jobs) cap jobs)) now jobs)
      ≤ cap
unfolding excess_ids
count-excess cap now jobs h =
    let n = count is_clean_backlog jobs - cap in
    omega (
      arith,
      h,
      count-expire_where (has_id (excess_ids (count is_clean_backlog jobs) cap jobs)) now jobs,
      count-oldest_ids (λ (r : Job). r.id) (λ (r : Job). r.enqueued_at) n is_clean_backlog jobs,
    )

-- After an expiry during which no other session commits, at most `cap` clean jobs are waiting, whatever
-- was waiting before.
pub expire_stale_clean-le-cap :
    (ttl_hours cap now : ℕ) (jobs : List Job)
    → count is_clean_backlog (expire_stale_clean alone ttl_hours cap now jobs).0 ≤ cap
unfolding expire_stale_clean
expire_stale_clean-le-cap ttl_hours cap now jobs =
    let kept = expire_where (is_outdated ttl_hours now) now jobs in
    elim (Bool-cases (ltb cap (count is_clean_backlog kept))) [
      | inl t ↦ rw (t, expire_stale_clean) (count-excess cap now kept (ground (arith, t)))
      | inr f ↦ rw (f, expire_stale_clean) (ground (arith, f))
    ]
