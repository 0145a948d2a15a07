-- ===== src/Jobs.antt =====
-- The queue of detonation jobs (pkgward/detonation_queue.py, table DetonationQueue of
-- pkgward/store/models.py). Texts of errors are lists of code points, times are seconds. As in the scan
-- queue, `others k` is what other sessions commit before the k-th statement; `shuffle` stands for
-- `random.shuffle`.
pub mod Worker
pub mod Steps
pub mod Counts
pub mod Once
pub mod Budget
pub mod Deaths
pub mod Alerts
pub mod Backlog
pub mod Expiry
use pkgsentry_oss.Prelude.{
  ℕ, suc, ◌+◌, ◌-◌, ◌*◌, String, Bool, true, false, not, ◌&&◌, ◌||◌, Option, none, some, List, [],
  ◌∷◌, ◌++◌, map, filter, count, any, find?, take, extend_new, str_eq, nat_eq, ltb, leb,
  if◌then◌else◌,
}
use pkgsentry_oss.Prelude.Evict.{oldest_ids}
use pkgsentry_oss.Queue.{Priority, older_than, claim_timeout}
use pkgsentry_oss.Queue.Claim.{prio_eq}
use pkgsentry_oss.Detect.{Verdict}

pub data JobStatus : Type 0 where
  pending claimed done failed expired : JobStatus

abbrev pub is_waiting : JobStatus → Bool
is_waiting JobStatus.pending = true
is_waiting _ = false

abbrev pub is_running : JobStatus → Bool
is_running JobStatus.claimed = true
is_running _ = false

-- neither waiting nor running
abbrev pub is_over : JobStatus → Bool
is_over JobStatus.pending = false
is_over JobStatus.claimed = false
is_over _ = true

pub record Job : Type 0 where
  pub id : ℕ
  pub scan_id : ℕ
  pub version_id : ℕ
  pub ecosystem : String
  pub name : String
  pub version : String
  pub archive_kind : String
  pub priority : Priority
  pub static_verdict : Verdict
  pub status : JobStatus
  pub attempts : ℕ
  pub claim_token : Option String
  pub last_error : Option (List ℕ)
  pub enqueued_at : ℕ
  pub claimed_at : Option ℕ
  pub finished_at : Option ℕ

-- STALE_CLAIM_TIMEOUT_SECONDS
abbrev pub stale_job_seconds : ℕ
stale_job_seconds = 900

-- MAX_AUTO_ATTEMPTS
abbrev pub max_job_attempts : ℕ
max_job_attempts = 3

-- a write to the row that the primary key names
abbrev pub update_job : ℕ → (Job → Job) → List Job → List Job
update_job i f [] = []
update_job i f (r ∷ jobs) =
    let rest = update_job i f jobs in if nat_eq r.id i then f r ∷ jobs else r ∷ rest

abbrev pub get_job : ℕ → List Job → Option Job
get_job i jobs = find? (λ r. nat_eq r.id i) jobs

-- the row that `enqueue` builds from its arguments
unfoldable pub new_job : Job → Job
new_job r = record r {
  status = JobStatus.pending;
  attempts = 0;
  claim_token = none;
  last_error = none;
  claimed_at = none;
  finished_at = none;
}

-- INSERT under the unique constraint on scan_id; `keys_ok` tells whether the foreign keys exist.
unfoldable pub enqueue_job : Bool → Job → List Job → List Job × Option ℕ
unfolding new_job
enqueue_job keys_ok r jobs =
    if any (λ s. nat_eq s.scan_id r.scan_id) jobs || not keys_ok
    then (jobs, none)
    else (jobs ++ new_job r ∷ [], some r.id)

-- the jobs that a tier offers
abbrev pub in_tier : Priority → Job → Bool
in_tier p r = is_waiting r.status && prio_eq r.priority p

-- low jobs come newest first, the others oldest first
abbrev pub before : Priority → Job → Job → Bool
before Priority.low r s = leb s.enqueued_at r.enqueued_at
before _ r s = leb r.enqueued_at s.enqueued_at

-- `ORDER BY … LIMIT 1`
unfoldable pub first_of : (Job → Job → Bool) → (Job → Bool) → List Job → Option Job
first_of less p [] = none
first_of less p (r ∷ jobs) =
    let rest = first_of less p jobs in
    if p r then elim rest [ none ↦ some r | some s ↦ if less r s then some r else some s ] else rest

unfoldable pub claim_job : String → ℕ → Job → Job
claim_job token now r = record r {
  status = JobStatus.claimed;
  claim_token = some token;
  claimed_at = some now;
}

-- `UPDATE … WHERE id = i AND status = 'pending'`
abbrev pub job_hits : ℕ → Job → Bool
job_hits i r = nat_eq r.id i && is_waiting r.status

unfoldable pub cas_jobs : String → ℕ → ℕ → List Job → List Job
unfolding claim_job
cas_jobs token now i jobs = map (λ r. if job_hits i r then claim_job token now r else r) jobs

-- the id claimed, the number of statements made, and the table
pub record JobAttempt : Type 0 where
  pub won : Option ℕ
  pub clock : ℕ
  pub jobs : List Job

unfoldable pub tier_ecosystems : Priority → List Job → List String
tier_ecosystems p jobs = extend_new [] (map (λ r. r.ecosystem) (filter (in_tier p) jobs))

module _ (others : ℕ → List Job → List Job) (shuffle : List String → List String) (token : String)
    (now : ℕ) where
  -- one job of each ecosystem is tried, and lost when another session took it
  unfoldable pub claim_in : List String → Priority → ℕ → List Job → JobAttempt
  unfolding first_of cas_jobs
  claim_in [] p k jobs = record { won = none; clock = k; jobs = jobs }
  claim_in (eco ∷ ecos) p k jobs =
      let seen = others k jobs in
      let met = others (suc k) seen in
      let skip = claim_in ecos p (suc k) seen in
      let retry = claim_in ecos p (suc (suc k)) met in
      elim (first_of (before p) (λ r. in_tier p r && str_eq r.ecosystem eco) seen) [
        | none ↦ skip
        | some r ↦
            if nat_eq (count (job_hits r.id) met) 1
            then record { won = some r.id; clock = suc (suc k); jobs = cas_jobs token now r.id met }
            else retry
      ]

  unfoldable pub claim_tiers : List Priority → ℕ → List Job → JobAttempt
  unfolding claim_in tier_ecosystems
  claim_tiers [] k jobs = record { won = none; clock = k; jobs = jobs }
  claim_tiers (p ∷ ps) k jobs =
      let seen = others k jobs in
      let a = claim_in (shuffle (tier_ecosystems p seen)) p (suc k) seen in
      let rest = claim_tiers ps a.clock a.jobs in elim a.won [ none ↦ rest | some i ↦ a ]

  unfoldable pub claim_next_job : List Job → JobAttempt
  unfolding claim_tiers
  claim_next_job jobs = claim_tiers (Priority.high ∷ Priority.normal ∷ Priority.low ∷ []) 0 jobs

unfoldable pub job_done : ℕ → Job → Job
job_done now r = record r { status = JobStatus.done; finished_at = some now }

unfoldable pub job_failed : ℕ → List ℕ → Job → Job
job_failed now error r = record r {
  status = JobStatus.failed;
  last_error = some error;
  finished_at = some now;
}

unfoldable pub job_back : Job → Job
job_back r = record r { status = JobStatus.pending; claimed_at = none; claim_token = none }

unfoldable pub is_stale_job : ℕ → Job → Bool
is_stale_job now r = is_running r.status && older_than stale_job_seconds now r.claimed_at

unfoldable pub release_job : ℕ → Job → Job
unfolding job_failed job_back
release_job now r =
    if leb max_job_attempts r.attempts then job_failed now claim_timeout r else job_back r

unfoldable pub sweep_stale_jobs : ℕ → List Job → List Job × ℕ
unfolding is_stale_job release_job
sweep_stale_jobs now jobs = (
  map (λ r. if is_stale_job now r then release_job now r else r) jobs,
  count (is_stale_job now) jobs,
)

-- the backlog that may expire
abbrev pub is_clean_backlog : Job → Bool
is_clean_backlog r = in_tier Priority.low r

abbrev pub expire_job : ℕ → Job → Job
expire_job now r = record r { status = JobStatus.expired; finished_at = some now }

unfoldable pub is_outdated : ℕ → ℕ → Job → Bool
is_outdated ttl_hours now r = is_clean_backlog r && ltb (r.enqueued_at + ttl_hours * 3600) now

-- `UPDATE … WHERE p`
abbrev pub expire_where : (Job → Bool) → ℕ → List Job → List Job
expire_where p now jobs = map (λ r. if p r then expire_job now r else r) jobs

-- `id IN ids`
abbrev pub has_id : List ℕ → Job → Bool
has_id ids r = any (λ i. nat_eq i r.id) ids

-- the ids of what is over the bound, the oldest first
unfoldable pub excess_ids : ℕ → ℕ → List Job → List ℕ
unfolding oldest_ids
excess_ids remaining cap jobs =
    oldest_ids (λ (r : Job). r.id) (λ (r : Job). r.enqueued_at) (remaining - cap) is_clean_backlog
      jobs

-- `others k` is what other sessions commit before the k-th statement after the first UPDATE: the count,
-- the SELECT of the ids, and the second UPDATE, which looks at nothing but the ids.
unfoldable pub expire_stale_clean : (ℕ → List Job → List Job) → ℕ → ℕ → ℕ → List Job → List Job × ℕ
unfolding is_outdated excess_ids
expire_stale_clean others ttl_hours cap now jobs =
    let outdated = is_outdated ttl_hours now in
    let counted = others 0 (expire_where outdated now jobs) in
    let remaining = count is_clean_backlog counted in
    let listed = others 1 counted in
    let ids = excess_ids remaining cap listed in
    let met = others 2 listed in
    if ltb cap remaining
    then (expire_where (has_id ids) now met, count outdated jobs + count (has_id ids) met)
    else (counted, count outdated jobs)

-- no other session commits anything
abbrev pub alone : ℕ → List Job → List Job
alone k jobs = jobs
