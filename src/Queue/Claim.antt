-- ===== src/Queue/Claim.antt =====
-- `claim_next` (pkgward/queue.py). `others k` is what other sessions commit before the k-th SELECT or
-- UPDATE of this one; `pick` stands for `random.choices`. The rows of a GROUP BY come in the order of
-- their first member, and of rows enqueued at one time the first is taken.
pub mod Races
pub mod Quiet
pub mod Tiers
use pkgsentry_oss.Prelude.{
  ℕ, zero, suc, ◌+◌, String, Bool, true, false, not, ◌&&◌, Option, none, some, List, [], ◌∷◌, map,
  filter, count, any, str_eq, nat_eq, leb, length, extend_new, Dict, lookup, get_or, if◌then◌else◌,
}
use pkgsentry_oss.Queue.{
  Row, Priority, Status, priority_order, is_pending, is_claimed, claim_cas_retries,
}
use pkgsentry_oss.Queue.Schedule.{eco_weights, weighted_order}

abbrev pub prio_eq : Priority → Priority → Bool
prio_eq p q = nat_eq (priority_order p) (priority_order q)

-- `status == "pending" and priority == prio`
abbrev pub claimable : Priority → Row → Bool
claimable p r = is_pending r.status && prio_eq r.priority p

-- and of the ecosystem, and not lost to another session before
abbrev pub is_candidate : Priority → String → List ℕ → Row → Bool
is_candidate p eco lost r =
    claimable p r && (str_eq r.ecosystem eco && not (any (λ i. nat_eq i r.id) lost))

-- `ORDER BY enqueued_at LIMIT 1`
abbrev older : Row → Option Row → Option Row
older r none = some r
older r (some s) = if leb r.enqueued_at s.enqueued_at then some r else some s

unfoldable pub oldest : (Row → Bool) → List Row → Option Row
oldest p [] = none
oldest p (r ∷ rows) = let rest = oldest p rows in if p r then older r rest else rest

unfoldable pub claim_row : String → ℕ → Row → Row
claim_row token now r = record r {
  status = Status.claimed;
  claim_token = some token;
  claimed_at = some now;
  attempts = r.attempts + 1;
}

-- `UPDATE … WHERE id = i AND status = 'pending'`, and its row count
abbrev pub cas_hits : ℕ → Row → Bool
cas_hits i r = nat_eq r.id i && is_pending r.status

unfoldable pub cas_rows : String → ℕ → ℕ → List Row → List Row
unfolding claim_row
cas_rows token now i rows = map (λ r. if cas_hits i r then claim_row token now r else r) rows

-- the id claimed, the number of statements made, and the table
pub record Attempt : Type 0 where
  pub won : Option ℕ
  pub clock : ℕ
  pub rows : List Row

abbrev pub lost_all : ℕ → List Row → Attempt
lost_all k rows = record { won = none; clock = k; rows = rows }

-- `SELECT ecosystem, count(*) … GROUP BY ecosystem`
unfoldable pub pending_ecosystems : Priority → List Row → List String
pending_ecosystems p rows = extend_new [] (map (λ r. r.ecosystem) (filter (claimable p) rows))

unfoldable pub pending_counts : Priority → List Row → List String → Dict ℕ
pending_counts p rows ecos =
    map (λ e. (e, count (λ r. claimable p r && str_eq r.ecosystem e) rows)) ecos

-- `zip(ecosystems, weights)`
abbrev pub zip : List String → List ℕ → List (String × ℕ)
zip [] ws = []
zip (e ∷ es) [] = []
zip (e ∷ es) (w ∷ ws) = (e, w) ∷ zip es ws

-- the order in which the ecosystems of a priority are tried
unfoldable pub try_order : (List (String × ℕ) → String) → ℕ → ℕ → Priority → List Row → List String
unfolding pending_ecosystems pending_counts
try_order pick reserved_pct max_pct p rows =
    let ecos = pending_ecosystems p rows in
    weighted_order pick (length ecos)
      (zip ecos (eco_weights reserved_pct max_pct ecos (pending_counts p rows ecos)))

module _ (others : ℕ → List Row → List Row) (pick : List (String × ℕ) → String)
    (reserved_pct max_pct : ℕ) (token : String) (now : ℕ) where
  -- the rounds within one ecosystem; `lost` are the ids that other sessions took
  unfoldable pub try_ecosystem : ℕ → Priority → String → List ℕ → ℕ → List Row → Attempt
  unfolding cas_rows oldest
  try_ecosystem zero p eco lost k rows = lost_all k rows
  try_ecosystem (suc n) p eco lost k rows =
      let seen = others k rows in
      elim (oldest (is_candidate p eco lost) seen) [
        | none ↦ lost_all (suc k) seen
        | some r ↦
            let met = others (suc k) seen in
            let retry = try_ecosystem n p eco (r.id ∷ lost) (suc (suc k)) met in
            if nat_eq (count (cas_hits r.id) met) 1
            then record { won = some r.id; clock = suc (suc k); rows = cas_rows token now r.id met }
            else retry
      ]

  unfoldable pub try_ecosystems : List String → Priority → ℕ → List Row → Attempt
  unfolding try_ecosystem
  try_ecosystems [] p k rows = lost_all k rows
  try_ecosystems (eco ∷ ecos) p k rows =
      let a = try_ecosystem claim_cas_retries p eco [] k rows in
      let rest = try_ecosystems ecos p a.clock a.rows in elim a.won [ none ↦ rest | some i ↦ a ]

  unfoldable pub try_priority : Priority → ℕ → List Row → Attempt
  unfolding try_ecosystems
  try_priority p k rows =
      let seen = others k rows in
      try_ecosystems (try_order pick reserved_pct max_pct p seen) p (suc k) seen

  unfoldable pub try_priorities : List Priority → ℕ → List Row → Attempt
  unfolding try_priority
  try_priorities [] k rows = lost_all k rows
  try_priorities (p ∷ ps) k rows =
      let a = try_priority p k rows in
      let rest = try_priorities ps a.clock a.rows in elim a.won [ none ↦ rest | some i ↦ a ]

  unfoldable pub claim_next : List Row → Attempt
  unfolding try_priorities
  claim_next rows = try_priorities (Priority.high ∷ Priority.normal ∷ Priority.low ∷ []) 0 rows
