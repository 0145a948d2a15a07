-- ===== src/Queue/Claim/Races.antt =====
-- `claim_next` against whatever other sessions commit meanwhile.
use mathlib.Core.Path.{subst}
use pkgsentry_oss.Prelude.{
  ℕ, zero, suc, String, ◌≡◌, refl, true, some, List, [], ◌∷◌, arith, count, nat_eq, All, Bool-cases,
  Option-cases, inl, inr,
}
use pkgsentry_oss.Queue.{Row, Priority, Status, claim_cas_retries}
use pkgsentry_oss.Queue.Claim.{
  claim_row, cas_hits, cas_rows, oldest, is_candidate, Attempt, lost_all, try_ecosystem,
  try_ecosystems, try_priority, try_priorities, claim_next,
}

-- A property of rows that other sessions keep, and that a claim of a pending row keeps.
module _ (others : ℕ → List Row → List Row) (pick : List (String × ℕ) → String)
    (reserved_pct max_pct : ℕ) (token : String) (now : ℕ) (P : Row → Type 0)
    (keep : (k : ℕ) (rows : List Row) → All P rows → All P (others k rows))
    (claim : (r : Row) → P r → r.status ≡ Status.pending → P (claim_row token now r)) where
  All-cas_rows : (i : ℕ) (rows : List Row) → All P rows → All P (cas_rows token now i rows)
  unfolding cas_rows
  All-cas_rows i [] h = tt
  All-cas_rows i (r ∷ rows) (p, h) = elim (Bool-cases (cas_hits i r)) [
    | inl hit ↦ rw hit (claim r p (ground (arith, hit)), All-cas_rows i rows h)
    | inr miss ↦ rw miss (p, All-cas_rows i rows h)
  ]

  -- The rows of the attempt are good, and a won id was the only pending row of that id in a good table.
  abbrev pub IsSound : Attempt → Type 0
  IsSound a =
      All P a.rows
      × ((i : ℕ)
          → a.won ≡ some i
          → (met : List Row) × All P met
            × (count (cas_hits i) met ≡ 1)
            × (a.rows ≡ cas_rows token now i met))

  won_at :
      (j : ℕ) {i : ℕ} (met : List Row)
      → All P met
      → nat_eq (count (cas_hits j) met) 1 ≡ true
      → some j ≡ some i
      → (rows : List Row) × All P rows
        × (count (cas_hits i) rows ≡ 1)
        × (cas_rows token now j met ≡ cas_rows token now i rows)
  won_at j {i} met good hit e =
      let same : j ≡ i = cc in
      subst
        (λ x.
          (rows : List Row) × All P rows
          × (count (cas_hits x) rows ≡ 1)
          × (cas_rows token now j met ≡ cas_rows token now x rows))
        same (met, good, ground (arith, hit), refl)

  IsSound-lost_all : (k : ℕ) (rows : List Row) → All P rows → IsSound (lost_all k rows)
  IsSound-lost_all k rows h = (h, λ i e. cc)

  try_ecosystem-IsSound :
      (n : ℕ) (p : Priority) (eco : String) (lost : List ℕ) (k : ℕ) (rows : List Row)
      → All P rows
      → IsSound (try_ecosystem others pick reserved_pct max_pct token now n p eco lost k rows)
  unfolding try_ecosystem
  try_ecosystem-IsSound zero p eco lost k rows h = IsSound-lost_all k rows h
  try_ecosystem-IsSound (suc n) p eco lost k rows h =
      let seen = others k rows in
      let met = others (suc k) seen in
      let good : All P met = keep (suc k) seen (keep k rows h) in
      elim (Option-cases (oldest (is_candidate p eco lost) seen)) [
        | inl e ↦ rw (e, try_ecosystem) (IsSound-lost_all (suc k) seen (keep k rows h))
        | inr (r, e) ↦ elim (Bool-cases (nat_eq (count (cas_hits r.id) met) 1)) [
          | inl hit ↦
              rw (e, try_ecosystem)
                (rw hit (All-cas_rows r.id met good, λ i w. won_at r.id met good hit w))
          | inr miss ↦
              rw (e, try_ecosystem)
                (rw miss (try_ecosystem-IsSound n p eco (r.id ∷ lost) (suc (suc k)) met good))
        ]
      ]

  try_ecosystems-IsSound :
      (ecos : List String) (p : Priority) (k : ℕ) (rows : List Row)
      → All P rows
      → IsSound (try_ecosystems others pick reserved_pct max_pct token now ecos p k rows)
  unfolding try_ecosystems
  try_ecosystems-IsSound [] p k rows h = IsSound-lost_all k rows h
  try_ecosystems-IsSound (eco ∷ ecos) p k rows h =
      let a =
        try_ecosystem others pick reserved_pct max_pct token now claim_cas_retries p eco [] k
          rows in
      let good : IsSound a = try_ecosystem-IsSound claim_cas_retries p eco [] k rows h in
      elim (Option-cases a.won) [
        | inl e ↦ rw (e, try_ecosystems) (try_ecosystems-IsSound ecos p a.clock a.rows good.0)
        | inr (i, e) ↦ rw (e, try_ecosystems) good
      ]

  try_priorities-IsSound :
      (ps : List Priority) (k : ℕ) (rows : List Row)
      → All P rows
      → IsSound (try_priorities others pick reserved_pct max_pct token now ps k rows)
  unfolding try_priorities try_priority
  try_priorities-IsSound [] k rows h = IsSound-lost_all k rows h
  try_priorities-IsSound (p ∷ ps) k rows h =
      let a = try_priority others pick reserved_pct max_pct token now p k rows in
      let good : IsSound a = try_ecosystems-IsSound _ p (suc k) _ (keep k rows h) in
      elim (Option-cases a.won) [
        | inl e ↦ rw (e, try_priorities) (try_priorities-IsSound ps a.clock a.rows good.0)
        | inr (i, e) ↦ rw (e, try_priorities) good
      ]

  abbrev tiers : List Priority
  tiers = Priority.high ∷ Priority.normal ∷ Priority.low ∷ []

  -- Whatever the other sessions commit meanwhile, `claim_next` keeps the property of all rows.
  pub claim_next-keeps :
      (rows : List Row)
      → All P rows
      → All P (claim_next others pick reserved_pct max_pct token now rows).rows
  unfolding claim_next
  claim_next-keeps rows h = (try_priorities-IsSound tiers 0 rows h).0

  -- Whatever the other sessions commit meanwhile: where `claim_next` returns an id, exactly one row of
  -- that id was pending when the claim was written, and the table is the one met then with that row
  -- claimed.
  pub claim_next_cas :
      (rows : List Row) (i : ℕ)
      → All P rows
      → (claim_next others pick reserved_pct max_pct token now rows).won ≡ some i
      → (met : List Row) × All P met
        × (count (cas_hits i) met ≡ 1)
        × ((claim_next others pick reserved_pct max_pct token now rows).rows
            ≡ cas_rows token now i met)
  unfolding claim_next
  claim_next_cas rows i h e = (try_priorities-IsSound tiers 0 rows h).1 i e
