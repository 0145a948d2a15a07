-- ===== src/Queue/Claim/Tiers.antt =====
-- `claim_next` while no other session commits, over all ecosystems and priorities.
use mathlib.Core.Path.{subst}
use pkgsentry_oss.Prelude.{
  All, ◌++◌, ℕ, suc, ◌<◌, String, ◌≡◌, refl, sym, ◌∙◌, ap, Bool, true, false, ◌&&◌, none, some,
  List, [], ◌∷◌, map, arith, any, filter, str_eq, leb, Bool-cases, Option-cases, inl, inr, length,
  eq_refl, contains, contains-extend_new,
}
use pkgsentry_oss.Queue.{Row, Priority, is_pending}
use pkgsentry_oss.Queue.Schedule.{eco_weights, weighted_order_lem, PicksMember, occurs, occurs_pair}
use pkgsentry_oss.Queue.Claim.{
  claimable, zip, is_candidate, Attempt, try_priority, try_priorities, claim_next, try_order,
  pending_ecosystems, pending_counts,
}
use pkgsentry_oss.Queue.Claim.Quiet.{
  DistinctIds, quiet, IsNext, any-witness, tried-none, tried-some,
}

length-map {ℓ κ} :
    {A : Type ℓ} {B : Type κ} (f : A → B) (xs : List A) → length (map f xs) ≡ length xs
length-map f [] = refl
length-map f (x ∷ xs) = ap suc (length-map f xs)

length-eco_weights :
    (r m : ℕ) (es : List String) (counts : List (String × ℕ))
    → length (eco_weights r m es counts) ≡ length es
unfolding eco_weights
length-eco_weights r m es counts = elim (Bool-cases (leb (length es) 1)) [
  | inl few ↦ rw few (length-map _ es)
  | inr many ↦ rw many (length-map _ es)
]

zip_lem :
    (es : List String) (ws : List ℕ) (e : String)
    → length ws ≡ length es
    → (length (zip es ws) ≡ length es) × (occurs_pair e (zip es ws) ≡ occurs e es)
zip_lem [] ws e h = (refl, refl)
zip_lem (x ∷ es) [] e h = absurd (omega arith)
zip_lem (x ∷ es) (w ∷ ws) e h = ground (arith, zip_lem es ws e)

occurs_pos : (es : List String) (e : String) → contains es e ≡ true → 0 < occurs e es
occurs_pos [] e h = absurd (cc)
occurs_pos (x ∷ es) e h = ground (arith, occurs_pos es e)

contains-map-filter :
    (p : Row → Bool) (e : String) (rows : List Row)
    → contains (map (λ r. r.ecosystem) (filter p rows)) e
      ≡ any (λ r. p r && str_eq r.ecosystem e) rows
contains-map-filter p e [] = refl
contains-map-filter p e (r ∷ rows) = ground (arith, contains-map-filter p e rows)

no_tier :
    (rows : List Row)
    → any (claimable Priority.high) rows ≡ false
    → any (claimable Priority.normal) rows ≡ false
    → any (claimable Priority.low) rows ≡ false
    → any (λ r. is_pending r.status) rows ≡ false
no_tier [] h n l = refl
no_tier (r ∷ rows) h n l = ground (arith, no_tier rows)

-- the priorities that are claimed before this one
abbrev pub more_urgent : Priority → List Priority
more_urgent Priority.high = []
more_urgent Priority.normal = Priority.high ∷ []
more_urgent Priority.low = Priority.high ∷ Priority.normal ∷ []

abbrev tiers : List Priority
tiers = Priority.high ∷ Priority.normal ∷ Priority.low ∷ []

tiers_split :
    (above below : List Priority) (p : Priority)
    → tiers ≡ above ++ p ∷ below
    → above ≡ more_urgent p
tiers_split [] below p e = let q : p ≡ Priority.high = cc in rw q
tiers_split (x ∷ []) below p e =
    let q : p ≡ Priority.normal = cc in let r : x ≡ Priority.high = cc in rw (q, r)
tiers_split (x ∷ y ∷ []) below p e =
    let q : p ≡ Priority.low = cc in
    let r : x ≡ Priority.high = cc in let t : y ≡ Priority.normal = cc in rw (q, r, t)
tiers_split (x ∷ y ∷ z ∷ []) below p e = absurd (cc)
tiers_split (x ∷ y ∷ z ∷ w ∷ above) below p e = absurd (cc)

module _ (pick : List (String × ℕ) → String) (member : PicksMember pick)
    (reserved_pct max_pct : ℕ) where
  -- Every ecosystem with a pending row of the priority is tried.
  try_order_complete :
      (p : Priority) (rows : List Row) (e : String)
      → any (λ r. claimable p r && str_eq r.ecosystem e) rows ≡ true
      → 0 < occurs e (try_order pick reserved_pct max_pct p rows)
  unfolding try_order pending_ecosystems
  try_order_complete p rows e h =
      let ecos = pending_ecosystems p rows in
      let ws = eco_weights reserved_pct max_pct ecos (pending_counts p rows ecos) in
      let (len, occ) = zip_lem ecos ws e (length-eco_weights reserved_pct max_pct ecos _) in
      let seen : contains ecos e ≡ true =
        contains-extend_new [] (map (λ r. r.ecosystem) (filter (claimable p) rows)) e
        ∙ contains-map-filter (claimable p) e rows
        ∙ h in
      omega (
        arith,
        weighted_order_lem pick (length ecos) (zip ecos ws) e member (omega (arith, len)),
        occ,
        occurs_pos ecos e seen,
      )

  module _ (token : String) (now : ℕ) (rows : List Row) (d : DistinctIds rows) where
    abbrev tier : Priority → ℕ → Attempt
    tier p k = try_priority quiet pick reserved_pct max_pct token now p k rows

    tier-none :
        (p : Priority) (k : ℕ)
        → (tier p k).won ≡ none
        → ((tier p k).rows ≡ rows) × (any (claimable p) rows ≡ false)
    unfolding try_priority
    tier-none p k h =
        let ecos = try_order pick reserved_pct max_pct p rows in
        let (same, rest) = tried-none pick reserved_pct max_pct token now rows d p ecos (suc k) h in
        (
          same,
          elim (Bool-cases (any (claimable p) rows)) [
            | inr clear ↦ clear
            | inl some_row ↦
                let (r, ok, lift) = any-witness (claimable p) rows some_row in
                let listed = try_order_complete p rows r.ecosystem (
                  lift (λ s. claimable p s && str_eq s.ecosystem r.ecosystem) (rw (ok, eq_refl))) in
                let there : any (is_candidate p r.ecosystem []) rows ≡ true =
                  lift (is_candidate p r.ecosystem []) (rw (ok, eq_refl)) in
                absurd (cc (there, rest r.ecosystem listed))
          ],
        )

    tier-some : (p : Priority) (k i : ℕ) → (tier p k).won ≡ some i → IsNext rows p i
    unfolding try_priority
    tier-some p k i h = tried-some pick reserved_pct max_pct token now rows d p _ (suc k) i h

    abbrev run : List Priority → ℕ → Attempt
    run ps k = try_priorities quiet pick reserved_pct max_pct token now ps k rows

    run-skip :
        (p : Priority) (ps : List Priority) (k : ℕ)
        → (tier p k).won ≡ none
        → run (p ∷ ps) k ≡ run ps (tier p k).clock
    unfolding try_priorities
    run-skip p ps k e = rw (e, try_priorities) (rw (tier-none p k e).0 refl)

    run-take :
        (p : Priority) (ps : List Priority) (k i : ℕ)
        → (tier p k).won ≡ some i
        → run (p ∷ ps) k ≡ tier p k
    unfolding try_priorities
    run-take p ps k i e = rw (e, try_priorities) refl

    run-none :
        (ps : List Priority) (k : ℕ)
        → (run ps k).won ≡ none
        → ((run ps k).rows ≡ rows) × All (λ p. any (claimable p) rows ≡ false) ps
    run-none [] k h = unfold try_priorities in (refl, tt)
    run-none (p ∷ ps) k h = elim (Option-cases (tier p k).won) [
      | inl e ↦
          let (same, clear) = run-none ps (tier p k).clock (rw (run-skip p ps k e) at h) in
          (rw (run-skip p ps k e) same, ((tier-none p k e).1, clear))
      | inr (i, e) ↦ absurd (cc (run-take p ps k i e, e, h))
    ]

    -- what won, and the tiers above it that were found empty
    run-some :
        (ps : List Priority) (k i : ℕ)
        → (run ps k).won ≡ some i
        → (p : Priority) × (above : List Priority) × (below : List Priority) × (ps
            ≡ above ++ p ∷ below)
          × All (λ q. any (claimable q) rows ≡ false) above
          × IsNext rows p i
    run-some [] k i h = unfold try_priorities in absurd (cc)
    run-some (p ∷ ps) k i h = elim (Option-cases (tier p k).won) [
      | inl e ↦
          let (q, above, below, split, clear, next) =
            run-some ps (tier p k).clock i (rw (run-skip p ps k e) at h) in
          (
            q,
            p ∷ above,
            below,
            ap (λ (t : List Priority). p ∷ t) split,
            ((tier-none p k e).1, clear),
            next,
          )
      | inr (j, e) ↦
          (p, [], ps, refl, tt, tier-some p k i (ap (λ a. a.won) (sym (run-take p ps k j e)) ∙ h))
    ]

-- While no other session commits, `claim_next` returns `None` only if no row is pending, and then it
-- leaves the table as it is.
pub claim_next-none :
    (pick : List (String × ℕ) → String) (reserved_pct max_pct : ℕ) (token : String) (now : ℕ)
    (rows : List Row)
    → PicksMember pick
    → DistinctIds rows
    → (claim_next quiet pick reserved_pct max_pct token now rows).won ≡ none
    → ((claim_next quiet pick reserved_pct max_pct token now rows).rows ≡ rows)
      × (any (λ r. is_pending r.status) rows ≡ false)
unfolding claim_next
claim_next-none pick reserved_pct max_pct token now rows member d h =
    let (same, clear) = run-none pick member reserved_pct max_pct token now rows d tiers 0 h in
    (same, no_tier rows clear.0 clear.1.0 clear.1.1.0)

-- While no other session commits, the row that `claim_next` takes was pending, no row of a more urgent
-- priority was, and no pending row of its priority and ecosystem was enqueued before it.
pub claim_next-some :
    (pick : List (String × ℕ) → String) (reserved_pct max_pct : ℕ) (token : String) (now : ℕ)
    (rows : List Row) (i : ℕ)
    → PicksMember pick
    → DistinctIds rows
    → (claim_next quiet pick reserved_pct max_pct token now rows).won ≡ some i
    → (p : Priority) × IsNext rows p i × All (λ q. any (claimable q) rows ≡ false) (more_urgent p)
unfolding claim_next
claim_next-some pick reserved_pct max_pct token now rows i member d h =
    let (p, above, below, split, clear, next) =
      run-some pick member reserved_pct max_pct token now rows d tiers 0 i h in
    (
      p,
      next,
      subst (All (λ q. any (claimable q) rows ≡ false)) (tiers_split above below p split) clear,
    )
