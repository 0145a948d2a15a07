-- ===== src/Queue/Unique.antt =====
-- No two rows of the scan queue are of one package version.
use pkgsentry_oss.Prelude.{
  ℕ, zero, suc, String, ◌≡◌, refl, ◌∙◌, Bool, true, false, none, List, [], ◌∷◌, ◌++◌, map, arith,
  filter, find?, nat_eq, if◌then◌else◌, Bool-cases, Option-cases, inl, inr, any, any-append, eq_iff,
}
use pkgsentry_oss.Queue.{
  Row, Status, Priority, ScanQueue, InsertOutcome, enqueue_auto, enqueue_rescan, new_row,
  insert_loop, enqueue, is_item, owns, finish, mark_done, mark_failed, prune_terminal,
  sweep_stale_claims,
}
use pkgsentry_oss.Queue.Claim.{cas_rows}
use pkgsentry_oss.Queue.Lifecycle.{Step, Reach}

abbrev same_item : Row → Row → Bool
same_item r s = is_item r.ecosystem r.name r.version s

-- no row is followed by one of the same package version
abbrev pub DistinctItems : List Row → Type 0
DistinctItems [] = Unit
DistinctItems (r ∷ rows) = (any (same_item r) rows ≡ false) × DistinctItems rows

-- an operation on rows that leaves the package version alone
abbrev KeepsItem : (Row → Row) → Type 0
KeepsItem f =
    (r : Row)
    → ((f r).ecosystem ≡ r.ecosystem) × ((f r).name ≡ r.name) × ((f r).version ≡ r.version)

any-map :
    (f : Row → Row) (r : Row) (rows : List Row)
    → KeepsItem f
    → any (same_item (f r)) (map f rows) ≡ any (same_item r) rows
any-map f r [] k = refl
any-map f r (s ∷ rows) k =
    let (re, rn, rv) = k r in
    let (se, sn, sv) = k s in let ih = any-map f r rows k in rw (re, rn, rv, se, sn, sv) (cc ih)

DistinctItems-map :
    (f : Row → Row) (rows : List Row)
    → KeepsItem f
    → DistinctItems rows
    → DistinctItems (map f rows)
DistinctItems-map f [] k h = tt
DistinctItems-map f (r ∷ rows) k h = (any-map f r rows k ∙ h.0, DistinctItems-map f rows k h.1)

any-filter {ℓ} :
    {A : Type ℓ} (p q : A → Bool) (xs : List A) → any q xs ≡ false → any q (filter p xs) ≡ false
any-filter p q [] h = refl
any-filter p q (x ∷ xs) h = ground (arith, any-filter p q xs)

DistinctItems-filter :
    (p : Row → Bool) (rows : List Row) → DistinctItems rows → DistinctItems (filter p rows)
DistinctItems-filter p [] h = tt
DistinctItems-filter p (r ∷ rows) h = elim (Bool-cases (p r)) [
  | inl t ↦ rw (t, DistinctItems) (any-filter p _ rows h.0, DistinctItems-filter p rows h.1)
  | inr f ↦ rw (f, DistinctItems) (DistinctItems-filter p rows h.1)
]

same_item_sym : (r s : Row) → same_item r s ≡ same_item s r
same_item_sym r s = ground (
  arith,
  eq_iff r.ecosystem s.ecosystem,
  eq_iff s.ecosystem r.ecosystem,
  eq_iff r.name s.name,
  eq_iff s.name r.name,
  eq_iff r.version s.version,
  eq_iff s.version r.version,
)

DistinctItems-append :
    (rows : List Row) (r : Row)
    → any (same_item r) rows ≡ false
    → DistinctItems rows
    → DistinctItems (rows ++ r ∷ [])
DistinctItems-append [] r e h = (refl, tt)
DistinctItems-append (s ∷ rows) r e h = (
  ground (arith, any-append (same_item s) rows (r ∷ []), h.0, same_item_sym s r),
  DistinctItems-append rows r (ground (arith, e)) h.1,
)

find?-none {ℓ} : {A : Type ℓ} (p : A → Bool) (xs : List A) → find? p xs ≡ none → any p xs ≡ false
find?-none p [] h = refl
find?-none p (x ∷ xs) h = ground (arith, find?-none p xs)

update-KeepsItem :
    (i : ℕ) (f : Row → Row) → KeepsItem f → KeepsItem (λ r. if nat_eq r.id i then f r else r)
update-KeepsItem i f k r = elim (Bool-cases (nat_eq r.id i)) [
  | inl t ↦ rw t (k r)
  | inr e ↦ rw e (refl, refl, refl)
]

insert_loop-DistinctItems :
    (answer : ℕ → InsertOutcome) (left attempt : ℕ) (q : ScanQueue) (r : Row)
    → any (same_item r) q.rows ≡ false
    → DistinctItems q.rows
    → DistinctItems (insert_loop answer left attempt q r).0.rows
unfolding insert_loop
insert_loop-DistinctItems answer zero attempt q r e h =
    ground (arith, h, DistinctItems-append q.rows r e h)
insert_loop-DistinctItems answer (suc left) attempt q r e h = ground (
  arith,
  h,
  DistinctItems-append q.rows r e h,
  insert_loop-DistinctItems answer left (suc attempt) q r e h,
)

enqueue_auto-KeepsItem : (p : Priority) → KeepsItem (enqueue_auto p)
unfolding enqueue_auto
enqueue_auto-KeepsItem p r = ground arith

enqueue_rescan-KeepsItem : (p : Priority) → KeepsItem (enqueue_rescan p)
unfolding enqueue_rescan
enqueue_rescan-KeepsItem p r = ground arith

either-KeepsItem :
    (b : Bool) (p : Priority) → KeepsItem (if b then enqueue_rescan p else enqueue_auto p)
either-KeepsItem true p = enqueue_rescan-KeepsItem p
either-KeepsItem false p = enqueue_auto-KeepsItem p

-- `enqueue`, for ingest or for a rescan, keeps the package versions of the rows distinct.
pub enqueue-DistinctItems :
    (answer : ℕ → InsertOutcome) (retries : ℕ) (q : ScanQueue) (ecosystem name version : String)
    (p : Priority) (allow_rescan : Bool) (now : ℕ)
    → DistinctItems q.rows
    → DistinctItems (enqueue answer retries q ecosystem name version p allow_rescan now).0.rows
unfolding enqueue
enqueue-DistinctItems answer retries q ecosystem name version p allow_rescan now h =
    elim (Option-cases (find? (is_item ecosystem name version) q.rows)) [
      | inl e ↦
          rw (e, DistinctItems)
            (insert_loop-DistinctItems answer retries 0 q (new_row q ecosystem name version p now)
              (unfold new_row in find?-none _ q.rows e) h)
      | inr (r, e) ↦
          rw (e, DistinctItems)
            (DistinctItems-map _ q.rows (update-KeepsItem r.id _ (either-KeepsItem allow_rescan p))
              h)
    ]

finish-KeepsItem : (s : Status) (now : ℕ) → KeepsItem (finish s now)
unfolding finish
finish-KeepsItem s now r = (refl, refl, refl)

Step-DistinctItems : {q s : ScanQueue} → Step q s → DistinctItems q.rows → DistinctItems s.rows
unfolding mark_done mark_failed sweep_stale_claims prune_terminal cas_rows
Step-DistinctItems {q} (Step.enqueued answer retries ecosystem name version p now) h =
    enqueue-DistinctItems answer retries q ecosystem name version p false now h
Step-DistinctItems {q} (Step.claim token now i) h = DistinctItems-map _ q.rows (λ r. ground arith) h
Step-DistinctItems {q} (Step.done r token now) h = elim (Bool-cases (owns token r)) [
  | inl t ↦
      rw (t, DistinctItems)
        (DistinctItems-map _ q.rows (update-KeepsItem r.id _ (finish-KeepsItem Status.done now)) h)
  | inr e ↦ rw (e, DistinctItems) h
]
Step-DistinctItems {q} (Step.failed r error token now) h = elim (Bool-cases (owns token r)) [
  | inl t ↦
      rw (t, DistinctItems)
        (DistinctItems-map _ q.rows (update-KeepsItem r.id _ (finish-KeepsItem Status.failed now))
          h)
  | inr e ↦ rw (e, DistinctItems) h
]
Step-DistinctItems {q} (Step.swept now) h = DistinctItems-map _ q.rows (λ r. ground arith) h
Step-DistinctItems {q} (Step.pruned days now) h = DistinctItems-filter _ q.rows h

-- In whatever order the operations come, no package version gets a second row.
pub Reach-DistinctItems :
    {q s : ScanQueue} → Reach q s → DistinctItems q.rows → DistinctItems s.rows
Reach-DistinctItems Reach.here h = h
Reach-DistinctItems (Reach.next r st) h = Step-DistinctItems st (Reach-DistinctItems r h)
