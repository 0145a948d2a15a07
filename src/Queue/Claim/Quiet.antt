-- ===== src/Queue/Claim/Quiet.antt =====
-- `claim_next` while no other session commits: which row it takes.
use mathlib.Core.Path.{subst}
use pkgsentry_oss.Prelude.{
  str_eq→≡, ℕ, suc, ◌<◌, String, ◌≡◌, refl, sym, ◌∙◌, ap, Bool, true, false, ◌&&◌, Option, none,
  some, List, [], ◌∷◌, arith, count, any, nat_eq, str_eq, ltb, leb, if◌then◌else◌, Bool-cases,
  Option-cases, inl, inr,
}
use pkgsentry_oss.Queue.{Row, Priority, claim_cas_retries, get_row}
use pkgsentry_oss.Queue.Schedule.{occurs}
use pkgsentry_oss.Queue.Claim.{
  claimable, older, cas_hits, cas_rows, oldest, is_candidate, Attempt, lost_all, try_ecosystem,
  try_ecosystems,
}

-- no row of the list has the id of an earlier one
abbrev pub DistinctIds : List Row → Type 0
DistinctIds [] = Unit
DistinctIds (r ∷ rows) = (any (λ s. nat_eq s.id r.id) rows ≡ false) × DistinctIds rows

-- an element that passes, and whatever holds of it holds of one in the list
pub any-witness {ℓ} :
    {A : Type ℓ} (q : A → Bool) (xs : List A)
    → any q xs ≡ true
    → (x : A) × (q x ≡ true) × ((p : A → Bool) → p x ≡ true → any p xs ≡ true)
any-witness q [] h = absurd (cc)
any-witness q (x ∷ xs) h = elim (Bool-cases (q x)) [
  | inl here ↦ (x, here, λ p t. rw t)
  | inr later ↦
      let (y, t, lift) = any-witness q xs (ground (arith, later)) in
      (y, t, λ p u. ground (arith, lift p u))
]

any-false {ℓ} :
    {A : Type ℓ} (p q : A → Bool) (xs : List A)
    → ((x : A) → p x ≡ true → q x ≡ true)
    → any q xs ≡ false
    → any p xs ≡ false
any-false p q [] imp h = refl
any-false p q (x ∷ xs) imp h = ground (arith, imp x, any-false p q xs imp)

-- Of the rows that pass: there is none; or this is one, it stands in the list, and none is older.
abbrev IsOldest : (Row → Bool) → List Row → Option Row → Type 0
IsOldest p rows none = any p rows ≡ false
IsOldest p rows (some r) =
    (p r ≡ true)
    × (any (λ s. p s && ltb s.enqueued_at r.enqueued_at) rows ≡ false)
    × ((q : Row → Bool) → q r ≡ true → any q rows ≡ true)

IsOldest-cons :
    (p : Row → Bool) (s : Row) (rows : List Row) (o : Option Row)
    → IsOldest p rows o
    → IsOldest p (s ∷ rows) (if p s then older s o else o)
IsOldest-cons p s rows none h = elim (Bool-cases (p s)) [
  | inl t ↦
      let later : any (λ x. p x && ltb x.enqueued_at s.enqueued_at) rows ≡ false =
        any-false _ p rows (λ x u. ground (arith, u)) h in
      rw t (t, ground (arith, later), λ q u. rw u)
  | inr f ↦ ground (arith, f, h)
]
IsOldest-cons p s rows (some r) (pr, least, mem) = elim (Bool-cases (p s)) [
  | inr f ↦ rw f (pr, ground (arith, f, least), λ q u. ground (arith, mem q u))
  | inl t ↦ elim (Bool-cases (leb s.enqueued_at r.enqueued_at)) [
    | inl le ↦
        let later : any (λ x. p x && ltb x.enqueued_at s.enqueued_at) rows ≡ false =
          any-false _ (λ x. p x && ltb x.enqueued_at r.enqueued_at) rows
            (λ x u. ground (arith, u, le)) least in
        rw (t, le) (t, ground (arith, later), λ q u. rw u)
    | inr gt ↦ rw (t, gt) (pr, ground (arith, gt, least), λ q u. ground (arith, mem q u))
  ]
]

oldest-IsOldest : (p : Row → Bool) (rows : List Row) → IsOldest p rows (oldest p rows)
unfolding oldest
oldest-IsOldest p [] = refl
oldest-IsOldest p (s ∷ rows) = IsOldest-cons p s rows (oldest p rows) (oldest-IsOldest p rows)

found-any :
    (i : ℕ) (rows : List Row) (r : Row)
    → get_row i rows ≡ some r
    → any (λ s. nat_eq s.id i) rows ≡ true
found-any i [] r h = absurd (cc)
found-any i (s ∷ rows) r h = ground (arith, h, found-any i rows r)

-- the oldest row that passes is the one that the table holds under its id
oldest-get_row :
    (p : Row → Bool) (rows : List Row) (r : Row)
    → DistinctIds rows
    → oldest p rows ≡ some r
    → get_row r.id rows ≡ some r
unfolding oldest
oldest-get_row p [] r d h = absurd (cc)
oldest-get_row p (s ∷ rows) r (fresh, d) h = elim (Option-cases (oldest p rows)) [
  | inl e ↦ ground (arith, h, e)
  | inr (t, e) ↦
      let there = oldest-get_row p rows t d e in
      let listed = found-any t.id rows t there in
      elim (Bool-cases (nat_eq s.id t.id)) [
        | inl y ↦
            let same : s.id ≡ t.id = ground (arith, y) in absurd (cc (listed, rw same at fresh))
        | inr other ↦ ground (arith, h, e, there, other)
      ]
]

count_zero :
    (i : ℕ) (rows : List Row) → any (λ s. nat_eq s.id i) rows ≡ false → count (cas_hits i) rows ≡ 0
count_zero i [] h = refl
count_zero i (r ∷ rows) h = ground (arith, count_zero i rows)

count_one :
    (i : ℕ) (rows : List Row)
    → DistinctIds rows
    → any (cas_hits i) rows ≡ true
    → count (cas_hits i) rows ≡ 1
count_one i [] d h = absurd (cc)
count_one i (r ∷ rows) (fresh, d) h = elim (Bool-cases (cas_hits i r)) [
  | inl hit ↦
      let same : r.id ≡ i = ground (arith, hit) in
      rw hit (omega (arith, count_zero i rows (rw same at fresh)))
  | inr miss ↦ rw miss (count_one i rows d (ground (arith, miss)))
]

-- no other session commits anything
abbrev pub quiet : ℕ → List Row → List Row
quiet k rows = rows

-- The row that the table holds under this id is pending and of this priority, and none of its ecosystem and
-- priority was enqueued before it.
abbrev pub IsNext : List Row → Priority → ℕ → Type 0
IsNext rows p i =
    (r : Row) × (get_row i rows ≡ some r)
    × (claimable p r ≡ true)
    × (any (λ s. is_candidate p r.ecosystem [] s && ltb s.enqueued_at r.enqueued_at) rows ≡ false)

module _ (pick : List (String × ℕ) → String) (reserved_pct max_pct : ℕ) (token : String)
    (now : ℕ) where
  -- what the first round makes of the oldest candidate
  abbrev first_round : ℕ → List Row → Option Row → Attempt
  first_round k rows none = lost_all (suc k) rows
  first_round k rows (some r) = record {
    won = some r.id;
    clock = suc (suc k);
    rows = cas_rows token now r.id rows;
  }

  candidate_hits :
      (p : Priority) (eco : String) (rows : List Row) (r : Row)
      → DistinctIds rows
      → oldest (is_candidate p eco []) rows ≡ some r
      → nat_eq (count (cas_hits r.id) rows) 1 ≡ true
  candidate_hits p eco rows r d e =
      let (pr, least, mem) =
        subst (IsOldest (is_candidate p eco []) rows) e (oldest-IsOldest _ rows) in
      let one : count (cas_hits r.id) rows ≡ 1 =
        count_one r.id rows d (mem (cas_hits r.id) (ground (arith, pr))) in
      ground (arith, one)

  try_ecosystem-quiet :
      (p : Priority) (eco : String) (k : ℕ) (rows : List Row)
      → DistinctIds rows
      → try_ecosystem quiet pick reserved_pct max_pct token now claim_cas_retries p eco [] k rows
        ≡ first_round k rows (oldest (is_candidate p eco []) rows)
  unfolding try_ecosystem
  try_ecosystem-quiet p eco k rows d = elim (Option-cases (oldest (is_candidate p eco []) rows)) [
    | inl e ↦ rw (e, try_ecosystem)
    | inr (r, e) ↦ rw (e, try_ecosystem) (rw (candidate_hits p eco rows r d e) refl)
  ]

  module _ (rows : List Row) (d : DistinctIds rows) (p : Priority) where
    abbrev pub tried : List String → ℕ → Attempt
    tried ecos k = try_ecosystems quiet pick reserved_pct max_pct token now ecos p k rows

    abbrev after : List String → ℕ → Option Row → Attempt
    after ecos k none = tried ecos (suc k)
    after ecos k (some r) = first_round k rows (some r)

    abbrev go_on : List String → Attempt → Attempt
    go_on ecos a = elim a.won [
      | none ↦ try_ecosystems quiet pick reserved_pct max_pct token now ecos p a.clock a.rows
      | some i ↦ a
    ]

    go_on-first_round :
        (ecos : List String) (k : ℕ) (o : Option Row)
        → go_on ecos (first_round k rows o) ≡ after ecos k o
    go_on-first_round ecos k none = refl
    go_on-first_round ecos k (some r) = refl

    -- the first ecosystem's oldest candidate decides
    tried-cons :
        (eco : String) (ecos : List String) (k : ℕ)
        → tried (eco ∷ ecos) k ≡ after ecos k (oldest (is_candidate p eco []) rows)
    unfolding try_ecosystems
    tried-cons eco ecos k =
        ap (go_on ecos) (try_ecosystem-quiet p eco k rows d) ∙ go_on-first_round ecos k _

    abbrev pub NoneLeft : List String → Attempt → Type 0
    NoneLeft ecos a =
        (a.rows ≡ rows)
        × ((e : String) → 0 < occurs e ecos → any (is_candidate p e []) rows ≡ false)

    -- nothing won: nothing changed, and no ecosystem of the list has a candidate
    NoneLeft-cons :
        (eco : String) (ecos : List String) (k : ℕ) (o : Option Row)
        → IsOldest (is_candidate p eco []) rows o
        → (after ecos k o).won ≡ none
        → ((tried ecos (suc k)).won ≡ none → NoneLeft ecos (tried ecos (suc k)))
        → NoneLeft (eco ∷ ecos) (after ecos k o)
    NoneLeft-cons eco ecos k none least h ih =
        let (same, rest) = ih h in
        (
          same,
          λ e m. elim (Bool-cases (str_eq eco e)) [
            | inl this ↦ rw (← str_eq→≡ eco e this) least
            | inr other ↦ rest e (ground (arith, m, other))
          ],
        )
    NoneLeft-cons eco ecos k (some r) least h ih = absurd (cc)

    pub tried-none :
        (ecos : List String) (k : ℕ) → (tried ecos k).won ≡ none → NoneLeft ecos (tried ecos k)
    unfolding try_ecosystems
    tried-none [] k h = (refl, λ e m. absurd (omega arith))
    tried-none (eco ∷ ecos) k h = subst (NoneLeft (eco ∷ ecos)) (sym (tried-cons eco ecos k)) (
        NoneLeft-cons eco ecos k _ (oldest-IsOldest _ rows)
          (ap (λ a. a.won) (sym (tried-cons eco ecos k)) ∙ h) (tried-none ecos (suc k)))

    IsNext-cons :
        (eco : String) (ecos : List String) (k i : ℕ) (o : Option Row)
        → IsOldest (is_candidate p eco []) rows o
        → ((r : Row) → o ≡ some r → get_row r.id rows ≡ some r)
        → (after ecos k o).won ≡ some i
        → ((tried ecos (suc k)).won ≡ some i → IsNext rows p i)
        → IsNext rows p i
    IsNext-cons eco ecos k i none least held h ih = ih h
    IsNext-cons eco ecos k i (some r) (pr, least, mem) held h ih =
        let same : r.id ≡ i = cc in
        let home : r.ecosystem ≡ eco = str_eq→≡ r.ecosystem eco (ground (arith, pr)) in
        (r, rw (← same) (held r refl), ground (arith, pr), rw home least)

    pub tried-some : (ecos : List String) (k i : ℕ) → (tried ecos k).won ≡ some i → IsNext rows p i
    unfolding try_ecosystems
    tried-some [] k i h = absurd (cc)
    tried-some (eco ∷ ecos) k i h =
        IsNext-cons eco ecos k i _ (oldest-IsOldest _ rows)
          (λ r e. oldest-get_row (is_candidate p eco []) rows r d e)
          (ap (λ a. a.won) (sym (tried-cons eco ecos k)) ∙ h) (tried-some ecos (suc k) i)
