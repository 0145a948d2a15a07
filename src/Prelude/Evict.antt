-- ===== src/Prelude/Evict.antt =====
-- A table that is cut down to a bound: the oldest rows are looked up by a key, and written or deleted by
-- their ids. `id` and `age` are the two columns.
use mathlib.Core.Path.{subst}
use Prim.Native.Nat.{ℕ, zero, suc, ◌-◌, ◌≤◌}
use mathlib.Core.Path.{◌≡◌, refl, sym}
use mathlib.Core.Logic.{inl, inr}
use mathlib.Core.Bool.{Bool, true, false, not, ◌&&◌, ◌||◌}
use mathlib.Core.List.{List, [], ◌∷◌, map}
use native.Mathlib.Omega.{arith}
use pkgsentry_oss.Prelude.Tests.{nat_eq, leb, if◌then◌else◌, Bool-cases}
use pkgsentry_oss.Prelude.Lists.{length, take, filter, any, all, count, length-filter}

module _ {ℓ} {A : Type ℓ} (id age : A → ℕ) where
  abbrev pub insert_by : A → List A → List A
  insert_by r [] = r ∷ []
  insert_by r (s ∷ rows) =
      let rest = insert_by r rows in if leb (age r) (age s) then r ∷ s ∷ rows else s ∷ rest

  -- `ORDER BY age ASC`
  unfoldable pub sort_by : List A → List A
  sort_by [] = []
  sort_by (r ∷ rows) = insert_by r (sort_by rows)

  abbrev pub ids_of : List A → List ℕ
  ids_of rows = map id rows

  -- `id IN ids`
  abbrev pub has_id : List ℕ → A → Bool
  has_id ids r = any (λ i. nat_eq i (id r)) ids

  -- the ids of the `n` oldest rows of those that `p` selects
  unfoldable pub oldest_ids : ℕ → (A → Bool) → List A → List ℕ
  unfolding sort_by
  oldest_ids n p rows = ids_of (take n (sort_by (filter p rows)))

  -- the primary key
  abbrev pub DistinctIds : List A → Type 0
  DistinctIds [] = Unit
  DistinctIds (r ∷ rows) = (any (λ s. nat_eq (id s) (id r)) rows ≡ false) × DistinctIds rows

  count-insert_by :
      (p : A → Bool) (r : A) (rows : List A) → count p (insert_by r rows) ≡ count p (r ∷ rows)
  count-insert_by p r [] = refl
  count-insert_by p r (s ∷ rows) = ground (arith, count-insert_by p r rows)

  count-sort_by : (p : A → Bool) (rows : List A) → count p (sort_by rows) ≡ count p rows
  unfolding sort_by
  count-sort_by p [] = refl
  count-sort_by p (r ∷ rows) =
      ground (arith, count-insert_by p r (sort_by rows), count-sort_by p rows)

  length-insert_by : (r : A) (rows : List A) → length (insert_by r rows) ≡ suc (length rows)
  length-insert_by r [] = refl
  length-insert_by r (s ∷ rows) = ground (arith, length-insert_by r rows)

  pub length-sort_by : (rows : List A) → length (sort_by rows) ≡ length rows
  unfolding sort_by
  length-sort_by [] = refl
  length-sort_by (r ∷ rows) = ground (arith, length-sort_by rows, length-insert_by r (sort_by rows))

  pub count-filter :
      (p q : A → Bool) (rows : List A) → count p (filter q rows) ≡ count (λ r. q r && p r) rows
  count-filter p q [] = refl
  count-filter p q (r ∷ rows) = ground (arith, count-filter p q rows)

  pub count_le :
      (p q : A → Bool) (rows : List A)
      → ((r : A) → p r ≡ true → q r ≡ true)
      → count p rows ≤ count q rows
  count_le p q [] k = omega arith
  count_le p q (r ∷ rows) k = elim (Bool-cases (p r)) [
    | inl t ↦ rw (t, k r t) (ground (arith, count_le p q rows k))
    | inr f ↦ rw f (ground (arith, count_le p q rows k))
  ]

  count-take :
      (n : ℕ) (rows : List A)
      → count (λ r. not (has_id (ids_of (take n rows)) r)) rows ≤ length rows - n
  count-take zero [] = omega arith
  count-take zero (r ∷ rows) = ground (arith, count-take zero rows)
  count-take (suc n) [] = omega arith
  count-take (suc n) (r ∷ rows) =
      let ids = ids_of (take n rows) in
      ground (
        arith,
        count-take n rows,
        count_le (λ s. not (has_id (id r ∷ ids) s)) (λ s. not (has_id ids s)) rows
            (λ s h. ground (arith, h)),
      )

  -- Of the selected rows, those that are not among the `n` oldest.
  pub count-oldest_ids :
      (n : ℕ) (p : A → Bool) (rows : List A)
      → count (λ r. p r && not (has_id (oldest_ids n p rows) r)) rows ≤ count p rows - n
  unfolding oldest_ids
  count-oldest_ids n p rows =
      let low = filter p rows in
      let ids = ids_of (take n (sort_by low)) in
      omega (
        arith,
        count-filter (λ r. not (has_id ids r)) p rows,
        count-sort_by (λ r. not (has_id ids r)) low,
        count-take n (sort_by low),
        length-sort_by low,
        length-filter p rows,
      )

  no_id :
      (p : A → Bool) (i : ℕ) (rows : List A)
      → any (λ s. nat_eq (id s) i) rows ≡ false
      → any (λ k. nat_eq k i) (ids_of (filter p rows)) ≡ false
  no_id p i [] h = refl
  no_id p i (r ∷ rows) h = ground (arith, h, no_id p i rows)

  abbrev pub selected_if_named : (A → Bool) → List ℕ → A → Bool
  selected_if_named p ids r = not (has_id ids r) || p r

  one_more_id :
      (p : A → Bool) (i : ℕ) (ids : List ℕ) (rows : List A)
      → any (λ s. nat_eq (id s) i) rows ≡ false
      → all (selected_if_named p ids) rows ≡ true
      → all (selected_if_named p (i ∷ ids)) rows ≡ true
  one_more_id p i ids [] h k = refl
  one_more_id p i ids (r ∷ rows) h k = ground (arith, h, k, one_more_id p i ids rows)

  named_cons :
      (p : A → Bool) (ids : List ℕ) (r : A) (rows : List A)
      → selected_if_named p ids r ≡ true
      → all (selected_if_named p ids) rows ≡ true
      → all (selected_if_named p ids) (r ∷ rows) ≡ true
  named_cons p ids r rows h k = ground (arith, h, k)

  named_selected :
      (p : A → Bool) (rows : List A)
      → DistinctIds rows
      → all (selected_if_named p (ids_of (filter p rows))) rows ≡ true
  named_selected p [] h = refl
  named_selected p (r ∷ rows) (d, h) =
      let low = filter p rows in
      elim (Bool-cases (p r)) [
        | inl t ↦
            let more : filter p (r ∷ rows) ≡ r ∷ low = rw t refl in
            subst (λ xs. all (selected_if_named p (ids_of xs)) (r ∷ rows) ≡ true) (sym more)
              (named_cons p (ids_of (r ∷ low)) r rows (ground (arith, t))
                (one_more_id p (id r) (ids_of low) rows d (named_selected p rows h)))
        | inr f ↦
            let same : filter p (r ∷ rows) ≡ low = rw f refl in
            subst (λ xs. all (selected_if_named p (ids_of xs)) (r ∷ rows) ≡ true) (sym same)
              (named_cons p (ids_of low) r rows (ground (arith, no_id p (id r) rows d))
                (named_selected p rows h))
      ]

  has_id-take :
      (n : ℕ) (xs : List A) (r : A)
      → has_id (ids_of (take n xs)) r ≡ true
      → has_id (ids_of xs) r ≡ true
  has_id-take zero xs r h = cc h
  has_id-take (suc n) [] r h = h
  has_id-take (suc n) (x ∷ xs) r h = ground (arith, h, has_id-take n xs r)

  has_id-insert_by :
      (x : A) (xs : List A) (r : A)
      → has_id (ids_of (insert_by x xs)) r ≡ has_id (ids_of (x ∷ xs)) r
  has_id-insert_by x [] r = refl
  has_id-insert_by x (y ∷ ys) r = ground (arith, has_id-insert_by x ys r)

  has_id-sort_by : (xs : List A) (r : A) → has_id (ids_of (sort_by xs)) r ≡ has_id (ids_of xs) r
  unfolding sort_by
  has_id-sort_by [] r = refl
  has_id-sort_by (x ∷ xs) r = ground (arith, has_id-sort_by xs r, has_id-insert_by x (sort_by xs) r)

  all_mono :
      (p q : A → Bool) (rows : List A)
      → ((r : A) → p r ≡ true → q r ≡ true)
      → all p rows ≡ true
      → all q rows ≡ true
  all_mono p q [] k h = refl
  all_mono p q (r ∷ rows) k h =
      let ih = all_mono p q rows k (ground (arith, h)) in ground (arith, ih, h, k r)

  -- Where ids are distinct, the ids of the oldest selected rows name selected rows only.
  pub oldest_ids-selected :
      (n : ℕ) (p : A → Bool) (rows : List A)
      → DistinctIds rows
      → all (selected_if_named p (oldest_ids n p rows)) rows ≡ true
  unfolding oldest_ids
  oldest_ids-selected n p rows h =
      let low = filter p rows in
      all_mono (selected_if_named p (ids_of low)) _ rows
        (λ r k. ground (arith, k, has_id-take n (sort_by low) r, has_id-sort_by low r))
        (named_selected p rows h)
