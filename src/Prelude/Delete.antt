-- ===== src/Prelude/Delete.antt =====
-- Deleting the oldest rows that a condition selects.
use Prim.Native.Nat.{ℕ, ◌-◌, ◌≤◌}
use mathlib.Core.Path.{◌≡◌, refl, ap}
use mathlib.Core.Logic.{inl, inr}
use mathlib.Core.Bool.{Bool, true, false, not, ◌&&◌, ◌||◌}
use mathlib.Core.List.{List, [], ◌∷◌}
use native.Mathlib.Omega.{arith}
use pkgsentry_oss.Prelude.Tests.{nat_eq, Bool-cases}
use pkgsentry_oss.Prelude.Lists.{filter, any, all, count}
use pkgsentry_oss.Prelude.Evict.{
  has_id, oldest_ids, DistinctIds, count_le, count-filter, count-oldest_ids, oldest_ids-selected,
}

module _ {ℓ} {A : Type ℓ} (id age : A → ℕ) where
  -- `DELETE … WHERE id IN (SELECT id … ORDER BY age LIMIT n)`
  abbrev pub delete_oldest : ℕ → (A → Bool) → List A → List A
  delete_oldest n p rows = filter (λ r. not (has_id id age (oldest_ids id age n p rows) r)) rows

  pub count-delete_oldest :
      (n : ℕ) (p : A → Bool) (rows : List A) → count p (delete_oldest n p rows) ≤ count p rows - n
  count-delete_oldest n p rows =
      let gone = has_id id age (oldest_ids id age n p rows) in
      let kept = count-filter id age p (λ r. not (gone r)) rows in
      let swap =
        count_le id age (λ r. not (gone r) && p r) (λ r. p r && not (gone r)) rows
          λ r h. ground (arith, h) in
      omega (arith, kept, swap, count-oldest_ids id age n p rows)

  pub count-filter-le : (p q : A → Bool) (rows : List A) → count p (filter q rows) ≤ count p rows
  count-filter-le p q [] = omega arith
  count-filter-le p q (r ∷ rows) = ground (arith, count-filter-le p q rows)

  filter-filter-not :
      (p gone : A → Bool) (rows : List A)
      → all (λ r. not (gone r) || p r) rows ≡ true
      → filter (λ r. not (p r)) (filter (λ r. not (gone r)) rows) ≡ filter (λ r. not (p r)) rows
  filter-filter-not p gone [] h = refl
  filter-filter-not p gone (r ∷ rows) h =
      let ih = filter-filter-not p gone rows (ground (arith, h)) in
      elim (Bool-cases (gone r)) [
        | inl y ↦ let mine : p r ≡ true = ground (arith, h, y) in rw (y, mine) ih
        | inr f ↦
            rw f (elim (Bool-cases (p r)) [ inl y ↦ rw y ih | inr n ↦ rw n (ap (λ rs. r ∷ rs) ih) ])
      ]

  -- Where ids are distinct, the rows that are not selected stay.
  pub delete_oldest-others :
      (n : ℕ) (p : A → Bool) (rows : List A)
      → DistinctIds id age rows
      → filter (λ r. not (p r)) (delete_oldest n p rows) ≡ filter (λ r. not (p r)) rows
  delete_oldest-others n p rows h =
      filter-filter-not p (has_id id age (oldest_ids id age n p rows)) rows
        (oldest_ids-selected id age n p rows h)

  any-filter-false :
      (q p : A → Bool) (rows : List A) → any q rows ≡ false → any q (filter p rows) ≡ false
  any-filter-false q p [] h = refl
  any-filter-false q p (r ∷ rows) h = ground (arith, h, any-filter-false q p rows)

  pub DistinctIds-filter :
      (p : A → Bool) (rows : List A) → DistinctIds id age rows → DistinctIds id age (filter p rows)
  DistinctIds-filter p [] h = tt
  DistinctIds-filter p (r ∷ rows) (d, h) = elim (Bool-cases (p r)) [
    | inl t ↦
        rw (t, DistinctIds)
          (any-filter-false (λ s. nat_eq (id s) (id r)) p rows d, DistinctIds-filter p rows h)
    | inr f ↦ rw (f, DistinctIds) (DistinctIds-filter p rows h)
  ]
