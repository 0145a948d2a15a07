-- ===== src/Detect/Order.antt =====
-- The score and the verdict do not depend on the order of the findings.
use mathlib.Core.List.{Perm, Permᴰ}
use mathlib.Core.Logic.{∥∥₁_elim, ∥∥₁_map}
use mathlib.Core.Path.{subst}
use mathlib.Core.List.Permᴰ
use native.Mathlib.Nat.{ℕ_set}
use pkgsentry_oss.Prelude.{
  ℕ, String, Bool, true, false, ◌≡◌, refl, ◌∙◌, ap, List, [], ◌∷◌, arith, eq_iff, Dict,
  if◌then◌else◌, filter, any,
}
use pkgsentry_oss.Adapter.{Finding}
use pkgsentry_oss.Intel.{IntelPack}
use pkgsentry_oss.Detect.{
  severity_points, category_cap, bucket, add_points, add_findings, sum_values, raw_score,
}
use pkgsentry_oss.Detect.Buckets.{held, held-add_points, sum_values-add_points}

Bool-set : IsSet Bool
Bool-set = hlevel

-- two dicts that hold the same points, in whatever order
record SameDict (d e : Dict ℕ) : Type 0 where
  same_held : (k : String) → held k d ≡ held k e
  same_sum : sum_values d ≡ sum_values e

SameDict-refl : (d : Dict ℕ) → SameDict d d
SameDict-refl d = record { same_held = λ k. refl; same_sum = refl }

SameDict-add_points :
    (cap : ℕ) (k : String) (p : ℕ) (d e : Dict ℕ)
    → SameDict d e
    → SameDict (add_points cap k p d) (add_points cap k p e)
SameDict-add_points cap k p d e h = record {
  same_held = λ j. ground (
    arith,
    held-add_points cap k j p d,
    held-add_points cap k j p e,
    h.same_held k,
    h.same_held j,
  );
  same_sum = omega (
    arith,
    sum_values-add_points cap k p d,
    sum_values-add_points cap k p e,
    h.same_held k,
    h.same_sum,
  );
}

SameDict-swap :
    (cap : ℕ) (k j : String) (p q : ℕ) (d : Dict ℕ)
    → SameDict
        (add_points cap k p (add_points cap j q d))
        (add_points cap j q (add_points cap k p d))
SameDict-swap cap k j p q d = record {
  same_held = λ i. ground (
    arith,
    held-add_points cap k i p (add_points cap j q d),
    held-add_points cap j k q d,
    held-add_points cap j i q (add_points cap k p d),
    held-add_points cap k j p d,
    held-add_points cap j i q d,
    held-add_points cap k i p d,
    eq_iff k j,
    eq_iff k i,
    eq_iff j i,
    eq_iff j k,
  );
  same_sum = ground (
    arith,
    sum_values-add_points cap k p (add_points cap j q d),
    sum_values-add_points cap j q (add_points cap k p d),
    sum_values-add_points cap j q d,
    sum_values-add_points cap k p d,
    held-add_points cap j k q d,
    held-add_points cap k j p d,
    eq_iff k j,
    eq_iff j k,
  );
}

module _ (pack : IntelPack) where
  abbrev add : Finding → Dict ℕ → Dict ℕ
  add f d = add_points (category_cap pack) (bucket f) (severity_points pack f.severity) d

  sum-add_findings :
      (fs : List Finding) (d e : Dict ℕ)
      → SameDict d e
      → sum_values (add_findings pack fs d) ≡ sum_values (add_findings pack fs e)
  unfolding add_findings
  sum-add_findings [] d e h = h.same_sum
  sum-add_findings (f ∷ fs) d e h =
      sum-add_findings fs (add f d) (add f e) (SameDict-add_points _ _ _ d e h)

  sum-add_findings-perm :
      {fs gs : List Finding}
      → Permᴰ fs gs
      → (d : Dict ℕ) → sum_values (add_findings pack fs d) ≡ sum_values (add_findings pack gs d)
  unfolding add_findings
  sum-add_findings-perm Permᴰ.nil d = refl
  sum-add_findings-perm (Permᴰ.cons {a = a} {l₂ = gs} e p) d =
      sum-add_findings-perm p (add a d) ∙ ap (λ f. sum_values (add_findings pack gs (add f d))) e
  sum-add_findings-perm (Permᴰ.swap {a = a} {b = b} {b' = b'} {l = l} e e') d =
      sum-add_findings l (add b (add a d)) (add a (add b d)) (SameDict-swap _ _ _ _ _ d)
      ∙ ap (λ f. sum_values (add_findings pack l (add f (add b d)))) e
      ∙ ap (λ f. sum_values (add_findings pack l (add b' (add f d)))) e'
  sum-add_findings-perm (Permᴰ.trans p q) d = sum-add_findings-perm p d ∙ sum-add_findings-perm q d

  pub raw_score-perm : {fs gs : List Finding} → Perm fs gs → raw_score pack fs ≡ raw_score pack gs
  unfolding raw_score
  raw_score-perm p = ∥∥₁_elim p (ℕ_set _ _) (λ q. sum-add_findings-perm q [])

module _ {ℓ} {A : Type ℓ} (p : A → Bool) where
  filter_cons :
      (xs ys : List A) {a b : A}
      → a ≡ b
      → Permᴰ (filter p xs) (filter p ys)
      → Permᴰ (filter p (a ∷ xs)) (filter p (b ∷ ys))
  filter_cons xs ys {a} {b} e h =
      subst (λ (c : A). Permᴰ (filter p (a ∷ xs)) (filter p (c ∷ ys))) e (go (p a))
    where
      go :
          (t : Bool)
          → Permᴰ
              (if t then a ∷ filter p xs else filter p xs)
              (if t then a ∷ filter p ys else filter p ys)
      go true = Permᴰ.cons refl h
      go false = h

  filter_swap : (a b : A) (l : List A) → Permᴰ (filter p (a ∷ b ∷ l)) (filter p (b ∷ a ∷ l))
  filter_swap a b l = go (p a) (p b)
    where
      go :
          (s t : Bool)
          → Permᴰ
              (if s
                then a ∷ (if t then b ∷ filter p l else filter p l)
                else if t
                then b ∷ filter p l
                else filter p l)
              (if t
                then b ∷ (if s then a ∷ filter p l else filter p l)
                else if s
                then a ∷ filter p l
                else filter p l)
      go true true = Permᴰ.swap refl refl
      go _ _ = Permᴰ.refl _

  filter-permᴰ : {xs ys : List A} → Permᴰ xs ys → Permᴰ (filter p xs) (filter p ys)
  filter-permᴰ Permᴰ.nil = Permᴰ.nil
  filter-permᴰ (Permᴰ.cons {l₁ = xs} {l₂ = ys} e h) = filter_cons xs ys e (filter-permᴰ h)
  filter-permᴰ (Permᴰ.swap {a = a} {b = b} {b' = b'} {l = l} e e') =
      Permᴰ.trans (filter_swap a b l)
        (filter_cons (a ∷ l) (b' ∷ l) e' (filter_cons l l e (Permᴰ.refl (filter p l))))
  filter-permᴰ (Permᴰ.trans h k) = Permᴰ.trans (filter-permᴰ h) (filter-permᴰ k)

  pub filter-perm : {xs ys : List A} → Perm xs ys → Perm (filter p xs) (filter p ys)
  filter-perm h = ∥∥₁_map h filter-permᴰ

  any-permᴰ : {xs ys : List A} → Permᴰ xs ys → any p xs ≡ any p ys
  any-permᴰ Permᴰ.nil = refl
  any-permᴰ (Permᴰ.cons e h) = cc (any-permᴰ h, e)
  any-permᴰ (Permᴰ.swap {a = a} {b = b} e e') = ground (arith, e, e')
  any-permᴰ (Permᴰ.trans h k) = any-permᴰ h ∙ any-permᴰ k

  pub any-perm : {xs ys : List A} → Perm xs ys → any p xs ≡ any p ys
  any-perm h = ∥∥₁_elim h (Bool-set _ _) any-permᴰ
