-- ===== src/Prelude/Lists.antt =====
-- Lists measured by native numbers and searched by Boolean tests.
use Prim.Native.Nat.{ℕ, zero, suc, ◌+◌, ◌≤◌}
use mathlib.Core.Path.{◌≡◌, refl}
use mathlib.Core.Bool.{Bool, true, false, ◌||◌, ◌&&◌}
use mathlib.Core.List.{List, [], ◌∷◌, ◌++◌, map}
use mathlib.Core.Option.{Option, none, some}
use native.Mathlib.Omega.{arith}
use text.Mathlib.TextEquality.{eq_iff}
use pkgsentry_oss.Prelude.Tests.{str_eq, if◌then◌else◌, Bool-cases}
use mathlib.Core.Logic.{inl, inr}
use Prim.Native.String.{String}

module _ {ℓ} {A : Type ℓ} where
  abbrev pub length : List A → ℕ
  length [] = 0
  length (x ∷ xs) = suc (length xs)

  abbrev pub take : ℕ → List A → List A
  take zero xs = []
  take (suc n) [] = []
  take (suc n) (x ∷ xs) = x ∷ take n xs

  -- `[x for x in xs if p(x)]`
  abbrev pub filter : (A → Bool) → List A → List A
  filter p [] = []
  filter p (x ∷ xs) = let rest = filter p xs in if p x then x ∷ rest else rest

  -- `any(p(x) for x in xs)`
  abbrev pub any : (A → Bool) → List A → Bool
  any p [] = false
  any p (x ∷ xs) = p x || any p xs

  abbrev pub all : (A → Bool) → List A → Bool
  all p [] = true
  all p (x ∷ xs) = p x && all p xs

  -- how many elements pass
  abbrev pub count : (A → Bool) → List A → ℕ
  count p [] = 0
  count p (x ∷ xs) = let rest = count p xs in if p x then suc rest else rest

  -- `next(filter(p, xs), None)`
  abbrev pub find? : (A → Bool) → List A → Option A
  find? p [] = none
  find? p (x ∷ xs) = if p x then some x else find? p xs

  abbrev pub All {κ} : (A → Type κ) → List A → Type κ
  All P [] = Unit
  All P (x ∷ xs) = P x × All P xs

  pub length-append : (xs ys : List A) → length (xs ++ ys) ≡ length xs + length ys
  length-append [] ys = omega arith
  length-append (x ∷ xs) ys = omega (arith, length-append xs ys)

  pub count-le-length : (p : A → Bool) (xs : List A) → count p xs ≤ length xs
  count-le-length p [] = omega arith
  count-le-length p (x ∷ xs) = ground (arith, count-le-length p xs)

  pub length-filter : (p : A → Bool) (xs : List A) → length (filter p xs) ≡ count p xs
  length-filter p [] = refl
  length-filter p (x ∷ xs) = ground (arith, length-filter p xs)

module _ {ℓ} {A : Type ℓ} where
  pub All-map :
      (P : A → Type ℓ) (f : A → A) (xs : List A)
      → ((x : A) → P x → P (f x))
      → All P xs
      → All P (map f xs)
  All-map P f [] h k = k
  All-map P f (x ∷ xs) h k = (h x k.0, All-map P f xs h k.1)

  pub All-filter : (P : A → Type ℓ) (p : A → Bool) (xs : List A) → All P xs → All P (filter p xs)
  All-filter P p [] k = k
  All-filter P p (x ∷ xs) k = elim (Bool-cases (p x)) [
    | inl t ↦ rw t (k.0, All-filter P p xs k.1)
    | inr f ↦ rw f (All-filter P p xs k.1)
  ]

  pub All-append_one :
      (P : A → Type ℓ) (xs : List A) (y : A) → All P xs → P y → All P (xs ++ y ∷ [])
  All-append_one P [] y k h = (h, tt)
  All-append_one P (x ∷ xs) y k h = (k.0, All-append_one P xs y k.1 h)

-- `t in xs`
abbrev pub contains : List String → String → Bool
contains xs t = any (λ x. str_eq x t) xs

-- `for t in ys: if t not in xs: xs.append(t)`
unfoldable pub extend_new : List String → List String → List String
extend_new xs [] = xs
extend_new xs (y ∷ ys) = extend_new (if contains xs y then xs else xs ++ y ∷ []) ys

pub any-append {ℓ} :
    {A : Type ℓ} (p : A → Bool) (xs ys : List A) → any p (xs ++ ys) ≡ (any p xs || any p ys)
any-append p [] ys = refl
any-append p (x ∷ xs) ys = ground (arith, any-append p xs ys)

pub contains-extend_new :
    (xs ys : List String) (t : String)
    → contains (extend_new xs ys) t ≡ (contains xs t || contains ys t)
unfolding extend_new
contains-extend_new xs [] t = ground arith
contains-extend_new xs (y ∷ ys) t = ground (
  arith,
  contains-extend_new (if contains xs y then xs else xs ++ y ∷ []) ys t,
  any-append (λ x. str_eq x t) xs (y ∷ []),
  eq_iff y t,
)
