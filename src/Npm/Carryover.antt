-- ===== src/Npm/Carryover.antt =====
-- Which candidates of the npm anomaly check a poll looks at, and which it carries over to the next
-- (`_check_anomalies` in pkgward/ecosystems/npm/ingest/cursor.py). `max_checks` is NPM_ANOMALY_MAX_CHECKS.
use pkgsentry_oss.Prelude.{
  ℕ, zero, suc, ◌+◌, ◌-◌, ◌/◌, ◌≤◌, String, ◌≡◌, refl, Bool, false, not, ◌||◌, List, [], ◌∷◌, ◌++◌,
  arith, filter, contains, length, length-append, take, any-append, str_eq, str_eq→≡, Bool-cases,
  inl, inr,
}

-- `xs[n:]`
abbrev pub drop : ℕ → List String → List String
drop zero xs = xs
drop (suc n) [] = []
drop (suc n) (x ∷ xs) = drop n xs

pub record Split : Type 0 where
  pub names : List String
  pub deferred : List String

-- half of the checks at most go to what was carried over, oldest first
unfoldable pub split_checks : ℕ → List String → List String → Split
split_checks max_checks carried candidates =
    let fresh = filter (λ n. not (contains carried n)) candidates in
    let take_carried = take (max_checks / 2) carried in
    let take_fresh = take (max_checks - length take_carried) fresh in
    record {
      names = take_carried ++ take_fresh;
      deferred = drop (length take_carried) carried ++ drop (length take_fresh) fresh;
    }

length-take : (n : ℕ) (xs : List String) → length (take n xs) ≤ n
length-take zero xs = omega arith
length-take (suc n) [] = omega arith
length-take (suc n) (x ∷ xs) = omega (arith, length-take n xs)

contains-take-drop :
    (n : ℕ) (xs : List String) (t : String)
    → (contains (take n xs) t || contains (drop (length (take n xs)) xs) t) ≡ contains xs t
contains-take-drop zero xs t = refl
contains-take-drop (suc n) [] t = refl
contains-take-drop (suc n) (x ∷ xs) t = ground (arith, contains-take-drop n xs t)

contains-filter-not :
    (out xs : List String) (t : String)
    → (contains out t || contains (filter (λ n. not (contains out n)) xs) t)
      ≡ (contains out t || contains xs t)
contains-filter-not out [] t = refl
contains-filter-not out (x ∷ xs) t = elim (Bool-cases (str_eq x t)) [
  | inl e ↦
      let same : x ≡ t = str_eq→≡ x t e in
      elim (Bool-cases (contains out t)) [
        | inl o ↦ rw o refl
        | inr o ↦ let new : contains out x ≡ false = rw same o in rw (o, new) (ground (arith, e))
      ]
  | inr f ↦ ground (arith, f, contains-filter-not out xs t)
]

-- Every candidate, carried over or fresh, is checked or carried on; nothing else is; and no more than
-- `max_checks` are checked.
pub split_checks-keeps :
    (max_checks : ℕ) (carried candidates : List String) (t : String)
    → let s = split_checks max_checks carried candidates in
      ((contains s.names t || contains s.deferred t)
        ≡ (contains carried t || contains candidates t))
      × (length s.names ≤ max_checks)
unfolding split_checks
split_checks-keeps max_checks carried candidates t =
    let fresh = filter (λ n. not (contains carried n)) candidates in
    let old = take (max_checks / 2) carried in
    let new = take (max_checks - length old) fresh in
    (
      ground (
        arith,
        any-append (λ x. str_eq x t) old new,
        any-append (λ x. str_eq x t) (drop (length old) carried) (drop (length new) fresh),
        contains-take-drop (max_checks / 2) carried t,
        contains-take-drop (max_checks - length old) fresh t,
        contains-filter-not carried candidates t,
      ),
      omega (
        arith,
        length-append old new,
        length-take (max_checks / 2) carried,
        length-take (max_checks - length old) fresh,
      ),
    )

-- `_anomaly_carryover.extend(deferred)` on an empty deque of bounded length: the oldest fall out
unfoldable pub next_carryover : ℕ → ℕ → List String → List String → List String
unfolding split_checks
next_carryover bound max_checks carried candidates =
    let deferred = (split_checks max_checks carried candidates).deferred in
    drop (length deferred - bound) deferred

length-drop : (n : ℕ) (xs : List String) → length (drop n xs) ≤ length xs
length-drop zero xs = omega arith
length-drop (suc n) [] = omega arith
length-drop (suc n) (x ∷ xs) = omega (arith, length-drop n xs)

length-filter_le : (p : String → Bool) (xs : List String) → length (filter p xs) ≤ length xs
length-filter_le p [] = omega arith
length-filter_le p (x ∷ xs) = ground (arith, length-filter_le p xs)

length-deferred :
    (max_checks : ℕ) (carried candidates : List String)
    → length (split_checks max_checks carried candidates).deferred
      ≤ length carried + length candidates
unfolding split_checks
length-deferred max_checks carried candidates =
    let fresh = filter (λ n. not (contains carried n)) candidates in
    let old = take (max_checks / 2) carried in
    let new = take (max_checks - length old) fresh in
    omega (
      arith,
      length-append (drop (length old) carried) (drop (length new) fresh),
      length-drop (length old) carried,
      length-drop (length new) fresh,
      length-filter_le (λ n. not (contains carried n)) candidates,
    )

-- While the carried-over names and the candidates fit the bound of the deque together, each of them is
-- checked in this poll or carried over to the next.
pub next_carryover-keeps :
    (bound max_checks : ℕ) (carried candidates : List String) (t : String)
    → length carried + length candidates ≤ bound
    → (contains (split_checks max_checks carried candidates).names t
        || contains (next_carryover bound max_checks carried candidates) t)
      ≡ (contains carried t || contains candidates t)
unfolding next_carryover
next_carryover-keeps bound max_checks carried candidates t h =
    let deferred = (split_checks max_checks carried candidates).deferred in
    let fits : length deferred - bound ≡ 0 =
      omega (arith, h, length-deferred max_checks carried candidates) in
    rw fits (split_checks-keeps max_checks carried candidates t).0
