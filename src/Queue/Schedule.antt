-- ===== src/Queue/Schedule.antt =====
-- `_eco_weights` and `_weighted_order` (pkgward/queue.py): in which order the ecosystems are tried.
-- A fraction is given in percent, and the weights of n ecosystems with `total` pending rows are given
-- in units of 1 / (100 * n * total), in which every weight of the source is a whole number.
-- `random.choices` is the parameter `pick`.
use pkgsentry_oss.Prelude.{
  ℕ, zero, suc, ◌+◌, ◌-◌, ◌*◌, ◌≤◌, ◌<◌, String, ◌≡◌, false, not, List, [], ◌∷◌, map, filter, arith,
  eq_iff, min, max, str_eq, leb, get_or, lookup, Dict, length, if◌then◌else◌, count, All,
}

-- `sum(counts.get(e, 0) for e in ecosystems)`
abbrev pub sum_counts : Dict ℕ → List String → ℕ
sum_counts counts [] = 0
sum_counts counts (e ∷ es) = get_or 0 (lookup e counts) + sum_counts counts es

-- `sum(…) or 1`
abbrev pub total_of : Dict ℕ → List String → ℕ
total_of counts es = max (sum_counts counts es) 1

abbrev pub eco_weight : ℕ → ℕ → ℕ → ℕ → ℕ → ℕ
eco_weight reserved max_share n total c =
    min (reserved * total + (100 - reserved) * c * n)
      (max (reserved * total) (max_share * n * total))

-- `reserved_pct` and `max_pct` are SCHED_RESERVED_FRACTION and SCHED_MAX_ECO_SHARE in percent.
unfoldable pub eco_weights : ℕ → ℕ → List String → Dict ℕ → List ℕ
eco_weights reserved_pct max_pct es counts =
    let n = length es in
    let total = total_of counts es in
    if leb n 1
    then map (λ e. 100 * n * total) es
    else map
        (λ e.
          eco_weight (min reserved_pct 100) (min max_pct 100) n total (get_or 0 (lookup e counts)))
        es

abbrev pub WithinShares : ℕ → ℕ → ℕ → ℕ → ℕ → Type 0
WithinShares reserved max_share n total w =
    (reserved * total ≤ w) × (w ≤ max (reserved * total) (max_share * n * total))

shares_of_map :
    (reserved max_share n total : ℕ) (counts : Dict ℕ) (es : List String)
    → All
        (WithinShares reserved max_share n total)
        (map (λ e. eco_weight reserved max_share n total (get_or 0 (lookup e counts))) es)
shares_of_map reserved max_share n total counts [] = tt
shares_of_map reserved max_share n total counts (e ∷ es) =
    ((omega arith, omega arith), shares_of_map reserved max_share n total counts es)

-- With two ecosystems or more no weight is below an equal part of the reserved share, so none starves,
-- and none is above the larger of that part and the maximal share.
pub eco_weights-WithinShares :
    (reserved_pct max_pct : ℕ) (es : List String) (counts : Dict ℕ)
    → 1 < length es
    → All
        (WithinShares (min reserved_pct 100) (min max_pct 100) (length es) (total_of counts es))
        (eco_weights reserved_pct max_pct es counts)
unfolding eco_weights
eco_weights-WithinShares reserved_pct max_pct es counts h =
    rw (many (length es) h) (shares_of_map _ _ _ _ counts es)
  where
    many : (n : ℕ) → 1 < n → leb n 1 ≡ false
    many n k = ground arith

-- one round: the pick, and what it leaves
unfoldable pub weighted_order : (List (String × ℕ) → String) → ℕ → List (String × ℕ) → List String
weighted_order pick zero remaining = []
weighted_order pick (suc fuel) [] = []
weighted_order pick (suc fuel) (x ∷ xs) =
    pick (x ∷ xs)
    ∷ weighted_order pick fuel (filter (λ (e, w). not (str_eq e (pick (x ∷ xs)))) (x ∷ xs))

-- how often an ecosystem stands in the list
abbrev pub occurs : String → List String → ℕ
occurs e es = count (λ k. str_eq k e) es

abbrev pub occurs_pair : String → List (String × ℕ) → ℕ
occurs_pair e xs = count (λ (k, w). str_eq k e) xs

-- `random.choices` returns one of the ecosystems that it is given.
abbrev pub PicksMember : (List (String × ℕ) → String) → Type 0
PicksMember pick =
    (x : String × ℕ) (xs : List (String × ℕ)) → 0 < occurs_pair (pick (x ∷ xs)) (x ∷ xs)

without_length :
    (c : String) (xs : List (String × ℕ))
    → length (filter (λ (e, w). not (str_eq e c)) xs) + occurs_pair c xs ≡ length xs
without_length c [] = omega arith
without_length c ((k, w) ∷ xs) = ground (arith, without_length c xs)

without_occurs :
    (c e : String) (xs : List (String × ℕ))
    → occurs_pair e (filter (λ (k, w). not (str_eq k c)) xs)
      ≡ (if str_eq c e then 0 else occurs_pair e xs)
without_occurs c e [] = ground arith
without_occurs c e ((k, w) ∷ xs) =
    ground (arith, without_occurs c e xs, eq_iff k c, eq_iff c e, eq_iff k e)

-- The try-list holds each ecosystem once, whatever is picked, and no other.
pub weighted_order_lem :
    (pick : List (String × ℕ) → String) (fuel : ℕ) (xs : List (String × ℕ)) (e : String)
    → PicksMember pick
    → length xs ≤ fuel
    → occurs e (weighted_order pick fuel xs) ≡ min 1 (occurs_pair e xs)
unfolding weighted_order
weighted_order_lem pick zero [] e member h = omega arith
weighted_order_lem pick zero (x ∷ xs) e member h = absurd (omega arith)
weighted_order_lem pick (suc fuel) [] e member h = omega arith
weighted_order_lem pick (suc fuel) (x ∷ xs) e member h =
    let c = pick (x ∷ xs) in
    let rest = filter (λ (k, w). not (str_eq k c)) (x ∷ xs) in
    let fewer : length rest ≤ fuel = omega (arith, member x xs, without_length c (x ∷ xs)) in
    let ih = weighted_order_lem pick fuel rest e member fewer in
    ground (arith, ih, member x xs, without_occurs c e (x ∷ xs), eq_iff c e)
