-- ===== src/Detect/Buckets.antt =====
-- The score as a sum over buckets, each capped.
use mathlib.Core.Path.{fun_ext}
use pkgsentry_oss.Prelude.{
  Bool-cases, inl, inr, ap, ◌∙◌, ℕ, ◌+◌, ◌*◌, ◌≤◌, String, false, ◌≡◌, refl, List, [], ◌∷◌, ◌++◌,
  map, arith, eq_iff, Dict, lookup, insert, get_or, lookup-insert, contains, extend_new, str_eq,
  min, if◌then◌else◌, length,
}
use pkgsentry_oss.Adapter.{Finding}
use pkgsentry_oss.Intel.{IntelPack}
use pkgsentry_oss.Detect.{
  severity_points, category_cap, bucket, add_points, add_findings, sum_values, raw_score,
}

-- the points that a bucket holds
abbrev pub held : String → Dict ℕ → ℕ
held k d = get_or 0 (lookup k d)

-- all the points that findings put into a bucket, with no cap
abbrev pub points : IntelPack → String → List Finding → ℕ
points pack k [] = 0
points pack k (f ∷ fs) =
    let rest = points pack k fs in
    if str_eq (bucket f) k then severity_points pack f.severity + rest else rest

-- the buckets of the findings, each once
abbrev pub buckets : List Finding → List String
buckets fs = extend_new [] (map bucket fs)

-- the sum of `f` over texts
abbrev pub sum_over : (String → ℕ) → List String → ℕ
sum_over f [] = 0
sum_over f (k ∷ ks) = f k + sum_over f ks

abbrev keys : Dict ℕ → List String
keys d = map (λ (k, v). k) d

pub held-add_points :
    (cap : ℕ) (k j : String) (p : ℕ) (d : Dict ℕ)
    → held j (add_points cap k p d) ≡ (if str_eq k j then min (held k d + p) cap else held j d)
unfolding add_points
held-add_points cap k j p d = ground (arith, lookup-insert k j (min (held k d + p) cap) d)

-- Only the bucket that the points go to changes the sum.
pub sum_values-insert :
    (k : String) (v : ℕ) (d : Dict ℕ) → sum_values (insert k v d) + held k d ≡ sum_values d + v
unfolding sum_values
sum_values-insert k v [] = omega arith
sum_values-insert k v ((j, w) ∷ d) = ground (arith, sum_values-insert k v d)

pub sum_values-add_points :
    (cap : ℕ) (k : String) (p : ℕ) (d : Dict ℕ)
    → sum_values (add_points cap k p d) + held k d ≡ sum_values d + min (held k d + p) cap
unfolding add_points
sum_values-add_points cap k p d = sum_values-insert k (min (held k d + p) cap) d

-- After the loop a bucket holds its points, up to the cap.
pub held-add_findings :
    (pack : IntelPack) (fs : List Finding) (d : Dict ℕ) (k : String)
    → held k d ≤ category_cap pack
    → held k (add_findings pack fs d) ≡ min (held k d + points pack k fs) (category_cap pack)
unfolding add_findings
held-add_findings pack [] d k h = omega arith
held-add_findings pack (f ∷ fs) d k h = ground (
  arith,
  held-add_points (category_cap pack) (bucket f) k (severity_points pack f.severity) d,
  held-add_findings pack fs
      (add_points (category_cap pack) (bucket f) (severity_points pack f.severity) d) k,
  eq_iff (bucket f) k,
)

-- Rows with distinct keys are what the dict returns for the keys.
abbrev Fresh : String → Dict ℕ → Type 0
Fresh k [] = Unit
Fresh k ((j, v) ∷ d) = (str_eq j k ≡ false) × Fresh k d

abbrev IsDict : Dict ℕ → Type 0
IsDict [] = Unit
IsDict ((k, v) ∷ d) = Fresh k d × IsDict d

Fresh-insert :
    (j k : String) (v : ℕ) (d : Dict ℕ) → str_eq k j ≡ false → Fresh j d → Fresh j (insert k v d)
Fresh-insert j k v [] h fr = (h, tt)
Fresh-insert j k v ((i, w) ∷ d) h (ne, fr) = ground (arith, Fresh-insert j k v d h fr)

IsDict-insert : (k : String) (v : ℕ) (d : Dict ℕ) → IsDict d → IsDict (insert k v d)
IsDict-insert k v [] h = (tt, tt)
IsDict-insert k v ((j, w) ∷ d) (fr, h) = elim (Bool-cases (str_eq j k)) [
  | inl same ↦ rw same (fr, h)
  | inr other ↦
      rw other
        (Fresh-insert j k v d (ground (arith, eq_iff j k, eq_iff k j)) fr, IsDict-insert k v d h)
]

IsDict-add_findings :
    (pack : IntelPack) (fs : List Finding) (d : Dict ℕ) → IsDict d → IsDict (add_findings pack fs d)
unfolding add_findings add_points
IsDict-add_findings pack [] d h = h
IsDict-add_findings pack (f ∷ fs) d h =
    IsDict-add_findings pack fs _ (IsDict-insert (bucket f) _ d h)

held_tail :
    (j : String) (v : ℕ) (e d : Dict ℕ)
    → Fresh j d
    → sum_over (λ k. held k ((j, v) ∷ e)) (keys d) ≡ sum_over (λ k. held k e) (keys d)
held_tail j v e [] h = refl
held_tail j v e ((i, w) ∷ d) (ne, fr) = ground (arith, held_tail j v e d fr, eq_iff i j, eq_iff j i)

sum_values_lem : (d : Dict ℕ) → IsDict d → sum_values d ≡ sum_over (λ k. held k d) (keys d)
unfolding sum_values
sum_values_lem [] h = refl
sum_values_lem ((j, v) ∷ d) (fr, h) =
    ground (arith, sum_values_lem d h, held_tail j v d d fr, eq_iff j j)

keys-insert :
    (k : String) (v : ℕ) (d : Dict ℕ)
    → keys (insert k v d) ≡ (if contains (keys d) k then keys d else keys d ++ k ∷ [])
keys-insert k v [] = refl
keys-insert k v ((j, w) ∷ d) = ground (arith, keys-insert k v d)

keys-add_findings :
    (pack : IntelPack) (fs : List Finding) (d : Dict ℕ)
    → keys (add_findings pack fs d) ≡ extend_new (keys d) (map bucket fs)
unfolding add_findings add_points extend_new
keys-add_findings pack [] d = refl
keys-add_findings pack (f ∷ fs) d =
    keys-add_findings pack fs _
    ∙ ap (λ ks. extend_new ks (map bucket fs))
        (keys-insert (bucket f)
          (min (held (bucket f) d + severity_points pack f.severity) (category_cap pack)) d)

-- The score is the sum, over the buckets that the findings fall into, of each bucket's points, capped.
pub raw_score-eq-sum_over :
    (pack : IntelPack) (fs : List Finding)
    → raw_score pack fs ≡ sum_over (λ k. min (points pack k fs) (category_cap pack)) (buckets fs)
unfolding raw_score
raw_score-eq-sum_over pack fs =
    sum_values_lem (add_findings pack fs []) (IsDict-add_findings pack fs [] tt)
    ∙ ap (sum_over (λ k. held k (add_findings pack fs []))) (keys-add_findings pack fs [])
    ∙ ap (λ g. sum_over g (buckets fs))
        (fun_ext λ k. omega (arith, held-add_findings pack fs [] k (omega arith)))

sum_over-le :
    (c : ℕ) (f : String → ℕ) (ks : List String)
    → ((k : String) → f k ≤ c)
    → sum_over f ks ≤ c * length ks
sum_over-le c f [] h = omega arith
sum_over-le c f (k ∷ ks) h = grind (arith, h k, sum_over-le c f ks h)

-- The score is at most the cap for each bucket that the findings fall into.
pub raw_score-le :
    (pack : IntelPack) (fs : List Finding)
    → raw_score pack fs ≤ category_cap pack * length (buckets fs)
raw_score-le pack fs =
    rw raw_score-eq-sum_over (sum_over-le (category_cap pack) _ (buckets fs) (λ k. omega arith))
