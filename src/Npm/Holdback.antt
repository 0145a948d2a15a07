-- ===== src/Npm/Holdback.antt =====
-- The npm cursor never passes a package that may still be resolved, and is not held back for ever.
use pkgsentry_oss.Prelude.{
  ℕ, suc, ◌≤◌, ◌<◌, String, ◌≡◌, refl, Bool, true, false, not, ◌||◌, some, List, [], ◌∷◌, arith,
  filter, any, all, contains, Dict, lookup, get_or, lookup-insert, str_eq→≡, leb, max, str_eq,
  nat_eq, eq_iff, Bool-cases, inl, inr, if◌then◌else◌, is_some,
}
use pkgsentry_oss.Npm.{count_attempt, hold_back, minimum, safe_seq, advance}

minimum-le : (q x : ℕ) (xs : List ℕ) → any (λ y. nat_eq y q) (x ∷ xs) ≡ true → minimum x xs ≤ q
minimum-le q x [] h = ground (arith, h)
minimum-le q x (y ∷ ys) h = ground (arith, h, minimum-le q y ys)

safe_seq-lt :
    (q max_seq : ℕ) (seqs : List ℕ)
    → any (λ y. nat_eq y q) seqs ≡ true
    → 0 < q
    → safe_seq seqs max_seq < q
unfolding safe_seq
safe_seq-lt q max_seq [] h p = cc h
safe_seq-lt q max_seq (x ∷ xs) h p = omega (arith, p, minimum-le q x xs h)

safe_seq-le : (max_seq : ℕ) (seqs : List ℕ) → safe_seq seqs max_seq ≤ max_seq
unfolding safe_seq
safe_seq-le max_seq [] = omega arith
safe_seq-le max_seq (x ∷ xs) = omega arith

lookup-count_attempt :
    (m n : String) (attempts : Dict ℕ)
    → lookup n (count_attempt m attempts)
      ≡ (if str_eq m n then some (suc (get_or 0 (lookup m attempts))) else lookup n attempts)
unfolding count_attempt
lookup-count_attempt m n attempts = lookup-insert m n (suc (get_or 0 (lookup m attempts))) attempts

-- a name that is unresolved, with a place in the feed and attempts to spare, holds the cursor back
hold_back-blocks :
    (max_attempts : ℕ) (gated_seq : Dict ℕ) (unresolved : List String) (attempts : Dict ℕ)
    (n : String) (q : ℕ)
    → contains unresolved n ≡ true
    → lookup n gated_seq ≡ some q
    → suc (get_or 0 (lookup n attempts)) < max_attempts
    → any (λ y. nat_eq y q) (hold_back max_attempts gated_seq unresolved attempts).blocker_seqs
      ≡ true
unfolding hold_back
hold_back-blocks max_attempts gated_seq [] attempts n q c s a = cc c
hold_back-blocks max_attempts gated_seq (m ∷ unresolved) attempts n q c s a =
    elim (Bool-cases (str_eq m n)) [
      | inl t ↦
          let same : m ≡ n = str_eq→≡ m n t in
          let seq : lookup m gated_seq ≡ some q = rw same s in
          let few : suc (get_or 0 (lookup m attempts)) < max_attempts = rw same a in
          let left : leb max_attempts (get_or 0 (lookup m (count_attempt m attempts))) ≡ false =
            ground (arith, lookup-count_attempt m m attempts, eq_iff m m, few) in
          rw (left, seq) (ground arith)
      | inr f ↦
          let ih =
            hold_back-blocks max_attempts gated_seq unresolved (count_attempt m attempts) n q
              (ground (arith, c, f)) s (rw (lookup-count_attempt m n attempts, f) a) in
          ground (arith, ih)
    ]

-- the name is among those that the poll could not resolve
abbrev pub unresolved_of : List String → List String → List String
unresolved_of resolved names = filter (λ n. not (contains resolved n)) names

contains-unresolved :
    (resolved names : List String) (n : String)
    → contains names n ≡ true
    → contains resolved n ≡ false
    → contains (unresolved_of resolved names) n ≡ true
contains-unresolved resolved [] n c r = cc c
contains-unresolved resolved (m ∷ names) n c r = elim (Bool-cases (str_eq m n)) [
  | inl t ↦ let same : m ≡ n = str_eq→≡ m n t in rw (same, r) (ground (arith, eq_iff n n))
  | inr f ↦
      let ih = contains-unresolved resolved names n (ground (arith, c, f)) r in ground (arith, ih)
]

-- A gated package that a poll cannot resolve, and that has failed less often than allowed, is still in
-- front of the cursor afterwards: the next poll reads it again.
pub advance-behind :
    (max_attempts attempts_cap cursor max_seq : ℕ) (gated_seq : Dict ℕ)
    (resolved names : List String) (attempts : Dict ℕ) (n : String) (q : ℕ)
    → contains names n ≡ true
    → contains resolved n ≡ false
    → lookup n gated_seq ≡ some q
    → cursor < q
    → suc (get_or 0 (lookup n attempts)) < max_attempts
    → (advance max_attempts attempts_cap cursor max_seq gated_seq resolved names attempts).0 < q
unfolding advance
advance-behind max_attempts attempts_cap cursor max_seq gated_seq resolved names attempts n q c r s
      l a =
    let held = hold_back max_attempts gated_seq (unresolved_of resolved names) attempts in
    let blocked =
      hold_back-blocks max_attempts gated_seq (unresolved_of resolved names) attempts n q
        (contains-unresolved resolved names n c r) s a in
    ground (arith, l, safe_seq-lt q max_seq held.blocker_seqs blocked)

-- The cursor never moves back, and never past the last page that was read.
pub advance-bounds :
    (max_attempts attempts_cap cursor max_seq : ℕ) (gated_seq : Dict ℕ)
    (resolved names : List String) (attempts : Dict ℕ)
    → let new =
        (advance max_attempts attempts_cap cursor max_seq gated_seq resolved names attempts).0 in
      (cursor ≤ new) × (new ≤ max cursor max_seq)
unfolding advance
advance-bounds max_attempts attempts_cap cursor max_seq gated_seq resolved names attempts =
    let held = hold_back max_attempts gated_seq (unresolved_of resolved names) attempts in
    ground (arith, safe_seq-le max_seq held.blocker_seqs)

-- the name can no longer hold the cursor back
abbrev pub is_spent : ℕ → Dict ℕ → Dict ℕ → String → Bool
is_spent max_attempts gated_seq attempts n =
    leb max_attempts (suc (get_or 0 (lookup n attempts))) || not (is_some (lookup n gated_seq))

is_spent-count_attempt :
    (max_attempts : ℕ) (gated_seq attempts : Dict ℕ) (m : String) (names : List String)
    → all (is_spent max_attempts gated_seq attempts) names ≡ true
    → all (is_spent max_attempts gated_seq (count_attempt m attempts)) names ≡ true
is_spent-count_attempt max_attempts gated_seq attempts m [] h = refl
is_spent-count_attempt max_attempts gated_seq attempts m (n ∷ names) h =
    let ih = is_spent-count_attempt max_attempts gated_seq attempts m names (ground (arith, h)) in
    elim (Bool-cases (str_eq m n)) [
      | inl t ↦
          let same : m ≡ n = str_eq→≡ m n t in
          ground (arith, h, ih, same, t, lookup-count_attempt m n attempts)
      | inr f ↦ ground (arith, h, ih, f, lookup-count_attempt m n attempts)
    ]

hold_back-free :
    (max_attempts : ℕ) (gated_seq : Dict ℕ) (unresolved : List String) (attempts : Dict ℕ)
    → all (is_spent max_attempts gated_seq attempts) unresolved ≡ true
    → (hold_back max_attempts gated_seq unresolved attempts).blocker_seqs ≡ []
unfolding hold_back
hold_back-free max_attempts gated_seq [] attempts h = refl
hold_back-free max_attempts gated_seq (n ∷ unresolved) attempts h =
    let ih =
      hold_back-free max_attempts gated_seq unresolved (count_attempt n attempts)
        (is_spent-count_attempt max_attempts gated_seq attempts n unresolved (ground (arith, h))) in
    ground (arith, ih, h, lookup-count_attempt n n attempts, eq_iff n n)

-- When every name that the poll could not resolve is at its last attempt or has no place in the feed, the
-- cursor goes as far as the poll has read, so that deleted packages do not wedge the feed.
pub advance-progress :
    (max_attempts attempts_cap cursor max_seq : ℕ) (gated_seq : Dict ℕ)
    (resolved names : List String) (attempts : Dict ℕ)
    → all (is_spent max_attempts gated_seq attempts) (unresolved_of resolved names) ≡ true
    → (advance max_attempts attempts_cap cursor max_seq gated_seq resolved names attempts).0
      ≡ max cursor max_seq
unfolding advance safe_seq
advance-progress max_attempts attempts_cap cursor max_seq gated_seq resolved names attempts h =
    let free = hold_back-free max_attempts gated_seq (unresolved_of resolved names) attempts h in
    ground (arith, free)
