-- ===== src/Reuse/Sound.antt =====
-- Only findings of unchanged files are carried, and none twice.
use pkgsentry_oss.Prelude.{
  ℕ, String, ◌≡◌, refl, sym, ap, all, Bool, true, false, not, ◌&&◌, ◌||◌, some, List, [], ◌∷◌, map,
  arith, filter, any, contains, Dict, str_eq, str_eq→≡, eq_iff, All, Bool-cases, Option-cases, inl,
  inr,
}
use pkgsentry_oss.Adapter.{Finding}
use pkgsentry_oss.Reuse.{
  PastScan, is_empty, norm_path, basename, latest, is_candidate_scan, unchanged, unchanged_paths,
  changed_basenames, safe_basenames, is_matched, key_of, has_key, carry, carry_forward_findings,
}

-- no path twice
abbrev pub DistinctPaths : Dict String → Type 0
DistinctPaths [] = Unit
DistinctPaths (h ∷ hs) = (any (λ k. str_eq k.0 h.0) hs ≡ false) × DistinctPaths hs

-- the key of each finding is neither seen nor that of an earlier one
abbrev pub Fresh : List (String × String) → List Finding → Type 0
Fresh seen [] = Unit
Fresh seen (f ∷ fs) = (has_key seen (key_of f) ≡ false) × Fresh (key_of f ∷ seen) fs

carry-Fresh :
    (matched : Finding → Bool) (seen : List (String × String)) (fs : List Finding)
    → Fresh seen (carry matched seen fs)
unfolding carry
carry-Fresh matched seen [] = tt
carry-Fresh matched seen (f ∷ fs) = elim (Bool-cases (matched f)) [
  | inr e ↦ rw (e, Fresh) (carry-Fresh matched seen fs)
  | inl t ↦ elim (Bool-cases (has_key seen (key_of f))) [
    | inl k ↦ rw (t, k, Fresh) (carry-Fresh matched seen fs)
    | inr n ↦ rw (t, n, Fresh) (n, carry-Fresh matched (key_of f ∷ seen) fs)
  ]
]

All-carry :
    (matched : Finding → Bool) (seen : List (String × String)) (fs : List Finding)
    → All (λ f. matched f ≡ true) (carry matched seen fs)
unfolding carry
All-carry matched seen [] = tt
All-carry matched seen (f ∷ fs) = elim (Bool-cases (matched f)) [
  | inr e ↦ rw (e, All) (All-carry matched seen fs)
  | inl t ↦ elim (Bool-cases (has_key seen (key_of f))) [
    | inl k ↦ rw (t, k, All) (All-carry matched seen fs)
    | inr n ↦ rw (t, n, All) (t, All-carry matched (key_of f ∷ seen) fs)
  ]
]

-- of the current files, only an unchanged one has this path
abbrev pub names_unchanged : Dict String → String → String × String → Bool
names_unchanged prior p h = not (str_eq h.0 p) || unchanged prior h

no_path :
    (prior : Dict String) (p : String) (current : Dict String)
    → any (λ h. str_eq h.0 p) current ≡ false
    → (all (names_unchanged prior p) current ≡ true)
      × (contains (unchanged_paths prior current) p ≡ false)
unfolding unchanged_paths
no_path prior p [] h = (refl, refl)
no_path prior p (x ∷ current) h = ground (arith, h, no_path prior p current)

unchanged_path :
    (prior : Dict String) (p : String) (current : Dict String)
    → DistinctPaths current
    → contains (unchanged_paths prior current) p ≡ true
    → all (names_unchanged prior p) current ≡ true
unfolding unchanged_paths
unchanged_path prior p [] d h = refl
unchanged_path prior p (x ∷ current) d h = elim (Bool-cases (str_eq x.0 p)) [
  | inl t ↦
      let same : x.0 ≡ p = str_eq→≡ x.0 p t in
      let rest = no_path prior p current (rw (sym same) d.0) in ground (arith, h, t, rest)
  | inr f ↦ let ih = unchanged_path prior p current d.1 in ground (arith, h, f, ih)
]

no_changed_base :
    (prior : Dict String) (p : String) (current : Dict String)
    → contains (changed_basenames prior current) (basename p) ≡ false
    → all (names_unchanged prior p) current ≡ true
unfolding changed_basenames
no_changed_base prior p [] h = refl
no_changed_base prior p (x ∷ current) h = elim (Bool-cases (str_eq x.0 p)) [
  | inl t ↦
      let same : x.0 ≡ p = str_eq→≡ x.0 p t in
      let base = ap basename same in
      ground
        (arith, h, t, base, eq_iff (basename x.0) (basename p), no_changed_base prior p current)
  | inr f ↦ ground (arith, h, f, no_changed_base prior p current)
]

contains-filter-not :
    (out : List String) (b : String) (xs : List String)
    → contains (filter (λ x. not (contains out x)) xs) b ≡ true
    → contains out b ≡ false
contains-filter-not out b [] h = cc h
contains-filter-not out b (x ∷ xs) h = elim (Bool-cases (str_eq x b)) [
  | inl t ↦
      let same : x ≡ b = str_eq→≡ x b t in
      let ih = contains-filter-not out b xs in ground (arith, h, t, ap (contains out) same, ih)
  | inr f ↦ let ih = contains-filter-not out b xs in ground (arith, h, f, ih)
]

contains-filter :
    (q : String → Bool) (b : String) (xs : List String)
    → contains (filter q xs) b ≡ true
    → contains xs b ≡ true
contains-filter q b [] h = cc h
contains-filter q b (x ∷ xs) h = ground (arith, h, contains-filter q b xs)

safe_base :
    (prior current : Dict String) (b : String)
    → contains (safe_basenames prior current) b ≡ true
    → contains (changed_basenames prior current) b ≡ false
unfolding safe_basenames
safe_base prior current b h =
    contains-filter-not (changed_basenames prior current) b
      (map basename (unchanged_paths prior current)) h

-- the path is that of an unchanged file, or its basename is that of an unchanged file and of no changed one
abbrev pub rests_on : Dict String → Dict String → String → Bool
rests_on prior current p =
    contains (unchanged_paths prior current) p
    || (contains (map basename (unchanged_paths prior current)) (basename p)
        && not (contains (changed_basenames prior current) (basename p)))

matched-rests_on :
    (prior current : Dict String) (f : Finding)
    → is_matched prior current f ≡ true
    → rests_on prior current (norm_path f.file) ≡ true
unfolding is_matched safe_basenames
matched-rests_on prior current f h =
    let b = basename (norm_path f.file) in
    ground (
      arith,
      h,
      safe_base prior current b,
      contains-filter (λ x. not (contains (changed_basenames prior current) x)) b
          (map basename (unchanged_paths prior current)),
    )

matched_unchanged :
    (prior current : Dict String) (f : Finding)
    → DistinctPaths current
    → is_matched prior current f ≡ true
    → all (names_unchanged prior (norm_path f.file)) current ≡ true
unfolding is_matched
matched_unchanged prior current f d h =
    elim (Bool-cases (contains (unchanged_paths prior current) (norm_path f.file))) [
      | inl t ↦ unchanged_path prior (norm_path f.file) current d t
      | inr e ↦
          no_changed_base prior (norm_path f.file) current
            (safe_base prior current (basename (norm_path f.file)) (ground (arith, h, e)))
    ]

All-mono {ℓ κ} :
    {A : Type ℓ} (P Q : A → Type κ) (xs : List A) → ((x : A) → P x → Q x) → All P xs → All Q xs
All-mono P Q [] k h = tt
All-mono P Q (x ∷ xs) k h = (k x h.0, All-mono P Q xs k h.1)

-- what is carried: nothing, or the loop's result
module _ (days now : ℕ) (scans : List PastScan) (ecosystem name : String) (current_scan_id : ℕ)
    (current : Dict String) (existing : List Finding) where
  -- the findings of a changed file are not carried
  abbrev pub carried : List Finding
  carried = carry_forward_findings days now scans ecosystem name current_scan_id current existing

  -- Where `s` is the scan that is looked up and no path occurs twice in the current scan: no finding is
  -- carried whose path is that of a file of the current scan with another hash than in `s`. Its path is
  -- that of an unchanged file, or else its file name is that of an unchanged file and of no changed one;
  -- then the file itself may be gone.
  pub carried-unchanged :
      (s : PastScan)
      → latest (is_candidate_scan days now ecosystem name current_scan_id) scans ≡ some s
      → DistinctPaths current
      → All
          (λ f.
            (all (names_unchanged s.hashes (norm_path f.file)) current ≡ true)
            × (rests_on s.hashes current (norm_path f.file) ≡ true))
          carried
  unfolding carry_forward_findings
  carried-unchanged s e d =
      elim (Bool-cases (is_empty current || is_empty (unchanged_paths s.hashes current))) [
        | inl t ↦ rw (e, carry_forward_findings) (rw (t, All) tt)
        | inr f ↦
            rw (e, carry_forward_findings)
              (rw (f, All)
                (All-mono _ _ _
                  (λ g m. (
                    matched_unchanged s.hashes current g d m,
                    matched-rests_on s.hashes current g m,
                  ))
                  (All-carry (is_matched s.hashes current) (map key_of existing) s.findings)))
      ]

  -- No finding is carried whose rule and file the current scan has found already, or that was carried
  -- before.
  pub carried-Fresh : Fresh (map key_of existing) carried
  unfolding carry_forward_findings
  carried-Fresh =
      elim (Option-cases
        (latest (is_candidate_scan days now ecosystem name current_scan_id) scans)) [
          | inl e ↦ rw (e, carry_forward_findings) tt
          | inr (s, e) ↦
              elim (Bool-cases (is_empty current || is_empty (unchanged_paths s.hashes current))) [
                | inl t ↦ rw (e, carry_forward_findings) (rw (t, Fresh) tt)
                | inr f ↦
                    rw (e, carry_forward_findings)
                      (rw (f, Fresh)
                        (carry-Fresh (is_matched s.hashes current) (map key_of existing)
                          s.findings))
              ]
        ]
