-- ===== src/Reuse.antt =====
-- Findings of an earlier scan carried to the scan of a republished package (pkgward/finding_reuse.py).
-- The database's tables are lists of past scans, each with its file hashes and its findings; times are
-- seconds. An exception of the database, on which the code returns no finding, is left out.
pub mod Sound
use Prim.Native.String.{slice, len}
use text.Mathlib.Text.{starts_with}
use pkgsentry_oss.Prelude.{
  ℕ, zero, suc, ◌+◌, ◌*◌, String, Bool, true, false, not, ◌&&◌, ◌||◌, Option, none, some, List, [],
  ◌∷◌, map, filter, any, contains, Dict, lookup, str_eq, opt_str_eq, nat_eq, leb, if◌then◌else◌,
}
use pkgsentry_oss.Adapter.{Finding}

pub record PastScan : Type 0 where
  pub id : ℕ
  pub ecosystem : String
  pub name : String
  pub finished_at : Option ℕ
  pub hashes : Dict String
  pub findings : List Finding

-- the text without the prefix `package/`
unfoldable pub norm_path : String → String
norm_path p = if starts_with p "package/" then slice p 8 (len p) else p

-- what follows the last slash before byte `i`, or else the whole text
unfoldable pub after_slash : String → ℕ → String
after_slash p zero = p
after_slash p (suc i) =
    let rest = after_slash p i in
    if str_eq (slice p i (suc i)) "/" then slice p (suc i) (len p) else rest

-- `p.rsplit("/", 1)[-1]`
unfoldable pub basename : String → String
unfolding after_slash
basename p = after_slash p (len p)

abbrev pub is_empty {ℓ} : {A : Type ℓ} → List A → Bool
is_empty [] = true
is_empty (x ∷ xs) = false

-- finished within the window, of the package, and not the current scan
unfoldable pub is_candidate_scan : ℕ → ℕ → String → String → ℕ → PastScan → Bool
is_candidate_scan days now ecosystem name current_scan_id s = elim s.finished_at [
  | none ↦ false
  | some t ↦
      str_eq s.ecosystem ecosystem
      && (str_eq s.name name && (not (nat_eq s.id current_scan_id) && leb now (t + days * 86400)))
]

abbrev pub later : PastScan → PastScan → Bool
later s t = elim s.finished_at [
  | none ↦ false
  | some a ↦ elim t.finished_at [ none ↦ true | some b ↦ leb b a ]
]

-- `ORDER BY finished_at DESC LIMIT 1`
unfoldable pub latest : (PastScan → Bool) → List PastScan → Option PastScan
latest p [] = none
latest p (s ∷ scans) =
    let rest = latest p scans in
    if p s
    then elim rest [ none ↦ some s | some t ↦ if later s t then some s else some t ]
    else rest

-- `prior_hashes.get(path) == sha`
unfoldable pub unchanged : Dict String → String × String → Bool
unchanged prior (path, sha) = opt_str_eq (lookup path prior) sha

unfoldable pub unchanged_paths : Dict String → Dict String → List String
unfolding unchanged
unchanged_paths prior current = map (λ h. h.0) (filter (unchanged prior) current)

unfoldable pub changed_basenames : Dict String → Dict String → List String
unfolding unchanged basename
changed_basenames prior current =
    map (λ h. basename h.0) (filter (λ h. not (unchanged prior h)) current)

unfoldable pub safe_basenames : Dict String → Dict String → List String
unfolding unchanged_paths changed_basenames
safe_basenames prior current =
    filter (λ b. not (contains (changed_basenames prior current) b))
      (map basename (unchanged_paths prior current))

-- a finding of a file that has not changed
unfoldable pub is_matched : Dict String → Dict String → Finding → Bool
unfolding safe_basenames norm_path
is_matched prior current f =
    not (str_eq f.file "")
    && (contains (unchanged_paths prior current) (norm_path f.file)
        || contains (safe_basenames prior current) (basename (norm_path f.file)))

abbrev pub key_of : Finding → String × String
key_of f = (f.rule_id, norm_path f.file)

-- `key in seen`
abbrev pub has_key : List (String × String) → String × String → Bool
has_key seen k = any (λ j. str_eq j.0 k.0 && str_eq j.1 k.1) seen

-- the loop over the findings of the prior scan
unfoldable pub carry : (Finding → Bool) → List (String × String) → List Finding → List Finding
unfolding norm_path
carry matched seen [] = []
carry matched seen (f ∷ fs) =
    let taken = carry matched (key_of f ∷ seen) fs in
    let skipped = carry matched seen fs in
    if matched f && not (has_key seen (key_of f)) then f ∷ taken else skipped

unfoldable pub carry_forward_findings :
    ℕ → ℕ → List PastScan → String → String → ℕ → Dict String → List Finding → List Finding
unfolding latest is_candidate_scan is_matched carry
carry_forward_findings days now scans ecosystem name current_scan_id current existing =
    elim (latest (is_candidate_scan days now ecosystem name current_scan_id) scans) [
      | none ↦ []
      | some s ↦
          if is_empty current || is_empty (unchanged_paths s.hashes current)
          then []
          else carry (is_matched s.hashes current) (map key_of existing) s.findings
    ]
