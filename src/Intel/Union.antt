-- ===== src/Intel/Union.antt =====
-- What `IntelPack.merge` keeps and replaces.
use pkgsentry_oss.Prelude.{
  not, ◌++◌, if◌then◌else◌, ℕ, String, ◌≡◌, refl, Bool, true, false, ◌||◌, ◌&&◌, not, List, [], ◌∷◌,
  ◌++◌, Option, none, some, arith, eq_iff, Dict, lookup, insert, get_or, lookup-insert, contains,
  count, ltb, min, ◌+◌, extend_new, contains-extend_new, str_eq, if◌then◌else◌,
}
use pkgsentry_oss.Intel.{
  update_prompts, IntelPack, sha_of, truthy, seen_sha, merge_hashes, update, merge_lists, merge,
}

-- the texts of a category
abbrev pub texts : String → Dict (List String) → List String
texts cat m = get_or [] (lookup cat m)

-- whether a category of the dict names the text
abbrev pub names : Dict (List String) → String → String → Bool
names m cat t = contains (texts cat m) t

-- the union of a dict's rows for a category, which are one row at most
abbrev pub row_names : Dict (List String) → String → String → Bool
row_names [] cat t = false
row_names ((c, ts) ∷ o) cat t = (str_eq c cat && contains ts t) || row_names o cat t

names_step :
    (m : Dict (List String)) (c cat t : String) (ts : List String)
    → names (insert c (extend_new (texts c m) ts) m) cat t
      ≡ (names m cat t || (str_eq c cat && contains ts t))
names_step m c cat t ts = ground (
  arith,
  lookup-insert c cat (extend_new (texts c m) ts) m,
  eq_iff c cat,
  contains-extend_new (texts c m) ts t,
)

-- A text is listed under a category of the merged dict exactly if either dict lists it there.
pub names-merge_lists :
    (m o : Dict (List String)) (cat t : String)
    → names (merge_lists m o) cat t ≡ (names m cat t || row_names o cat t)
unfolding merge_lists
names-merge_lists m [] cat t = ground arith
names-merge_lists m ((c, ts) ∷ o) cat t = ground (
  arith,
  names-merge_lists (insert c (extend_new (texts c m) ts) m) o cat t,
  names_step m c cat t ts,
)

-- The keys of a dict are distinct.
abbrev pub Distinct {ℓ} : {V : Type ℓ} → Dict V → Type ℓ
Distinct [] = Unit
Distinct ((k, v) ∷ d) = (lookup k d ≡ none) × Distinct d

-- the overlay's value, or else the own one
abbrev pub or_else {ℓ} : {V : Type ℓ} → Option V → Option V → Option V
or_else none w = w
or_else (some v) w = some v

pub lookup-update {ℓ} :
    {V : Type ℓ} (m o : Dict V) (k : String)
    → Distinct o
    → lookup k (update m o) ≡ or_else (lookup k o) (lookup k m)
unfolding update
lookup-update m [] k d = refl
lookup-update m ((j, v) ∷ o) k (fresh, d) =
    ground (arith, lookup-update (insert j v m) o k d, lookup-insert j k v m, eq_iff j k)

-- an empty prompt counts as none
abbrev pub non_empty : Option String → Option String
non_empty none = none
non_empty (some v) = if truthy v then some v else none

lookup-update_prompts :
    (m o : Dict String) (k : String)
    → Distinct o
    → lookup k (update_prompts m o) ≡ or_else (non_empty (lookup k o)) (lookup k m)
unfolding update_prompts
lookup-update_prompts m [] k d = refl
lookup-update_prompts m ((j, v) ∷ o) k (fresh, d) = ground (
  arith,
  lookup-update_prompts (if truthy v then insert j v m else m) o k d,
  lookup-insert j k v m,
  eq_iff j k,
  eq_iff v "",
)

-- how many seeds carry the checksum
abbrev pub seeds_with : String → List (Dict String) → ℕ
seeds_with s hs = count (λ h. str_eq (sha_of h) s) hs

contains-seen_sha :
    (hs : List (Dict String)) (s : String)
    → truthy s ≡ true
    → contains (seen_sha hs) s ≡ ltb 0 (seeds_with s hs)
unfolding seen_sha
contains-seen_sha [] s h = refl
contains-seen_sha (x ∷ hs) s h =
    ground (arith, contains-seen_sha hs s h, eq_iff (sha_of x) s, eq_iff (sha_of x) "", eq_iff s "")

count-append {ℓ} :
    {A : Type ℓ} (p : A → Bool) (xs ys : List A) → count p (xs ++ ys) ≡ count p xs + count p ys
count-append p [] ys = omega arith
count-append p (x ∷ xs) ys = ground (arith, count-append p xs ys)

seeds_with-merge_hashes :
    (seen : List String) (merged hs : List (Dict String)) (s : String)
    → truthy s ≡ true
    → seeds_with s (merge_hashes seen merged hs)
      ≡ seeds_with s merged + (if contains seen s then 0 else min 1 (seeds_with s hs))
unfolding merge_hashes
seeds_with-merge_hashes seen merged [] s t = ground arith
seeds_with-merge_hashes seen merged (h ∷ hs) s t = ground (
  arith,
  seeds_with-merge_hashes
      (if truthy (sha_of h) && not (truthy (sha_of h) && contains seen (sha_of h))
        then sha_of h ∷ seen
        else seen)
      (if truthy (sha_of h) && contains seen (sha_of h) then merged else merged ++ h ∷ []) hs s t,
  count-append (λ (x : Dict String). str_eq (sha_of x) s) merged (h ∷ []),
  eq_iff (sha_of h) s,
  eq_iff (sha_of h) "",
)

-- The number of merged seeds that carry a checksum: as many as the baseline has, and if it has none,
-- one if any overlay seed carries it, however many do.
pub merge-hash_seeds :
    (base overlay : IntelPack) (s : String)
    → truthy s ≡ true
    → seeds_with s (merge base overlay).hash_seeds ≡ (
        if ltb 0 (seeds_with s base.hash_seeds)
        then seeds_with s base.hash_seeds
        else min 1 (seeds_with s overlay.hash_seeds))
unfolding merge
merge-hash_seeds base overlay s t = ground (
  arith,
  contains-seen_sha base.hash_seeds s t,
  seeds_with-merge_hashes (seen_sha base.hash_seeds) base.hash_seeds overlay.hash_seeds s t,
)

-- The scalar tables of a merged pack: the overlay's value where it has one, else the baseline's. An
-- empty prompt of the overlay does not count. The overlay's keys are distinct, as a dict's are.
pub merge_scalars :
    (base overlay : IntelPack) (k : String)
    → Distinct overlay.thresholds
    → Distinct overlay.scoring_weights
    → Distinct overlay.prompts
    → (lookup k (merge base overlay).thresholds
        ≡ or_else (lookup k overlay.thresholds) (lookup k base.thresholds))
      × (lookup k (merge base overlay).scoring_weights
          ≡ or_else (lookup k overlay.scoring_weights) (lookup k base.scoring_weights))
      × (lookup k (merge base overlay).prompts
          ≡ or_else (non_empty (lookup k overlay.prompts)) (lookup k base.prompts))
unfolding merge
merge_scalars base overlay k dt dw dp = (
  lookup-update base.thresholds overlay.thresholds k dt,
  lookup-update base.scoring_weights overlay.scoring_weights k dw,
  lookup-update_prompts base.prompts overlay.prompts k dp,
)

-- Additive content of a merged pack is the union: a rule directory, a chain id, a whitelisted domain
-- or a benign tool is in it exactly if it is in the baseline or in the overlay, and a text is listed
-- under a category exactly if one of the packs lists it there.
pub merge_union :
    (base overlay : IntelPack) (t cat : String)
    → let m = merge base overlay in
      (contains m.yara_dirs t ≡ (contains base.yara_dirs t || contains overlay.yara_dirs t))
      × (contains m.opengrep_dirs t
          ≡ (contains base.opengrep_dirs t || contains overlay.opengrep_dirs t))
      × (contains m.behavioral_chain_ids t
          ≡ (contains base.behavioral_chain_ids t || contains overlay.behavioral_chain_ids t))
      × (contains m.ioc_whitelist t
          ≡ (contains base.ioc_whitelist t || contains overlay.ioc_whitelist t))
      × (contains m.gomod_benign_tools t
          ≡ (contains base.gomod_benign_tools t || contains overlay.gomod_benign_tools t))
      × (contains m.npm_benign_tools t
          ≡ (contains base.npm_benign_tools t || contains overlay.npm_benign_tools t))
      × (names m.lure_keywords cat t
          ≡ (names base.lure_keywords cat t || row_names overlay.lure_keywords cat t))
      × (names m.malware_pattern_strings cat t ≡ (
          names base.malware_pattern_strings cat t
          || row_names overlay.malware_pattern_strings cat t))
      × (names m.detonation_rules_data cat t ≡ (
          names base.detonation_rules_data cat t || row_names overlay.detonation_rules_data cat t))
      × (names m.detonation_noise cat t
          ≡ (names base.detonation_noise cat t || row_names overlay.detonation_noise cat t))
unfolding merge
merge_union base overlay t cat = (
  contains-extend_new base.yara_dirs overlay.yara_dirs t,
  contains-extend_new base.opengrep_dirs overlay.opengrep_dirs t,
  contains-extend_new base.behavioral_chain_ids overlay.behavioral_chain_ids t,
  contains-extend_new base.ioc_whitelist overlay.ioc_whitelist t,
  contains-extend_new base.gomod_benign_tools overlay.gomod_benign_tools t,
  contains-extend_new base.npm_benign_tools overlay.npm_benign_tools t,
  names-merge_lists base.lure_keywords overlay.lure_keywords cat t,
  names-merge_lists base.malware_pattern_strings overlay.malware_pattern_strings cat t,
  names-merge_lists base.detonation_rules_data overlay.detonation_rules_data cat t,
  names-merge_lists base.detonation_noise overlay.detonation_noise cat t,
)
