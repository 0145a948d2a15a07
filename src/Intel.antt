-- ===== src/Intel.antt =====
-- The intel pack (pkgward/intel/pack.py). A Python set is a list of its members, a path is its
-- text, and a value of a hash seed is its text. Loading a pack from files is not modelled.
pub mod Union
use Prim.Native.String.{◌++◌ as concat}
use pkgsentry_oss.Prelude.{
  ℕ, String, Bool, List, [], ◌∷◌, ◌++◌, none, some, Dict, lookup, insert, get_or, contains,
  extend_new, str_eq, if◌then◌else◌, ◌&&◌, not,
}

pub record IntelPack : Type 0 where
  pub source : String
  pub yara_dirs : List String
  pub opengrep_dirs : List String
  pub hash_seeds : List (Dict String)
  pub prompts : Dict String
  pub thresholds : Dict ℕ
  pub scoring_weights : Dict ℕ
  pub behavioral_chain_ids : List String
  pub lure_keywords : Dict (List String)
  pub ioc_whitelist : List String
  pub malware_pattern_strings : Dict (List String)
  pub gomod_benign_tools : List String
  pub npm_benign_tools : List String
  pub detonation_rules_data : Dict (List String)
  pub detonation_noise : Dict (List String)

-- `h.get("sha256")`, empty where it is missing
abbrev pub sha_of : Dict String → String
sha_of h = get_or "" (lookup "sha256" h)

abbrev pub truthy : String → Bool
truthy s = not (str_eq s "")

-- `{h.get("sha256") for h in seeds if h.get("sha256")}`
unfoldable pub seen_sha : List (Dict String) → List String
seen_sha [] = []
seen_sha (h ∷ hs) = let rest = seen_sha hs in if truthy (sha_of h) then sha_of h ∷ rest else rest

-- the loop over the overlay's seeds, with `seen` and `merged`
unfoldable pub merge_hashes :
    List String → List (Dict String) → List (Dict String) → List (Dict String)
merge_hashes seen merged [] = merged
merge_hashes seen merged (h ∷ hs) =
    let skip = truthy (sha_of h) && contains seen (sha_of h) in
    merge_hashes (if truthy (sha_of h) && not skip then sha_of h ∷ seen else seen)
      (if skip then merged else merged ++ h ∷ []) hs

-- `merged.update(overlay)`
unfoldable pub update {ℓ} : {V : Type ℓ} → Dict V → Dict V → Dict V
update m [] = m
update m ((k, v) ∷ o) = update (insert k v m) o

-- An empty prompt of the overlay does not replace.
unfoldable pub update_prompts : Dict String → Dict String → Dict String
update_prompts m [] = m
update_prompts m ((k, v) ∷ o) = update_prompts (if truthy v then insert k v m else m) o

-- `existing = merged.setdefault(cat, [])`, then each new text is appended to it
unfoldable pub merge_lists : Dict (List String) → Dict (List String) → Dict (List String)
merge_lists m [] = m
merge_lists m ((cat, texts) ∷ o) =
    merge_lists (insert cat (extend_new (get_or [] (lookup cat m)) texts) m) o

-- `IntelPack.merge`
unfoldable pub merge : IntelPack → IntelPack → IntelPack
merge self overlay = record {
  source = concat self.source (concat "+" overlay.source);
  yara_dirs = extend_new self.yara_dirs overlay.yara_dirs;
  opengrep_dirs = extend_new self.opengrep_dirs overlay.opengrep_dirs;
  hash_seeds = merge_hashes (seen_sha self.hash_seeds) self.hash_seeds overlay.hash_seeds;
  prompts = update_prompts self.prompts overlay.prompts;
  thresholds = update self.thresholds overlay.thresholds;
  scoring_weights = update self.scoring_weights overlay.scoring_weights;
  behavioral_chain_ids = extend_new self.behavioral_chain_ids overlay.behavioral_chain_ids;
  lure_keywords = merge_lists self.lure_keywords overlay.lure_keywords;
  ioc_whitelist = extend_new self.ioc_whitelist overlay.ioc_whitelist;
  malware_pattern_strings =
      merge_lists self.malware_pattern_strings overlay.malware_pattern_strings;
  gomod_benign_tools = extend_new self.gomod_benign_tools overlay.gomod_benign_tools;
  npm_benign_tools = extend_new self.npm_benign_tools overlay.npm_benign_tools;
  detonation_rules_data = merge_lists self.detonation_rules_data overlay.detonation_rules_data;
  detonation_noise = merge_lists self.detonation_noise overlay.detonation_noise;
}
