-- ===== src/Examples/Packs.antt =====
-- A small baseline pack and an overlay (pkgward/intel/baseline).
use pkgsentry_oss.Prelude.{
  ◌≡◌, refl, ◌||◌, [], ◌∷◌, min, ltb, lookup, contains, if◌then◌else◌, Dict, String,
}
use pkgsentry_oss.Intel.{IntelPack, merge}
use pkgsentry_oss.Intel.Union.{
  names, row_names, or_else, non_empty, seeds_with, merge-hash_seeds, merge_scalars, merge_union,
}

abbrev pub empty_pack : IntelPack
empty_pack = record {
  source = "unset";
  yara_dirs = [];
  opengrep_dirs = [];
  hash_seeds = [];
  prompts = [];
  thresholds = [];
  scoring_weights = [];
  behavioral_chain_ids = [];
  lure_keywords = [];
  ioc_whitelist = [];
  malware_pattern_strings = [];
  gomod_benign_tools = [];
  npm_benign_tools = [];
  detonation_rules_data = [];
  detonation_noise = [];
}

abbrev seed : String → Dict String
seed sha = ("sha256", sha) ∷ []

abbrev pub baseline : IntelPack
baseline = record empty_pack {
  source = "baseline";
  hash_seeds = seed "aa" ∷ [];
  prompts = ("triage_system", "be strict") ∷ [];
  thresholds = ("suspicious_min", 20) ∷ ("malicious_min", 61) ∷ ("category_cap", 30) ∷ [];
  scoring_weights = ("low", 1) ∷ ("medium", 8) ∷ ("high", 25) ∷ ("critical", 60) ∷ [];
  behavioral_chain_ids = "dyn_install_exfil" ∷ "malware.pth_exec_injection" ∷ [];
  lure_keywords = ("crypto", "wallet" ∷ []) ∷ [];
}

abbrev pub overlay : IntelPack
overlay = record empty_pack {
  source = "private";
  hash_seeds = seed "aa" ∷ seed "bb" ∷ seed "bb" ∷ [];
  prompts = ("triage_system", "") ∷ [];
  thresholds = ("malicious_min", 50) ∷ [];
  behavioral_chain_ids = "private.chain" ∷ "dyn_install_exfil" ∷ [];
  lure_keywords = ("crypto", "ledger" ∷ "wallet" ∷ []) ∷ ("jobs", "interview" ∷ []) ∷ [];
}

merge-hash_seeds_test : seeds_with "bb" (merge baseline overlay).hash_seeds ≡ (
    if ltb 0 (seeds_with "bb" baseline.hash_seeds)
    then seeds_with "bb" baseline.hash_seeds
    else min 1 (seeds_with "bb" overlay.hash_seeds))
merge-hash_seeds_test = merge-hash_seeds baseline overlay "bb" refl

merge_scalars_test :
    (lookup "malicious_min" (merge baseline overlay).thresholds
      ≡ or_else
          (lookup "malicious_min" overlay.thresholds)
          (lookup "malicious_min" baseline.thresholds))
    × (lookup "malicious_min" (merge baseline overlay).scoring_weights
        ≡ or_else
            (lookup "malicious_min" overlay.scoring_weights)
            (lookup "malicious_min" baseline.scoring_weights))
    × (lookup "malicious_min" (merge baseline overlay).prompts
        ≡ or_else
            (non_empty (lookup "malicious_min" overlay.prompts))
            (lookup "malicious_min" baseline.prompts))
merge_scalars_test = merge_scalars baseline overlay "malicious_min" (refl, tt) tt (refl, tt)

merge_union_test :
    let m = merge baseline overlay in
    let t : String = "ledger" in
    let cat : String = "crypto" in
    (contains m.yara_dirs t ≡ (contains baseline.yara_dirs t || contains overlay.yara_dirs t))
    × (contains m.opengrep_dirs t
        ≡ (contains baseline.opengrep_dirs t || contains overlay.opengrep_dirs t))
    × (contains m.behavioral_chain_ids t
        ≡ (contains baseline.behavioral_chain_ids t || contains overlay.behavioral_chain_ids t))
    × (contains m.ioc_whitelist t
        ≡ (contains baseline.ioc_whitelist t || contains overlay.ioc_whitelist t))
    × (contains m.gomod_benign_tools t
        ≡ (contains baseline.gomod_benign_tools t || contains overlay.gomod_benign_tools t))
    × (contains m.npm_benign_tools t
        ≡ (contains baseline.npm_benign_tools t || contains overlay.npm_benign_tools t))
    × (names m.lure_keywords cat t
        ≡ (names baseline.lure_keywords cat t || row_names overlay.lure_keywords cat t))
    × (names m.malware_pattern_strings cat t ≡ (
        names baseline.malware_pattern_strings cat t
        || row_names overlay.malware_pattern_strings cat t))
    × (names m.detonation_rules_data cat t ≡ (
        names baseline.detonation_rules_data cat t
        || row_names overlay.detonation_rules_data cat t))
    × (names m.detonation_noise cat t
        ≡ (names baseline.detonation_noise cat t || row_names overlay.detonation_noise cat t))
merge_union_test = merge_union baseline overlay "ledger" "crypto"
