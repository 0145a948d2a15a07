-- ===== src/Examples/Republished.antt =====
-- A package that is published again with one file changed.
use pkgsentry_oss.Prelude.{◌≡◌, refl, true, String, [], ◌∷◌, none, some, Dict, All, all}
use pkgsentry_oss.Adapter.{Finding, Severity, Confidence}
use pkgsentry_oss.Reuse.{
  PastScan, norm_path, after_slash, basename, carry_forward_findings, latest, is_candidate_scan,
  unchanged_paths, carry, is_matched, safe_basenames, changed_basenames, unchanged,
}
use pkgsentry_oss.Reuse.Sound.{
  rests_on, carried, names_unchanged, Fresh, carried-unchanged, carried-Fresh,
}

abbrev in_file : String → Finding
in_file file = record {
  rule_id = "yara.rat";
  category = "yara";
  severity = Severity.high;
  confidence = Confidence.high;
  file = file;
  line = none;
  evidence = "";
}

abbrev prior : PastScan
prior = record {
  id = 4;
  ecosystem = "npm";
  name = "forge-jsxy";
  finished_at = some 1000;
  hashes = ("lib/rat.js", "aa") ∷ ("a/x.js", "bb") ∷ ("b/x.js", "cc") ∷ [];
  findings = in_file "package/lib/rat.js" ∷ in_file "lib/rat.js" ∷ in_file "x.js" ∷ [];
}

abbrev current : Dict String
current = ("lib/rat.js", "aa") ∷ ("a/x.js", "dd") ∷ ("b/x.js", "cc") ∷ []

-- One finding of the two of one file is carried; a bare name that a changed file has, too, is not.
carries :
    carry_forward_findings 7 2000 (prior ∷ []) "npm" "forge-jsxy" 5 current []
    ≡ in_file "package/lib/rat.js" ∷ []
unfolding carry_forward_findings latest is_candidate_scan unchanged_paths unchanged carry is_matched
    safe_basenames changed_basenames basename after_slash norm_path
carries = refl

carried-unchanged_example :
    All
      (λ f.
        (all (names_unchanged prior.hashes (norm_path f.file)) current ≡ true)
        × (rests_on prior.hashes current (norm_path f.file) ≡ true))
      (carried 7 2000 (prior ∷ []) "npm" "forge-jsxy" 5 current [])
unfolding latest is_candidate_scan
carried-unchanged_example =
    carried-unchanged 7 2000 (prior ∷ []) "npm" "forge-jsxy" 5 current [] prior refl
      (refl, (refl, (refl, tt)))

carried-Fresh_test : Fresh [] (carried 7 2000 (prior ∷ []) "npm" "forge-jsxy" 5 current [])
carried-Fresh_test = carried-Fresh 7 2000 (prior ∷ []) "npm" "forge-jsxy" 5 current []
