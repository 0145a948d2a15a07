-- ===== src/Examples/Pivots.antt =====
-- A sweep over two packages of a caught npm account.
use pkgsentry_oss.Prelude.{
  ◌≤◌, ◌≡◌, refl, ◌⊎◌, String, true, false, not, ◌&&◌, ◌||◌, Option, none, some, List, [], ◌∷◌,
  Dict, length, contains, is_some, leb, extend_new,
}
use pkgsentry_oss.Adapter.{Finding, Severity}
use pkgsentry_oss.Detect.{Verdict, is_shadow_finding}
use pkgsentry_oss.Queue.{InsertOutcome, enqueue}
use pkgsentry_oss.Triage.{Ruling}
use pkgsentry_oss.Pivot.{
  PivotSettings, PivotDesk, JoinedScan, SweepResult, swept, high_fidelity, is_blocklisted,
  confirmed, catalog_names, pivot_ecosystems, sweep_on_malicious,
}
use pkgsentry_oss.Pivot.Sweep.{Calm, sweep_on_malicious-warranted}
use pkgsentry_oss.Pivot.Bounds.{size, sweep_on_malicious-bound}
use pkgsentry_oss.Examples.Scans.{finding}
use pkgsentry_oss.Examples.Watched.{same_case}

abbrev active : PivotSettings
active = record {
  enabled = true;
  shadow = false;
  max_pkgs = 3;
  corr_days = 30;
  dedup_ttl = 3600;
  allow = [];
  deny = "flaky.rule" ∷ [];
  blocklist = ("npm", "left-pad" ∷ []) ∷ [];
  watch_enabled = true;
}

abbrev match : List Finding
match = finding "intel.sha" "threat_intel" Severity.critical ∷ []

abbrev account : Dict String
account = ("evil", "1.0") ∷ ("sibling", "2.0") ∷ []

abbrev scan : String → JoinedScan
scan name = record {
  ecosystem = "npm";
  name = name;
  verdict = Verdict.malicious;
  llm_verdict = some Ruling.malicious;
  finished_at = some 10;
}

abbrev idle : PivotDesk
idle = record {
  queue = record { rows = []; next_id = 1 };
  watches = record { rows = []; next_id = 1 };
  recent_sweeps = [];
}

abbrev swept_with : List Finding → Option (List JoinedScan) → PivotDesk × SweepResult
swept_with findings scans =
    sweep_on_malicious active same_case (λ n. false) (λ n. "") (λ n i. InsertOutcome.inserted) 2 50
      (λ n. true) scans 7 [] false "npm" "evil" findings none (some ("eve" ∷ [], account)) idle

sweep_by_match_test : (swept_with match none).1 ≡ swept 1 1
unfolding sweep_on_malicious is_shadow_finding extend_new enqueue
sweep_by_match_test = refl

sweep_by_correlation_test :
    (swept_with
      (finding "r" "obfuscation" Severity.high ∷ [])
      (some (scan "evil" ∷ scan "sibling" ∷ []))).1
    ≡ swept 1 0
unfolding sweep_on_malicious is_shadow_finding extend_new enqueue
sweep_by_correlation_test = refl

sweep_on_malicious-warranted_example :
    Calm idle (swept_with match none).0
    ⊎ (((true
            && (true
                && (contains pivot_ecosystems "npm"
                    && not (is_blocklisted active same_case "npm" "evil"))))
          ≡ true)
        × ((length (catalog_names "evil" account) ≤ 3)
            × ((is_some (high_fidelity active [] match none)
                  || leb 2 (
                      length
                        (confirmed active same_case none 50 "npm" (catalog_names "evil" account))))
                ≡ true)))
sweep_on_malicious-warranted_example =
    sweep_on_malicious-warranted active same_case (λ n. false) (λ n. "")
      (λ n i. InsertOutcome.inserted) 2 50 (λ n. true) none 7 [] false "npm" "evil" match none
      ("eve" ∷ []) account idle

sweep_on_malicious-bound_example : size (swept_with match none).0.queue ≤ 3
sweep_on_malicious-bound_example =
    sweep_on_malicious-bound active same_case (λ n. false) (λ n. "") (λ n i. InsertOutcome.inserted)
      2 50 (λ n. true) none 7 [] false "npm" "evil" match none ("eve" ∷ []) account idle
