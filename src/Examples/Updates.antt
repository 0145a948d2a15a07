-- ===== src/Examples/Updates.antt =====
-- Updates that grow, and an npm update with a new hook.
use mathlib.Core.List.Permᴰ
use pkgsentry_oss.Prelude.{
  ℕ, ◌≡◌, refl, true, false, [], ◌∷◌, some, none, any, is_some, arith, extend_new, length, String,
  Option, ◌≤◌, List,
}
use pkgsentry_oss.Adapter.{Severity}
use pkgsentry_oss.Triage.{Ruling}
use pkgsentry_oss.Diff.{
  PreviousVersion, CurrentMetadata, analyze_version_diff, rule_ids_of, new_of, text_or,
  author_changed, dependency_spike,
}
use pkgsentry_oss.Diff.Drift.{analyze_version_diff-quiet}
use pkgsentry_oss.Examples.Scans.{finding}
use pkgsentry_oss.Examples.Watched.{same_case}
use pkgsentry_oss.Queue.{Priority}
use pkgsentry_oss.Anomaly.{
  VersionMeta, AnomalySettings, Flag, Manifest, detect_anomaly, newest_first, compare_newest,
  flags_of, is_size_jump, is_publisher_change, update_flags, detect_update_anomaly,
  check_candidates,
}
use pkgsentry_oss.Anomaly.Newest.{
  DistinctTimes, is_telling, detect_anomaly-perm, detect_update_anomaly-reported,
  detect_update_anomaly-bundled, length-check_candidates,
}

abbrev cfg : AnomalySettings
cfg = record {
  factor_num = 3;
  factor_den = 1;
  min_bytes = 262144;
  abs_bytes = 51200;
  abs_min_base = 262144;
}

abbrev meta : String → ℕ → ℕ → VersionMeta
meta version at size = record {
  version = version;
  published_at = at;
  size = some size;
  publisher = some "ann";
  runs_bundled_hook = false;
}

abbrev small : VersionMeta
small = meta "1.0" 5 400000

abbrev large : VersionMeta
large = meta "1.1" 9 5000000

grows :
    detect_anomaly cfg (small ∷ large ∷ [])
    ≡ some (record { version = "1.1"; flags = Flag.size_jump ∷ [] })
unfolding detect_anomaly newest_first compare_newest flags_of is_size_jump is_publisher_change
grows = refl

apart : DistinctTimes (small ∷ large ∷ [])
apart t = ground arith

detect_anomaly-perm_test :
    detect_anomaly cfg (small ∷ large ∷ []) ≡ detect_anomaly cfg (large ∷ small ∷ [])
detect_anomaly-perm_test =
    detect_anomaly-perm cfg (small ∷ large ∷ []) (large ∷ small ∷ []) (Permᴰ.swap refl refl) apart

abbrev manifest : Manifest
manifest = record {
  hooks = [];
  runs_bundled_path = false;
  unpacked_size = some 100;
  file_count = some 3;
  publisher = none;
}

abbrev hooked : Manifest
hooked = record manifest { hooks = ("preinstall", "./tools/setup") ∷ []; runs_bundled_path = true }

detect_update_anomaly-reported_test :
    is_some (detect_update_anomaly cfg 5 2 (("1.1", hooked) ∷ ("1.0", manifest) ∷ []))
    ≡ any is_telling (update_flags cfg hooked manifest)
detect_update_anomaly-reported_test =
    detect_update_anomaly-reported cfg 5 2 "1.1" "1.0" hooked manifest []

detect_update_anomaly-bundled_example :
    detect_update_anomaly cfg 5 2 (("1.1", hooked) ∷ ("1.0", manifest) ∷ [])
    ≡ some ("1.1", update_flags cfg hooked manifest, Priority.high)
detect_update_anomaly-bundled_example =
    detect_update_anomaly-bundled cfg 5 2 "1.1" "1.0" hooked manifest [] refl refl refl

abbrev earlier : PreviousVersion
earlier = record {
  verdict = Ruling.clean;
  rule_ids = "iocs.secret" ∷ [];
  author = some "ann";
  author_email = none;
  requires_dist = "a" ∷ [];
}

abbrev now : CurrentMetadata
now = record { author = some "ann"; author_email = none; requires_dist = "a" ∷ [] }

-- A new critical rule on a package that was clean is reported, and a new author.
drifts :
    rule_ids_of (
      analyze_version_diff same_case
        (finding "malware.eval" "malware" Severity.critical ∷ [])
        (record now { author = some "eve" })
        earlier)
    ≡ "version_diff.clean_to_critical" ∷ "version_diff.author_changed" ∷ []
unfolding analyze_version_diff new_of extend_new text_or author_changed dependency_spike
drifts = refl

analyze_version_diff-quiet_test :
    analyze_version_diff same_case (finding "iocs.secret" "iocs" Severity.low ∷ []) now earlier ≡ []
analyze_version_diff-quiet_test =
    analyze_version_diff-quiet same_case (finding "iocs.secret" "iocs" Severity.low ∷ []) now
      earlier refl refl refl refl

abbrev fetch : String → Option (List VersionMeta)
fetch n = some (small ∷ large ∷ [])

length-check_candidates_test : length (check_candidates cfg fetch 1 ("a" ∷ "b" ∷ [])) ≤ 1
length-check_candidates_test = length-check_candidates cfg fetch 1 ("a" ∷ "b" ∷ [])
