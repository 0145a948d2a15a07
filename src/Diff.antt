-- ===== src/Diff.antt =====
-- What has changed since the previous version (pkgward/analyze/version_diff.py). The evidence of a finding
-- is a text made of the lists that are given here; it is left out, since no test reads it. `lower` stands
-- for the lower case of an author.
pub mod Drift
use pkgsentry_oss.Prelude.{
  ℕ, ◌*◌, ◌+◌, String, Bool, true, false, not, ◌&&◌, Option, none, some, List, [], ◌∷◌, ◌++◌, map,
  filter, any, length, contains, extend_new, str_eq, ltb, leb, if◌then◌else◌,
}
use pkgsentry_oss.Adapter.{Finding, Severity, Confidence, sev_eq}
use pkgsentry_oss.Triage.{Ruling}

-- the verdict of the previous version's scan may be one of the language model's
pub record PreviousVersion : Type 0 where
  pub verdict : Ruling
  pub rule_ids : List String
  pub author : Option String
  pub author_email : Option String
  pub requires_dist : List String

abbrev pub was_found_clean : Ruling → Bool
was_found_clean Ruling.clean = true
was_found_clean _ = false

-- what is read of the metadata of the current version
pub record CurrentMetadata : Type 0 where
  pub author : Option String
  pub author_email : Option String
  pub requires_dist : List String

abbrev pub diff_finding : String → Severity → Confidence → Finding
diff_finding rule severity confidence = record {
  rule_id = rule;
  category = "version_diff";
  severity = severity;
  confidence = confidence;
  file = "";
  line = none;
  evidence = "";
}

-- `set(xs) - set(ys)`, as a list without duplicates
unfoldable pub new_of : List String → List String → List String
new_of xs ys = extend_new [] (filter (λ (x : String). not (contains ys x)) xs)

abbrev pub is_nonempty : List String → Bool
is_nonempty [] = false
is_nonempty (x ∷ xs) = true

-- `{f.rule_id for f in current_findings}`
abbrev pub rule_ids_of : List Finding → List String
rule_ids_of fs = map (λ (f : Finding). f.rule_id) fs

abbrev pub is_critical_rule : List Finding → String → Bool
is_critical_rule fs r =
    any (λ (f : Finding). str_eq f.rule_id r && sev_eq f.severity Severity.critical) fs

-- `a or b` of two texts, where an empty text counts as none
unfoldable pub text_or : Option String → Option String → Option String
text_or (some a) b = if str_eq a "" then b else some a
text_or none b = b

-- both are given, and differ in lower case
unfoldable pub author_changed : (String → String) → Option String → Option String → Bool
author_changed lower (some now) (some before) =
    not (str_eq now "") && (not (str_eq before "") && not (str_eq (lower now) (lower before)))
author_changed lower _ _ = false

-- `len(new_deps) > len(prev_deps) * 0.5 and len(new_deps) >= 3`, in whole numbers
unfoldable pub dependency_spike : List String → List String → Bool
unfolding new_of
dependency_spike now before =
    let new_deps = length (new_of now before) in
    ltb (length (extend_new [] before)) (new_deps * 2) && leb 3 new_deps

abbrev pub finding_if : Bool → Finding → List Finding
finding_if b f = if b then f ∷ [] else []

unfoldable pub analyze_version_diff :
    (String → String) → List Finding → CurrentMetadata → PreviousVersion → List Finding
unfolding new_of text_or author_changed dependency_spike
analyze_version_diff lower fs now prev =
    let fresh = new_of (rule_ids_of fs) prev.rule_ids in
    let critical = is_nonempty (filter (is_critical_rule fs) fresh) in
    let was_clean = was_found_clean prev.verdict in
    finding_if (critical && was_clean)
      (diff_finding "version_diff.clean_to_critical" Severity.critical Confidence.high)
    ++ (finding_if (was_clean && (not critical && is_nonempty fresh))
          (diff_finding "version_diff.new_rules_fired" Severity.medium Confidence.medium)
        ++ (finding_if
              (author_changed lower (text_or now.author_email now.author)
                (text_or prev.author_email prev.author))
              (diff_finding "version_diff.author_changed" Severity.high Confidence.high)
            ++ finding_if (dependency_spike now.requires_dist prev.requires_dist)
                (diff_finding "version_diff.dependency_spike" Severity.medium Confidence.medium)))
