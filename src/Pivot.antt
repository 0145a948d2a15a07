-- ===== src/Pivot.antt =====
-- The sweep over the other packages of a caught maintainer (pkgward/maintainer_pivot.py). `lower` stands
-- for the lower case of a name. What the registry tells of the maintainers and of their packages is the
-- argument `resolved`, `none` for an exception; `latest` is the newest version that PyPI names, "" for
-- none. Times are seconds.
pub mod Sweep
pub mod Bounds
use Prim.Native.String.{◌++◌}
use pkgsentry_oss.Prelude.{
  ℕ, suc, ◌+◌, ◌*◌, max, String, Bool, true, false, not, ◌&&◌, ◌||◌, Option, none, some, List, [],
  ◌∷◌, map, filter, Dict, lookup, insert, get_or, contains, extend_new, length, is_some, str_eq,
  ltb, leb, if◌then◌else◌,
}
use pkgsentry_oss.Adapter.{Finding}
use pkgsentry_oss.Detect.{Verdict, is_malicious}
use pkgsentry_oss.Queue.{ScanQueue, InsertOutcome, Reply, Priority, enqueue}
use pkgsentry_oss.Maintainers.{Watches, add_watch}
use pkgsentry_oss.Triage.{Ruling, Score, is_at_least, rules_malicious}
use pkgsentry_oss.Triage.Attempts.{TriageResult}
use pkgsentry_oss.Pipeline.{non_primary_promote_categories, is_strong}

-- SUPPORTED
abbrev pub pivot_ecosystems : List String
pivot_ecosystems = "pypi" ∷ "npm" ∷ []

-- what the environment sets; an empty `allow` allows every rule
pub record PivotSettings : Type 0 where
  pub enabled : Bool
  pub shadow : Bool
  pub max_pkgs : ℕ
  pub corr_days : ℕ
  pub dedup_ttl : ℕ
  pub allow : List String
  pub deny : List String
  pub blocklist : Dict (List String)
  pub watch_enabled : Bool

-- a row of Scan joined with its version and its package
pub record JoinedScan : Type 0 where
  pub ecosystem : String
  pub name : String
  pub verdict : Verdict
  pub llm_verdict : Option Ruling
  pub finished_at : Option ℕ

-- why one conviction is enough
pub data Fidelity : Type 0 where
  chain : String → Fidelity
  threat_intel : String → Fidelity
  llm_conf : Score → Fidelity

pub data SkipReason : Type 0 where
  no_primary_evidence resolve_failed no_maintainer_resolved deduped : SkipReason
  catalog_too_large single_soft_conviction_no_correlation : SkipReason

pub data SweepResult : Type 0 where
  disabled unsupported_ecosystem blocklisted : SweepResult
  skip : SkipReason → SweepResult
  shadowed : ℕ → SweepResult
  swept : ℕ → ℕ → SweepResult

-- what a sweep reads and writes
pub record PivotDesk : Type 0 where
  pub queue : ScanQueue
  pub watches : Watches
  pub recent_sweeps : Dict ℕ

-- the filter of rules by the operator's lists
abbrev pub passes_lists : PivotSettings → Finding → Bool
passes_lists cfg f =
    not (contains cfg.deny f.rule_id) && (leb (length cfg.allow) 0 || contains cfg.allow f.rule_id)

unfoldable pub trigger_eligible_findings : PivotSettings → List Finding → List Finding
trigger_eligible_findings cfg findings =
    filter
      (λ (f : Finding).
        is_strong f
        && (not (contains non_primary_promote_categories f.category) && passes_lists cfg f))
      findings

-- the last test of `_high_fidelity`, on the model's answer
unfoldable pub confident_answer : Option TriageResult → Option Fidelity
confident_answer none = none
confident_answer (some tri) =
    if rules_malicious tri.verdict && is_at_least 95 tri.confidence
    then some (llm_conf tri.confidence)
    else none

unfoldable pub high_fidelity :
    PivotSettings → List String → List Finding → Option TriageResult → Option Fidelity
unfolding confident_answer
high_fidelity cfg chain_ids [] tri = confident_answer tri
high_fidelity cfg chain_ids (f ∷ findings) tri =
    let rest = high_fidelity cfg chain_ids findings tri in
    if not (is_strong f && passes_lists cfg f)
    then rest
    else if contains chain_ids f.rule_id
    then some (chain f.rule_id)
    else if str_eq f.category "threat_intel"
    then some (threat_intel f.rule_id)
    else rest

unfoldable pub recently_swept : PivotSettings → ℕ → String → Dict ℕ → Bool
recently_swept cfg now key sweeps =
    ltb 0 cfg.dedup_ttl
    && elim (lookup key sweeps) [ none ↦ false | some ts ↦ ltb now (ts + cfg.dedup_ttl) ]

unfoldable pub mark_swept : PivotSettings → ℕ → String → Dict ℕ → Dict ℕ
mark_swept cfg now key sweeps =
    let marked = insert key now sweeps in
    if ltb 0 cfg.dedup_ttl && ltb 4096 (length marked)
    then filter (λ (k, ts). not (ltb (ts + cfg.dedup_ttl) now)) marked
    else marked

abbrev pub in_window : PivotSettings → ℕ → Option ℕ → Bool
in_window cfg now none = false
in_window cfg now (some t) = leb now (t + cfg.corr_days * 86400)

abbrev pub ruled_malicious : Option Ruling → Bool
ruled_malicious none = false
ruled_malicious (some v) = rules_malicious v

-- what a call of `queue.enqueue` adds to `enqueued`
abbrev pub enqueued : Reply → ℕ
enqueued (Reply.returned _) = 1
enqueued Reply.raised = 0

-- the packages of the maintainers with the one that was caught
unfoldable pub catalog_names : String → Dict String → List String
catalog_names name catalog = extend_new (map (λ (n, v). n) catalog) (name ∷ [])

module _ (cfg : PivotSettings) (lower : String → String) where
  unfoldable pub is_blocklisted : String → String → Bool
  is_blocklisted ecosystem name = contains (get_or [] (lookup ecosystem cfg.blocklist)) (lower name)

  unfoldable pub double_confirmed_names : List JoinedScan → ℕ → String → List String → List String
  double_confirmed_names scans now ecosystem names = extend_new [] (
      map (λ (s : JoinedScan). lower s.name)
        (filter
          (λ (s : JoinedScan).
            str_eq s.ecosystem ecosystem
            && (contains (map lower names) (lower s.name)
                && (is_malicious s.verdict
                    && (ruled_malicious s.llm_verdict && in_window cfg now s.finished_at))))
          scans))

  -- `malicious_names`; `scans` is `none` when the SELECT raises
  unfoldable pub confirmed : Option (List JoinedScan) → ℕ → String → List String → List String
  unfolding double_confirmed_names
  confirmed none now ecosystem names = []
  confirmed (some scans) now ecosystem names = double_confirmed_names scans now ecosystem names

  -- the loop of `_register_clean_watches`; `inserted` is asked at each INSERT
  unfoldable pub watch_siblings :
      (String → Bool) → ℕ → String → String → List String → Watches → Watches × ℕ
  unfolding is_blocklisted
  watch_siblings inserted now ecosystem maintainer [] t = (t, 0)
  watch_siblings inserted now ecosystem maintainer (sib ∷ siblings) t =
      if is_blocklisted ecosystem sib
      then watch_siblings inserted now ecosystem maintainer siblings t
      else let next = (add_watch lower (inserted sib) now ecosystem sib (some maintainer) t).0 in
        let (done, n) = watch_siblings inserted now ecosystem maintainer siblings next in
        (done, suc n)

  unfoldable pub register_clean_watches :
      (String → Bool) → ℕ → String → String → List String → Watches → Watches × ℕ
  unfolding watch_siblings
  register_clean_watches inserted now ecosystem maintainer siblings t =
      if not cfg.watch_enabled
      then (t, 0)
      else watch_siblings inserted now ecosystem maintainer siblings t

  unfoldable pub clean_siblings : String → List String → List String → List String
  clean_siblings name malicious catalog =
      filter (λ c. not (str_eq (lower c) (lower name) || contains malicious (lower c))) catalog

  -- The loop of `_enqueue_catalog`. `late` tells whether the time for version lookups has run out when a
  -- package is met, `answer` what the database says to its INSERT.
  module _ (late : String → Bool) (latest : String → String) (answer : String → ℕ → InsertOutcome)
      (retries now : ℕ) where
    -- the version to scan, "" for none
    unfoldable pub version_of : String → String → String → String
    version_of ecosystem name version =
        if str_eq version "" && str_eq ecosystem "pypi" then latest name else version

    unfoldable pub enqueue_one : String → String → String → ScanQueue → ScanQueue × ℕ
    enqueue_one ecosystem name version q =
        let (done, reply) =
          enqueue (answer name) retries q ecosystem name version Priority.high false now in
        (done, enqueued reply)

    unfoldable pub enqueue_catalog : String → String → Dict String → ScanQueue → ScanQueue × ℕ
    unfolding version_of enqueue_one
    enqueue_catalog ecosystem exclude [] q = (q, 0)
    enqueue_catalog ecosystem exclude ((name, version) ∷ catalog) q =
        let skipped = enqueue_catalog ecosystem exclude catalog q in
        let v = version_of ecosystem name version in
        let (next, n) = enqueue_one ecosystem name v q in
        let (done, m) = enqueue_catalog ecosystem exclude catalog next in
        if str_eq (lower name) (lower exclude)
        then skipped
        else if str_eq version "" && late name
        then (q, 0)
        else if str_eq v ""
        then skipped
        else (done, n + m)

    -- what is done once the sweep is triggered
    unfoldable pub sweep_catalog :
        (String → Bool)
        → String
        → String
        → String
        → Dict String
        → List String
        → PivotDesk
        → PivotDesk × SweepResult
    unfolding enqueue_catalog register_clean_watches clean_siblings
    sweep_catalog inserted ecosystem name maintainer catalog malicious d =
        let siblings = clean_siblings name malicious (map (λ (n, v). n) catalog) in
        let (queue, n) = enqueue_catalog ecosystem name catalog d.queue in
        let (watches, w) =
          register_clean_watches inserted now ecosystem maintainer siblings d.watches in
        if cfg.shadow
        then (d, shadowed (length siblings))
        else (record d { queue = queue; watches = watches }, swept n w)

    -- `tick` is the time that repeated sweeps are told by
    module _ (inserted : String → Bool) (scans : Option (List JoinedScan)) (tick : ℕ) where
      -- the sweep from the answer of the registry on
      unfoldable pub sweep_maintainers :
          String → String → Bool → List String → Dict String → PivotDesk → PivotDesk × SweepResult
      unfolding recently_swept mark_swept confirmed catalog_names sweep_catalog
      sweep_maintainers ecosystem name hi [] catalog d = (d, skip SkipReason.no_maintainer_resolved)
      sweep_maintainers ecosystem name hi (maintainer ∷ _) catalog d =
          let key = ecosystem ++ (":" ++ lower maintainer) in
          let marked : PivotDesk = record d {
            recent_sweeps = mark_swept cfg tick key d.recent_sweeps;
          } in
          let names = catalog_names name catalog in
          let malicious = confirmed scans now ecosystem names in
          if recently_swept cfg tick key d.recent_sweeps
          then (d, skip SkipReason.deduped)
          else if ltb cfg.max_pkgs (length names)
          then (marked, skip SkipReason.catalog_too_large)
          else if not (hi || leb 2 (length malicious))
          then (d, skip SkipReason.single_soft_conviction_no_correlation)
          else sweep_catalog inserted ecosystem name maintainer catalog malicious marked

      unfoldable pub sweep_resolved :
          String
          → String
          → Bool
          → Option (List String × Dict String)
          → PivotDesk
          → PivotDesk × SweepResult
      unfolding sweep_maintainers
      sweep_resolved ecosystem name hi none d = (d, skip SkipReason.resolve_failed)
      sweep_resolved ecosystem name hi (some (maintainers, catalog)) d =
          sweep_maintainers ecosystem name hi maintainers catalog d

      -- `manual` is `source == "manual"`
      unfoldable pub sweep_on_malicious :
          List String
          → Bool
          → String
          → String
          → List Finding
          → Option TriageResult
          → Option (List String × Dict String)
          → PivotDesk
          → PivotDesk × SweepResult
      unfolding is_blocklisted trigger_eligible_findings high_fidelity sweep_resolved
      sweep_on_malicious chain_ids manual ecosystem name findings tri resolved d =
          let hi = is_some (high_fidelity cfg chain_ids findings tri) in
          if not cfg.enabled
          then (d, disabled)
          else if not (contains pivot_ecosystems ecosystem)
          then (d, unsupported_ecosystem)
          else if is_blocklisted ecosystem name
          then (d, blocklisted)
          else if not manual && (leb (length (trigger_eligible_findings cfg findings)) 0 && not hi)
          then (d, skip SkipReason.no_primary_evidence)
          else sweep_resolved ecosystem name hi resolved d
