-- ===== src/Anomaly.antt =====
-- Suspicious updates of packages that are known already (pkgward/ecosystems/version_anomaly.py for PyPI and
-- crates, pkgward/ecosystems/npm/ingest/anomaly.py for npm). A publication time is a natural that orders
-- like its ISO text. The factor of a size jump is a fraction. Of an npm manifest, the hooks with a command
-- that is not blank and the answer of `hook_runs_bundled_path` are taken as read.
pub mod Newest
use pkgsentry_oss.Prelude.{
  ℕ, ◌+◌, ◌-◌, ◌*◌, String, Bool, true, false, not, ◌&&◌, ◌||◌, Option, none, some, List, [], ◌∷◌,
  ◌++◌, any, take, length, lookup, Dict, contains, is_some, str_eq, opt_str_eq, nat_eq, ltb, leb,
  if◌then◌else◌,
}
use pkgsentry_oss.Queue.{Priority}

pub record VersionMeta : Type 0 where
  pub version : String
  pub published_at : ℕ
  pub size : Option ℕ
  pub publisher : Option String
  pub runs_bundled_hook : Bool

pub record AnomalySettings : Type 0 where
  -- `_SIZE_JUMP_FACTOR` is the first number over the second
  pub factor_num : ℕ
  pub factor_den : ℕ
  pub min_bytes : ℕ
  pub abs_bytes : ℕ
  pub abs_min_base : ℕ

pub data Flag : Type 0 where
  install_hook_bundled_exec size_jump publisher_change : Flag
  install_hook_added install_hook_changed file_count_jump : Flag

pub record AnomalyResult : Type 0 where
  pub version : String
  pub flags : List Flag

abbrev pub is_bundled_exec : Flag → Bool
is_bundled_exec Flag.install_hook_bundled_exec = true
is_bundled_exec _ = false

-- `high_priority`
abbrev pub high_priority : List Flag → Bool
high_priority flags = any is_bundled_exec flags

-- one step of the stable sort: equal times keep their order
abbrev pub insert_newest : VersionMeta → List VersionMeta → List VersionMeta
insert_newest m [] = m ∷ []
insert_newest m (x ∷ metas) =
    let rest = insert_newest m metas in
    if leb x.published_at m.published_at then m ∷ x ∷ metas else x ∷ rest

-- `sorted(metas, key=lambda m: m.published_at, reverse=True)`
unfoldable pub newest_first : List VersionMeta → List VersionMeta
newest_first [] = []
newest_first (m ∷ metas) = insert_newest m (newest_first metas)

abbrev pub flag_if : Bool → Flag → List Flag
flag_if b flag = if b then flag ∷ [] else []

-- the flag of a size jump; sizes that are unknown or zero are not compared
unfoldable pub is_size_jump : AnomalySettings → Option ℕ → Option ℕ → Bool
is_size_jump cfg (some new) (some prev) =
    let delta = new - prev in
    let ratio_jump =
      leb (prev * cfg.factor_num) (new * cfg.factor_den)
      && (leb prev new && leb cfg.min_bytes delta) in
    let abs_jump =
      ltb 0 cfg.abs_bytes
      && (leb prev new && (leb cfg.abs_bytes delta && leb cfg.abs_min_base prev)) in
    ltb 0 new && (ltb 0 prev && (ratio_jump || abs_jump))
is_size_jump cfg _ _ = false

-- both are known, and they differ; an empty name is not known
unfoldable pub is_publisher_change : Option String → Option String → Bool
is_publisher_change (some new) (some prev) =
    not (str_eq new "") && (not (str_eq prev "") && not (str_eq new prev))
is_publisher_change _ _ = false

unfoldable pub flags_of : AnomalySettings → VersionMeta → VersionMeta → List Flag
unfolding is_size_jump is_publisher_change
flags_of cfg new prev =
    flag_if (new.runs_bundled_hook && not prev.runs_bundled_hook) Flag.install_hook_bundled_exec
    ++ (flag_if (is_size_jump cfg new.size prev.size) Flag.size_jump
        ++ flag_if (is_publisher_change new.publisher prev.publisher) Flag.publisher_change)

abbrev pub result_if : String → List Flag → Option AnomalyResult
result_if version [] = none
result_if version (f ∷ flags) = some (record { version = version; flags = f ∷ flags })

-- the newest version against the one before it
unfoldable pub compare_newest : AnomalySettings → List VersionMeta → Option AnomalyResult
unfolding flags_of
compare_newest cfg (new ∷ prev ∷ metas) = result_if new.version (flags_of cfg new prev)
compare_newest cfg _ = none

unfoldable pub detect_anomaly : AnomalySettings → List VersionMeta → Option AnomalyResult
unfolding newest_first compare_newest
detect_anomaly cfg metas = compare_newest cfg (newest_first metas)

abbrev pub priority_of : List Flag → Priority
priority_of flags = if high_priority flags then Priority.high else Priority.normal

-- what `_one` appends for a name whose metadata were fetched
unfoldable pub check_one :
    AnomalySettings
    → (String → Option (List VersionMeta))
    → String
    → List (String × String × Priority)
unfolding detect_anomaly
check_one cfg fetch_metas name = elim (fetch_metas name) [
  | none ↦ []
  | some metas ↦ elim (detect_anomaly cfg metas) [
    | none ↦ []
    | some a ↦ (name, a.version, priority_of a.flags) ∷ []
  ]
]

abbrev pub check_all :
    AnomalySettings
    → (String → Option (List VersionMeta))
    → List String
    → List (String × String × Priority)
check_all cfg fetch_metas [] = []
check_all cfg fetch_metas (n ∷ names) =
    check_one cfg fetch_metas n ++ check_all cfg fetch_metas names

-- `check_candidates`, with its answers in the order of the names, not in that of the replies; `none`
-- from `fetch_metas` is an exception or no metadata
unfoldable pub check_candidates :
    AnomalySettings
    → (String → Option (List VersionMeta))
    → ℕ
    → List String
    → List (String × String × Priority)
unfolding check_one
check_candidates cfg fetch_metas max_checks candidates =
    check_all cfg fetch_metas (take max_checks candidates)

-- what is read of an npm manifest
pub record Manifest : Type 0 where
  pub hooks : Dict String
  pub runs_bundled_path : Bool
  pub unpacked_size : Option ℕ
  pub file_count : Option ℕ
  pub publisher : Option String

-- `new_hooks.get(h) != prev_hooks.get(h)`
abbrev pub hook_differs : Dict String → String × String → Bool
hook_differs prev (h, cmd) = not (opt_str_eq (lookup h prev) cmd)

abbrev pub is_none_given : Dict String → Bool
is_none_given [] = true
is_none_given (h ∷ hooks) = false

unfoldable pub is_file_count_jump : Option ℕ → Option ℕ → Bool
is_file_count_jump (some new) (some prev) = ltb 0 prev && ltb prev new
is_file_count_jump _ _ = false

-- the flags of the newest manifest against the one before it; npm has no absolute trigger
unfoldable pub update_flags : AnomalySettings → Manifest → Manifest → List Flag
unfolding is_size_jump is_publisher_change is_file_count_jump
update_flags cfg new prev =
    let changed = any (hook_differs prev.hooks) new.hooks in
    flag_if (changed && is_none_given prev.hooks) Flag.install_hook_added
    ++ (flag_if (changed && not (is_none_given prev.hooks)) Flag.install_hook_changed
        ++ (flag_if
              (not (is_none_given new.hooks)
                && (new.runs_bundled_path && not prev.runs_bundled_path))
              Flag.install_hook_bundled_exec
            ++ (flag_if
                  (is_size_jump (record cfg { abs_bytes = 0 }) new.unpacked_size prev.unpacked_size)
                  Flag.size_jump
                ++ (flag_if (is_file_count_jump new.file_count prev.file_count) Flag.file_count_jump
                    ++ flag_if (is_publisher_change new.publisher prev.publisher)
                        Flag.publisher_change))))

abbrev pub is_size : Flag → Bool
is_size Flag.size_jump = true
is_size _ = false

abbrev pub is_publisher : Flag → Bool
is_publisher Flag.publisher_change = true
is_publisher _ = false

abbrev pub is_hook_change : Flag → Bool
is_hook_change Flag.install_hook_added = true
is_hook_change Flag.install_hook_changed = true
is_hook_change _ = false

abbrev pub is_file_count : Flag → Bool
is_file_count Flag.file_count_jump = true
is_file_count _ = false

-- `_anomaly_priority`; `established` tells whether there are enough versions
unfoldable pub anomaly_priority : List Flag → Bool → Priority
anomaly_priority flags established =
    if any is_bundled_exec flags
    then Priority.high
    else if any is_size flags && established
    then Priority.high
    else if any is_publisher flags && (any is_size flags || any is_hook_change flags)
    then Priority.high
    else Priority.normal

-- `flags == ["file_count_jump"]`
abbrev pub only_file_count : List Flag → Bool
only_file_count (Flag.file_count_jump ∷ []) = true
only_file_count _ = false

-- `detect_update_anomaly` for the manifests, the newest first
unfoldable pub detect_update_anomaly :
    AnomalySettings → ℕ → ℕ → List (String × Manifest) → Option (String × List Flag × Priority)
unfolding update_flags anomaly_priority
detect_update_anomaly cfg established_min n_versions ((new_v, new_m) ∷ (prev_v, prev_m) ∷ ordered) =
    let flags = update_flags cfg new_m prev_m in
    if nat_eq (length flags) 0 || only_file_count flags
    then none
    else some (new_v, flags, anomaly_priority flags (leb established_min n_versions))
detect_update_anomaly cfg established_min n_versions _ = none
