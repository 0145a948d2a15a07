-- ===== src/Maintainers.antt =====
-- The bounded watch on the packages of a caught maintainer (pkgward/maintainer_watch.py, table
-- MaintainerWatch of pkgward/store/models.py). `lower` stands for the lower case of a name, times are
-- seconds. A scan counts by the version it is of and the time it finished.
pub mod Watched
pub mod Pruned
use pkgsentry_oss.Prelude.Delete.{delete_oldest}
use pkgsentry_oss.Prelude.{
  ℕ, suc, ◌+◌, ◌-◌, ◌*◌, String, Bool, true, false, not, ◌&&◌, ◌||◌, Option, none, some, List, [],
  ◌∷◌, ◌++◌, map, filter, count, any, find?, length, contains, extend_new, is_some, str_eq, nat_eq,
  ltb, leb, if◌then◌else◌,
}

-- SUPPORTED
abbrev pub watch_ecosystems : List String
watch_ecosystems = "pypi" ∷ "npm" ∷ []

pub record WatchSettings : Type 0 where
  pub enabled : Bool
  pub releases : ℕ
  pub ttl_days : ℕ
  pub max_per_eco : ℕ

pub record Watch : Type 0 where
  pub id : ℕ
  pub ecosystem : String
  pub name : String
  pub maintainer : Option String
  pub added_at : ℕ

-- a row of Scan joined with its version and its package
pub record VersionScan : Type 0 where
  pub ecosystem : String
  pub name : String
  pub version : String
  pub finished_at : Option ℕ

pub record Watches : Type 0 where
  pub rows : List Watch
  pub next_id : ℕ

pub data WatchStatus : Type 0 where
  added refreshed unsupported : WatchStatus

-- `finished_at >= since` on a nullable column
abbrev pub since : ℕ → Option ℕ → Bool
since t none = false
since t (some f) = leb t f

-- a write to the row that a SELECT has found
abbrev pub update_first : (Watch → Bool) → (Watch → Watch) → List Watch → List Watch
update_first p f [] = []
update_first p f (w ∷ rows) =
    let rest = update_first p f rows in if p w then f w ∷ rows else w ∷ rest

-- what a new catch of the maintainer writes; an empty name of the maintainer is not written
unfoldable pub refresh_watch : ℕ → Option String → Watch → Watch
refresh_watch now maintainer w = record w {
  added_at = now;
  maintainer = if is_some maintainer then maintainer else w.maintainer;
}

module _ (lower : String → String) where
  unfoldable pub scans_since : List VersionScan → String → String → ℕ → ℕ
  scans_since scans ecosystem name at = length (
      extend_new [] (
        map (λ (s : VersionScan). s.version)
          (filter
            (λ (s : VersionScan).
              str_eq s.ecosystem ecosystem
              && (str_eq (lower s.name) (lower name) && since at s.finished_at))
            scans)))

  abbrev pub is_watch : String → String → Watch → Bool
  is_watch ecosystem name w = str_eq w.ecosystem ecosystem && str_eq (lower w.name) (lower name)

  -- `inserted` tells whether the INSERT met no row of another session
  unfoldable pub add_watch :
      Bool → ℕ → String → String → Option String → Watches → Watches × WatchStatus
  unfolding refresh_watch
  add_watch inserted now ecosystem name maintainer t =
      let w : Watch = record {
        id = t.next_id;
        ecosystem = ecosystem;
        name = name;
        maintainer = maintainer;
        added_at = now;
      } in
      if not (contains watch_ecosystems ecosystem)
      then (t, WatchStatus.unsupported)
      else if any (is_watch ecosystem name) t.rows
      then (
        record t {
          rows = update_first (is_watch ecosystem name) (refresh_watch now maintainer) t.rows;
        },
        WatchStatus.refreshed,
      )
      else if inserted
      then (record { rows = t.rows ++ w ∷ []; next_id = suc t.next_id }, WatchStatus.added)
      else (t, WatchStatus.refreshed)

  unfoldable pub load_watch_names : String → List Watch → List String
  load_watch_names ecosystem rows =
      map (λ (w : Watch). lower w.name) (filter (λ (w : Watch). str_eq w.ecosystem ecosystem) rows)

  abbrev pub is_expired : WatchSettings → ℕ → Watch → Bool
  is_expired cfg now w = ltb 0 cfg.ttl_days && ltb (w.added_at + cfg.ttl_days * 86400) now

  abbrev pub is_exhausted : WatchSettings → List VersionScan → String → String → Watch → Bool
  is_exhausted cfg scans ecosystem name w =
      ltb 0 cfg.releases && leb cfg.releases (scans_since scans ecosystem name w.added_at)

  -- `is_maintainer_watched`, whose names are those that are loaded now
  unfoldable pub is_maintainer_watched :
      WatchSettings → List VersionScan → ℕ → String → String → List Watch → Bool
  unfolding load_watch_names scans_since
  is_maintainer_watched cfg scans now ecosystem name rows =
      if not cfg.enabled || (not (contains watch_ecosystems ecosystem) || str_eq name "")
      then false
      else if not (contains (load_watch_names ecosystem rows) (lower name))
      then false
      else elim (find? (is_watch ecosystem name) rows) [
        | none ↦ false
        | some w ↦ not (is_expired cfg now w || is_exhausted cfg scans ecosystem name w)
      ]

  -- what the first loop of `prune` deletes
  abbrev pub is_over : WatchSettings → List VersionScan → ℕ → Watch → Bool
  is_over cfg scans now w = is_expired cfg now w || is_exhausted cfg scans w.ecosystem w.name w

  unfoldable pub remove_watch : String → String → List Watch → List Watch × ℕ
  remove_watch ecosystem name rows = (
    filter (λ (w : Watch). not (is_watch ecosystem name w)) rows,
    count (is_watch ecosystem name) rows,
  )

abbrev pub watch_id : Watch → ℕ
watch_id w = w.id

abbrev pub watch_age : Watch → ℕ
watch_age w = w.added_at

abbrev pub in_ecosystem : String → Watch → Bool
in_ecosystem eco w = str_eq w.ecosystem eco

-- the second loop, over the ecosystems
unfoldable pub cap_watches : ℕ → List String → List Watch → List Watch × ℕ
cap_watches cap [] rows = (rows, 0)
cap_watches cap (eco ∷ ecos) rows =
    let excess = count (in_ecosystem eco) rows - cap in
    let kept = delete_oldest watch_id watch_age excess (in_ecosystem eco) rows in
    let (rest, n) = cap_watches cap ecos kept in (rest, excess + n)

unfoldable pub prune :
    (String → String) → WatchSettings → List VersionScan → ℕ → List Watch → List Watch × ℕ
unfolding cap_watches scans_since
prune lower cfg scans now rows =
    let over = is_over lower cfg scans now in
    let kept = filter (λ (w : Watch). not (over w)) rows in
    let (capped, n) = cap_watches cfg.max_per_eco watch_ecosystems kept in
    if nat_eq cfg.max_per_eco 0 then (kept, count over rows) else (capped, count over rows + n)
