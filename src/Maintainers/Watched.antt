-- ===== src/Maintainers/Watched.antt =====
-- When a package is watched, and that a new watch lasts for its whole window.
use pkgsentry_oss.Prelude.{
  ℕ, ◌≡◌, refl, String, Bool, true, false, not, ◌&&◌, ◌||◌, Option, none, some, List, [], ◌∷◌, any,
  find?, contains, str_eq, arith, Bool-cases, Option-cases, inl, inr,
}
use pkgsentry_oss.Maintainers.{
  WatchSettings, Watch, VersionScan, watch_ecosystems, is_watch, load_watch_names, is_expired,
  is_exhausted, is_maintainer_watched,
}

pub any-find? :
    (p : Watch → Bool) (rows : List Watch) (w : Watch)
    → find? p rows ≡ some w
    → (any p rows ≡ true) × (p w ≡ true)
any-find? p [] w h = ground (arith, h)
any-find? p (v ∷ rows) w h = elim (Bool-cases (p v)) [
  | inl y ↦ let same : v ≡ w = ground (arith, h, y) in rw y (refl, rw (← same) y)
  | inr f ↦ ground (arith, h, f, any-find? p rows w)
]

pub find?-none : (p : Watch → Bool) (rows : List Watch) → any p rows ≡ false → find? p rows ≡ none
find?-none p [] h = refl
find?-none p (v ∷ rows) h = ground (arith, h, find?-none p rows)

module _ (lower : String → String) where
  contains-load_watch_names :
      (ecosystem name : String) (rows : List Watch)
      → contains (load_watch_names lower ecosystem rows) (lower name)
        ≡ any (is_watch lower ecosystem name) rows
  unfolding load_watch_names
  contains-load_watch_names ecosystem name [] = refl
  contains-load_watch_names ecosystem name (w ∷ rows) =
      ground (arith, contains-load_watch_names ecosystem name rows)

  module _ (cfg : WatchSettings) (scans : List VersionScan) (now : ℕ)
      (ecosystem name : String) where
    -- whether the table is asked at all
    abbrev pub is_asked : Bool
    is_asked = cfg.enabled && (contains watch_ecosystems ecosystem && not (str_eq name ""))

    -- the row is within its window
    abbrev pub is_active : Watch → Bool
    is_active w = not (is_expired lower cfg now w || is_exhausted lower cfg scans ecosystem name w)

    abbrev pub answer : Option Watch → Bool
    answer none = false
    answer (some w) = is_active w

    pub is_maintainer_watched-answer :
        (rows : List Watch)
        → is_maintainer_watched lower cfg scans now ecosystem name rows
          ≡ (is_asked && answer (find? (is_watch lower ecosystem name) rows))
    unfolding is_maintainer_watched
    is_maintainer_watched-answer rows =
        let p = is_watch lower ecosystem name in
        let names = contains-load_watch_names ecosystem name rows in
        elim (Option-cases (find? p rows)) [
          | inl e ↦ rw (e, is_maintainer_watched) (ground (arith, names))
          | inr (w, e) ↦
              let hit = any-find? p rows w e in
              rw (e, is_maintainer_watched) (ground (arith, names, hit))
        ]
