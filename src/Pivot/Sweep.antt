-- ===== src/Pivot/Sweep.antt =====
-- When a sweep writes, and how much.
use Prim.Native.String.{◌++◌}
use pkgsentry_oss.Prelude.{
  ℕ, ◌≤◌, ◌≡◌, refl, ◌⊎◌, String, Bool, true, false, not, ◌&&◌, ◌||◌, Option, some, List, [], ◌∷◌,
  Dict, contains, length, is_some, leb, ltb, arith, Bool-cases, inl, inr,
}
use pkgsentry_oss.Adapter.{Finding}
use pkgsentry_oss.Queue.{InsertOutcome}
use pkgsentry_oss.Triage.Attempts.{TriageResult}
use pkgsentry_oss.Pivot.{
  PivotSettings, PivotDesk, JoinedScan, is_blocklisted, high_fidelity, confirmed, catalog_names,
  pivot_ecosystems, sweep_catalog, sweep_maintainers, sweep_resolved, sweep_on_malicious,
  trigger_eligible_findings, recently_swept, mark_swept,
}

-- a sweep either leaves the queue and the watches alone or is warranted
abbrev pub Calm : PivotDesk → PivotDesk → Type 0
Calm d e = (e.queue ≡ d.queue) × (e.watches ≡ d.watches)

module _ (cfg : PivotSettings) (lower : String → String) (late : String → Bool)
    (latest : String → String) (answer : String → ℕ → InsertOutcome) (retries now : ℕ)
    (inserted : String → Bool) (scans : Option (List JoinedScan)) (tick : ℕ) where
  sweep_catalog-cases :
      (ecosystem name maintainer : String) (catalog : Dict String) (malicious : List String)
      (d : PivotDesk)
      → Calm d
          (sweep_catalog cfg lower late latest answer retries now inserted ecosystem name maintainer
            catalog malicious d).0
        ⊎ (cfg.shadow ≡ false)
  unfolding sweep_catalog
  sweep_catalog-cases ecosystem name maintainer catalog malicious d = elim (Bool-cases cfg.shadow) [
    | inl y ↦ inl (rw y (refl, refl))
    | inr n ↦ inr n
  ]

  sweep_maintainers-cases :
      (ecosystem name : String) (hi : Bool) (maintainers : List String) (catalog : Dict String)
      (d : PivotDesk)
      → Calm d
          (sweep_maintainers cfg lower late latest answer retries now inserted scans tick ecosystem
            name hi maintainers catalog d).0
        ⊎ ((cfg.shadow ≡ false)
            × ((leb (length (catalog_names name catalog)) cfg.max_pkgs ≡ true)
                × ((hi
                      || leb 2 (
                          length
                            (confirmed cfg lower scans now ecosystem (catalog_names name catalog))))
                    ≡ true)))
  unfolding sweep_maintainers
  sweep_maintainers-cases ecosystem name hi [] catalog d = inl (refl, refl)
  sweep_maintainers-cases ecosystem name hi (m ∷ ms) catalog d =
      let names = catalog_names name catalog in
      let malicious = confirmed cfg lower scans now ecosystem names in
      let key = ecosystem ++ (":" ++ lower m) in
      let marked : PivotDesk = record d {
        recent_sweeps = mark_swept cfg tick key d.recent_sweeps;
      } in
      elim (Bool-cases (recently_swept cfg tick key d.recent_sweeps)) [
        | inl y ↦ inl (rw y (refl, refl))
        | inr n ↦ elim (Bool-cases (ltb cfg.max_pkgs (length names))) [
          | inl y ↦ inl (rw (n, y) (refl, refl))
          | inr small ↦ elim (Bool-cases (hi || leb 2 (length malicious))) [
            | inr f ↦ inl (rw (n, small, f) (refl, refl))
            | inl y ↦ elim (sweep_catalog-cases ecosystem name m catalog malicious marked) [
              | inl (a, b) ↦ inl (rw (n, small, y) (a, b))
              | inr shown ↦ inr (shown, (ground (arith, small), y))
            ]
          ]
        ]
      ]

  -- A sweep changes the queue or the watches only if the feature is on and out of its shadow mode, the
  -- ecosystem has accounts, the name is not blocklisted, the packages of the maintainers are at most as
  -- many as allowed, and there is a conviction that is enough by itself or two of these packages have been
  -- confirmed as malicious in the window.
  pub sweep_on_malicious-warranted :
      (chain_ids : List String) (manual : Bool) (ecosystem name : String) (findings : List Finding)
      (tri : Option TriageResult) (maintainers : List String) (catalog : Dict String)
      (d : PivotDesk)
      → Calm d
          (sweep_on_malicious cfg lower late latest answer retries now inserted scans tick chain_ids
            manual ecosystem name findings tri
            (some (maintainers, catalog))
            d).0
        ⊎ (((cfg.enabled
                && (not cfg.shadow
                    && (contains pivot_ecosystems ecosystem
                        && not (is_blocklisted cfg lower ecosystem name))))
              ≡ true)
            × ((length (catalog_names name catalog) ≤ cfg.max_pkgs)
                × ((is_some (high_fidelity cfg chain_ids findings tri)
                      || leb 2 (
                          length
                            (confirmed cfg lower scans now ecosystem (catalog_names name catalog))))
                    ≡ true)))
  unfolding sweep_on_malicious sweep_resolved
  sweep_on_malicious-warranted chain_ids manual ecosystem name findings tri maintainers catalog d =
      let hi = is_some (high_fidelity cfg chain_ids findings tri) in
      elim (Bool-cases cfg.enabled) [
        | inr f ↦ inl (rw f (refl, refl))
        | inl on ↦ elim (Bool-cases (contains pivot_ecosystems ecosystem)) [
          | inr f ↦ inl (rw (on, f) (refl, refl))
          | inl known ↦ elim (Bool-cases (is_blocklisted cfg lower ecosystem name)) [
            | inl y ↦ inl (rw (on, known, y) (refl, refl))
            | inr free ↦
                elim (Bool-cases (
                  not manual
                  && (leb (length (trigger_eligible_findings cfg findings)) 0 && not hi))) [
                    | inl y ↦ inl (rw (on, known, free, y) (refl, refl))
                    | inr go ↦
                        elim (sweep_maintainers-cases ecosystem name hi maintainers catalog d) [
                          | inl (a, b) ↦ inl (rw (on, known, free, go) (a, b))
                          | inr (shown, (small, why)) ↦
                              inr (
                                ground (arith, on, known, free, shown),
                                (ground (arith, small), why),
                              )
                        ]
                  ]
          ]
        ]
      ]
