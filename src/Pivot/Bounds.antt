-- ===== src/Pivot/Bounds.antt =====
-- How many rows a sweep adds to the scan queue.
use pkgsentry_oss.Prelude.{
  ℕ, zero, suc, ◌+◌, ◌≤◌, ◌≡◌, refl, String, Bool, false, Option, some, List, [], ◌∷◌, ◌++◌, map,
  Dict, contains, extend_new, length, is_some, arith, Bool-cases, inl, inr, nat_eq, if◌then◌else◌,
  length-append, find?, Option-cases,
}
use pkgsentry_oss.Adapter.{Finding}
use pkgsentry_oss.Queue.{
  ScanQueue, Row, InsertOutcome, Priority, enqueue, insert_loop, insert_row, new_row, is_item,
  enqueue_auto, enqueue_rescan,
}
use pkgsentry_oss.Triage.Attempts.{TriageResult}
use pkgsentry_oss.Pivot.{
  PivotSettings, PivotDesk, JoinedScan, high_fidelity, catalog_names, sweep_catalog,
  sweep_maintainers, sweep_resolved, sweep_on_malicious, enqueue_catalog, enqueue_one, version_of,
}
use pkgsentry_oss.Pivot.Sweep.{sweep_on_malicious-warranted}

abbrev pub size : ScanQueue → ℕ
size q = length q.rows

length-map {ℓ} : {A : Type ℓ} {B : Type ℓ} (f : A → B) (xs : List A) → length (map f xs) ≡ length xs
length-map f [] = refl
length-map f (x ∷ xs) = ground (arith, length-map f xs)

insert_loop-le :
    (answer : ℕ → InsertOutcome) (left attempt : ℕ) (q : ScanQueue) (r : Row)
    → size (insert_loop answer left attempt q r).0 ≤ suc (size q)
unfolding insert_loop insert_row
insert_loop-le answer zero attempt q r = ground (arith, length-append q.rows (r ∷ []))
insert_loop-le answer (suc left) attempt q r =
    ground (arith, length-append q.rows (r ∷ []), insert_loop-le answer left (suc attempt) q r)

enqueue-le :
    (answer : ℕ → InsertOutcome) (retries : ℕ) (q : ScanQueue) (ecosystem name version : String)
    (p : Priority) (again : Bool) (now : ℕ)
    → size (enqueue answer retries q ecosystem name version p again now).0 ≤ suc (size q)
unfolding enqueue
enqueue-le answer retries q ecosystem name version p again now =
    elim (Option-cases (find? (is_item ecosystem name version) q.rows)) [
      | inl n ↦
          rw (n, enqueue)
            (insert_loop-le answer retries 0 q (new_row q ecosystem name version p now))
      | inr (r, e) ↦
          rw (e, enqueue)
            (ground (
              arith,
              length-map
                  (λ (x : Row).
                    if nat_eq x.id r.id
                    then (if again then enqueue_rescan p else enqueue_auto p) x
                    else x)
                  q.rows,
            ))
    ]

length-extend_new : (xs ys : List String) → length xs ≤ length (extend_new xs ys)
unfolding extend_new
length-extend_new xs [] = omega arith
length-extend_new xs (y ∷ ys) = elim (Bool-cases (contains xs y)) [
  | inl h ↦ rw (h, extend_new) (length-extend_new xs ys)
  | inr h ↦
      rw (h, extend_new)
        (ground (arith, length-append xs (y ∷ []), length-extend_new (xs ++ y ∷ []) ys))
]

length-catalog_names :
    (name : String) (catalog : Dict String) → length catalog ≤ length (catalog_names name catalog)
unfolding catalog_names
length-catalog_names name catalog = ground (
  arith,
  length-map (λ (n, v). n) catalog,
  length-extend_new (map (λ (n, v). n) catalog) (name ∷ []),
)

module _ (cfg : PivotSettings) (lower : String → String) (late : String → Bool)
    (latest : String → String) (answer : String → ℕ → InsertOutcome) (retries now : ℕ) where
  enqueue_one-le :
      (ecosystem name version : String) (q : ScanQueue)
      → size (enqueue_one cfg lower late latest answer retries now ecosystem name version q).0
        ≤ suc (size q)
  unfolding enqueue_one
  enqueue_one-le ecosystem name version q =
      enqueue-le (answer name) retries q ecosystem name version Priority.high false now

  enqueue_catalog-le :
      (ecosystem exclude : String) (catalog : Dict String) (q : ScanQueue)
      → size
          (enqueue_catalog cfg lower late latest answer retries now ecosystem exclude catalog q).0
        ≤ size q + length catalog
  unfolding enqueue_catalog
  enqueue_catalog-le ecosystem exclude [] q = omega arith
  enqueue_catalog-le ecosystem exclude ((name, version) ∷ catalog) q =
      let v = version_of cfg lower late latest answer retries now ecosystem name version in
      let next = (enqueue_one cfg lower late latest answer retries now ecosystem name v q).0 in
      ground (
        arith,
        enqueue_one-le ecosystem name v q,
        enqueue_catalog-le ecosystem exclude catalog q,
        enqueue_catalog-le ecosystem exclude catalog next,
      )

  module _ (inserted : String → Bool) (scans : Option (List JoinedScan)) (tick : ℕ) where
    sweep_maintainers-le :
        (ecosystem name : String) (hi : Bool) (maintainers : List String) (catalog : Dict String)
        (d : PivotDesk)
        → size
            (sweep_maintainers cfg lower late latest answer retries now inserted scans tick
              ecosystem name hi maintainers catalog d).0.queue
          ≤ size d.queue + length catalog
    unfolding sweep_maintainers sweep_catalog
    sweep_maintainers-le ecosystem name hi [] catalog d = omega arith
    sweep_maintainers-le ecosystem name hi (m ∷ ms) catalog d =
        ground (arith, enqueue_catalog-le ecosystem name catalog d.queue)

    sweep_on_malicious-le :
        (chain_ids : List String) (manual : Bool) (ecosystem name : String)
        (findings : List Finding) (tri : Option TriageResult) (maintainers : List String)
        (catalog : Dict String) (d : PivotDesk)
        → size
            (sweep_on_malicious cfg lower late latest answer retries now inserted scans tick
              chain_ids manual ecosystem name findings tri
              (some (maintainers, catalog))
              d).0.queue
          ≤ size d.queue + length catalog
    unfolding sweep_on_malicious sweep_resolved
    sweep_on_malicious-le chain_ids manual ecosystem name findings tri maintainers catalog d =
        let hi = is_some (high_fidelity cfg chain_ids findings tri) in
        ground (arith, sweep_maintainers-le ecosystem name hi maintainers catalog d)

    -- A sweep adds at most as many rows to the scan queue as the settings allow packages, whatever the
    -- registry, the database and the clock answer.
    pub sweep_on_malicious-bound :
        (chain_ids : List String) (manual : Bool) (ecosystem name : String)
        (findings : List Finding) (tri : Option TriageResult) (maintainers : List String)
        (catalog : Dict String) (d : PivotDesk)
        → size
            (sweep_on_malicious cfg lower late latest answer retries now inserted scans tick
              chain_ids manual ecosystem name findings tri
              (some (maintainers, catalog))
              d).0.queue
          ≤ size d.queue + cfg.max_pkgs
    sweep_on_malicious-bound chain_ids manual ecosystem name findings tri maintainers catalog d =
        let below =
          sweep_on_malicious-le chain_ids manual ecosystem name findings tri maintainers catalog
            d in
        elim (sweep_on_malicious-warranted cfg lower late latest answer retries now inserted scans
          tick chain_ids manual ecosystem name findings tri maintainers catalog d) [
            | inl (same, _) ↦ rw same (omega arith)
            | inr (_, (small, _)) ↦ ground (arith, below, small, length-catalog_names name catalog)
          ]
