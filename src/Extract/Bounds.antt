-- ===== src/Extract/Bounds.antt =====
-- How much an archive may write, what exactly it writes, and when it is refused.
use mathlib.Core.List.{append-nil, append_assoc}
use pkgsentry_oss.Prelude.{
  ℕ, ◌+◌, ◌≤◌, ◌≡◌, ◌⊎◌, Bool, ltb, Bool-cases, not, ◌&&◌, Option, none, some, List, [], ◌∷◌, ◌++◌,
  length, arith, leb, is_some, Option-cases, inl, inr, if◌then◌else◌,
}
use pkgsentry_oss.Extract.{
  FilePath, Kind, Member, ExtractionError, failed, Disk, make, System, store_file, safe_path,
  extract_members, extract_tar,
}
use pkgsentry_oss.Extract.Confined.{Kind-cases}
use pkgsentry_oss.Extract.Files.{bytes, added, Fails, store_file-bounds, store_file-ends}

-- where a member is written to, and whether it can be read
abbrev pub place : Kind → Option FilePath → Option (FilePath × Bool)
place (Kind.file readable) (some dest) = some (dest, readable)
place _ _ = none

module _ (os : System) (out_dir : FilePath) where
  extract_members-bounds :
      (cap total : ℕ) (members : List Member) (d : Disk)
      → bytes d.written ≤ total
      → total ≤ cap
      → (bytes (extract_members os out_dir cap total members d).0.written ≤ cap)
        × (length (extract_members os out_dir cap total members d).0.written
            ≤ length d.written + length members)
  unfolding extract_members
  extract_members-bounds cap total [] d h k = (omega (arith, h, k), omega arith)
  extract_members-bounds cap total (m ∷ members) d h k =
      elim (Option-cases (safe_path os.resolve out_dir m.name)) [
        | inl e ↦ ground (arith, e, h, k, extract_members-bounds cap total members d h k)
        | inr (dest, e) ↦ elim (Kind-cases m.kind) [
          | inl s ↦ ground (arith, e, s, h, k, extract_members-bounds cap total members d h k)
          | inr (inl s) ↦
              ground (arith, e, s, h, k, extract_members-bounds cap total members (make dest d) h k)
          | inr (inr (readable, s)) ↦
              let next = (store_file os dest readable m.size d).0 in
              ground (
                arith,
                e,
                s,
                h,
                k,
                store_file-bounds os dest readable m.size d,
                extract_members-bounds cap (total + m.size) members next,
              )
        ]
      ]

  abbrev pub target : Member → Option (FilePath × Bool)
  target m = place m.kind (safe_path os.resolve out_dir m.name)

  -- the sizes that count
  abbrev pub charged : List Member → ℕ
  charged [] = 0
  charged (m ∷ members) =
      let rest = charged members in elim (target m) [ none ↦ rest | some t ↦ m.size + rest ]

  -- the files that a whole unpacking writes
  abbrev pub stored : List Member → List (FilePath × ℕ)
  stored [] = []
  stored (m ∷ members) =
      let rest = stored members in
      elim (target m) [ none ↦ rest | some (dest, readable) ↦ added dest readable m.size ++ rest ]

  -- Either some call of the system has failed; or the end of the loop is told by the sizes alone, and what
  -- it has written, if nothing is refused, by the members.
  abbrev Ends : ℕ → ℕ → List Member → Disk → Type 0
  Ends cap total members d =
      let (e, error) = extract_members os out_dir cap total members d in
      let fits = leb (total + charged members) cap in
      ((error ≡ some failed) × Fails os)
      ⊎ ((error ≡ (if fits then none else some ExtractionError.too_large))
          × ((if fits then e.written else []) ≡ (if fits then d.written ++ stored members else [])))

  extract_members-Ends :
      (cap total : ℕ) (members : List Member) (d : Disk) → total ≤ cap → Ends cap total members d
  unfolding extract_members
  extract_members-Ends cap total [] d k =
      inr (ground (arith, k), ground (arith, append-nil d.written))
  extract_members-Ends cap total (m ∷ members) d k =
      elim (Option-cases (safe_path os.resolve out_dir m.name)) [
        | inl e ↦ elim (extract_members-Ends cap total members d k) [
          | inl (x, f) ↦ inl (ground (arith, e, x), f)
          | inr p ↦ inr (ground (arith, e, p))
        ]
        | inr (dest, e) ↦ elim (Kind-cases m.kind) [
          | inl s ↦ elim (extract_members-Ends cap total members d k) [
            | inl (x, f) ↦ inl (ground (arith, e, s, x), f)
            | inr p ↦ inr (ground (arith, e, s, p))
          ]
          | inr (inl s) ↦ elim (Bool-cases (os.mkdir_fails d dest)) [
            | inl y ↦ inl (ground (arith, e, s, y), (d, dest, 0, ground (arith, y)))
            | inr n ↦ elim (extract_members-Ends cap total members (make dest d) k) [
              | inl (x, f) ↦ inl (ground (arith, e, s, n, x), f)
              | inr p ↦ inr (ground (arith, e, s, n, p))
            ]
          ]
          | inr (inr (readable, s)) ↦ elim (Bool-cases (ltb cap (total + m.size))) [
            | inl over ↦ inr (ground (arith, e, s, over))
            | inr within ↦
                let next = (store_file os dest readable m.size d).0 in
                elim (store_file-ends os dest readable m.size d) [
                  | inl (x, f) ↦ inl (ground (arith, e, s, within, x), f)
                  | inr (ok, wrote) ↦
                      elim (extract_members-Ends cap (total + m.size) members next
                        (ground (arith, within))) [
                          | inl (x, f) ↦ inl (ground (arith, e, s, within, ok, x), f)
                          | inr p ↦ inr (
                              ground (
                                arith,
                                e,
                                s,
                                within,
                                ok,
                                wrote,
                                p,
                                append_assoc d.written (added dest readable m.size)
                                    (stored members),
                              ))
                        ]
                ]
          ]
        ]
      ]

  -- At most `max_files` files are written, and at most `max_total_bytes` in all, also by an unpacking
  -- that is refused on the way.
  pub extract_tar-bytes :
      (max_files max_total_bytes : ℕ) (members : List Member) (d : Disk)
      → d.written ≡ []
      → let e = (extract_tar os out_dir max_files max_total_bytes members d).0 in
        (length e.written ≤ max_files) × (bytes e.written ≤ max_total_bytes)
  unfolding extract_tar
  extract_tar-bytes max_files max_total_bytes members d h =
      ground (arith, h, extract_members-bounds max_total_bytes 0 members d)

  -- Unless some call of the system or of the archive's reader fails, an unpacking is refused exactly when
  -- the archive has too many members, or the sizes of those files that have a safe path add up to more than
  -- allowed; otherwise the readable ones of these are written, in their order and as a whole, and nothing
  -- else.
  pub extract_tar-stored :
      (max_files max_total_bytes : ℕ) (members : List Member) (d : Disk)
      → d.written ≡ []
      → let (e, error) = extract_tar os out_dir max_files max_total_bytes members d in
        let fits = leb (length members) max_files && leb (charged members) max_total_bytes in
        ((error ≡ some failed) × Fails os)
        ⊎ ((is_some error ≡ not fits)
            × ((if fits then e.written else []) ≡ (if fits then stored members else [])))
  unfolding extract_tar
  extract_tar-stored max_files max_total_bytes members d h =
      elim (Bool-cases (ltb max_files (length members))) [
        | inl many ↦ inr (ground (arith, many))
        | inr few ↦ elim (extract_members-Ends max_total_bytes 0 members d (omega arith)) [
          | inl (x, f) ↦ inl (ground (arith, few, x), f)
          | inr p ↦ inr (ground (arith, h, few, p))
        ]
      ]
