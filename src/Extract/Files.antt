-- ===== src/Extract/Files.antt =====
-- What storing one file does to the disk, and when it fails.
use mathlib.Core.List.{append-nil}
use pkgsentry_oss.Prelude.{
  ℕ, ◌+◌, suc, ◌≤◌, ◌≡◌, refl, sym, ◌∙◌, ◌⊎◌, min, Bool, true, false, ◌||◌, Bool-cases, not, List,
  [], ◌∷◌, ◌++◌, length, length-append, arith, inl, inr, if◌then◌else◌,
}
use pkgsentry_oss.Extract.{
  FilePath, Disk, make, parent, System, Copied, refused, whole, broken, copy_to, store_file,
}

abbrev pub bytes : List (FilePath × ℕ) → ℕ
bytes [] = 0
bytes ((path, size) ∷ ws) = size + bytes ws

pub bytes-append : (vs ws : List (FilePath × ℕ)) → bytes (vs ++ ws) ≡ bytes vs + bytes ws
bytes-append [] ws = omega arith
bytes-append ((path, size) ∷ vs) ws = omega (arith, bytes-append vs ws)

-- a copy that does not end well
abbrev pub is_whole : Copied → Bool
is_whole whole = true
is_whole _ = false

-- some call of the system fails
abbrev pub Fails : System → Type 0
Fails os =
    (d : Disk) × (path : FilePath) × (size : ℕ) × ((os.mkdir_fails d path
        || not (is_whole (os.copied d path size)))
      ≡ true)

-- what storing a file adds, if it ends well
abbrev pub added : FilePath → Bool → ℕ → List (FilePath × ℕ)
added dest readable size = if readable then (dest, size) ∷ [] else []

module _ (os : System) where
  copy_to-bounds :
      (dest : FilePath) (size : ℕ) (d : Disk) (c : Copied)
      → (bytes (copy_to dest size d c).0.written ≤ bytes d.written + size)
        × (length (copy_to dest size d c).0.written ≤ suc (length d.written))
  unfolding copy_to
  copy_to-bounds dest size d refused = (omega arith, omega arith)
  copy_to-bounds dest size d whole = (
    omega (arith, bytes-append d.written ((dest, size) ∷ [])),
    omega (arith, length-append d.written ((dest, size) ∷ [])),
  )
  copy_to-bounds dest size d (broken n) = (
    omega (arith, bytes-append d.written ((dest, min n size) ∷ [])),
    omega (arith, length-append d.written ((dest, min n size) ∷ [])),
  )

  pub store_file-bounds :
      (dest : FilePath) (readable : Bool) (size : ℕ) (d : Disk)
      → (bytes (store_file os dest readable size d).0.written ≤ bytes d.written + size)
        × (length (store_file os dest readable size d).0.written ≤ suc (length d.written))
  unfolding store_file
  store_file-bounds dest readable size d =
      let opened = make (parent dest) d in
      let copied = copy_to-bounds dest size opened (os.copied opened dest size) in
      ground (arith, copied)

  copy_to-ends :
      (dest : FilePath) (size : ℕ) (d : Disk) (c : Copied)
      → ((copy_to dest size d c).1 ≡ is_whole c)
        × ((if is_whole c then (copy_to dest size d c).0.written else [])
            ≡ (if is_whole c then d.written ++ (dest, size) ∷ [] else []))
  unfolding copy_to
  copy_to-ends dest size d refused = (refl, refl)
  copy_to-ends dest size d whole = (refl, refl)
  copy_to-ends dest size d (broken n) = (refl, refl)

  -- a file is stored as a whole, or some call of the system has failed
  pub store_file-ends :
      (dest : FilePath) (readable : Bool) (size : ℕ) (d : Disk)
      → (((store_file os dest readable size d).1 ≡ false) × Fails os)
        ⊎ (((store_file os dest readable size d).1 ≡ true)
            × ((store_file os dest readable size d).0.written
                ≡ d.written ++ added dest readable size))
  unfolding store_file
  store_file-ends dest readable size d =
      let opened = make (parent dest) d in
      let c = os.copied opened dest size in
      elim (Bool-cases (os.mkdir_fails d (parent dest))) [
        | inl y ↦ inl (rw (y, store_file) refl, (d, parent dest, size, ground (arith, y)))
        | inr n ↦ elim (Bool-cases readable) [
          | inr f ↦ inr (rw (n, f, store_file) (refl, sym (append-nil d.written)))
          | inl t ↦
              let (flag, kept) = copy_to-ends dest size opened c in
              elim (Bool-cases (is_whole c)) [
                | inr b ↦
                    inl (rw (n, t, store_file) (flag ∙ b), (opened, dest, size, ground (arith, b)))
                | inl w ↦ inr (rw (n, t, store_file) (flag ∙ w, rw w at kept))
              ]
        ]
      ]
