-- ===== src/Extract/Confined.antt =====
-- Where the files of an archive go.
use pkgsentry_oss.Prelude.{
  ℕ, ◌+◌, min, ◌≡◌, refl, sym, Bool, true, not, ◌&&◌, ◌⊎◌, Option, some, List, [], ◌∷◌, map, filter,
  all, All, All-append_one, arith, Bool-cases, Option-cases, inl, inr,
}
use mathlib.Core.List.{append-nil}
use pkgsentry_oss.Prelude.Texts.{text_eq_refl, Text, codes, text_eq, split}
use pkgsentry_oss.Extract.{
  is_under, Kind, zip_member, FilePath, below, parts_of, Member, Disk, make, write, parent,
  is_within, System, Copied, refused, whole, broken, copy_to, store_file, safe_path,
  extract_members, extract_tar, Archive, safe_extract,
}

-- a part that neither stays nor goes up
abbrev pub is_plain : Text → Bool
is_plain p = not (text_eq p []) && (not (text_eq p (codes ".")) && not (text_eq p (codes "..")))

plain-filter :
    (ps : List Text)
    → all is_plain (
        filter
          (λ (p : Text). not (text_eq p (codes "..")))
          (filter (λ (p : Text). not (text_eq p []) && not (text_eq p (codes "."))) ps))
      ≡ true
plain-filter [] = refl
plain-filter (p ∷ ps) =
    let ih = plain-filter ps in
    elim (Bool-cases (not (text_eq p []) && not (text_eq p (codes ".")))) [
      | inr f ↦ rw f ih
      | inl t ↦ elim (Bool-cases (text_eq p (codes ".."))) [
        | inl y ↦ rw t (rw y ih)
        | inr n ↦ rw t (rw n (ground (arith, t, n, ih)))
      ]
    ]

pub Kind-cases :
    (k : Kind)
    → (k ≡ Kind.special) ⊎ ((k ≡ Kind.directory) ⊎ ((readable : Bool) × (k ≡ Kind.file readable)))
Kind-cases Kind.special = inl refl
Kind-cases Kind.directory = inr (inl refl)
Kind-cases (Kind.file readable) = inr (inr (readable, refl))

module _ (resolve : FilePath → FilePath) (out_dir : FilePath) where
  -- the path is made of plain parts below the directory, and stays below it when links are followed
  abbrev pub IsConfined : FilePath → Type 0
  IsConfined path =
      (is_within resolve out_dir path ≡ true)
      × (parts : FilePath) × (path ≡ below out_dir parts)
      × (all is_plain parts ≡ true)

  safe_path-IsConfined :
      (name : Text) (dest : FilePath) → safe_path resolve out_dir name ≡ some dest → IsConfined dest
  unfolding safe_path parts_of
  safe_path-IsConfined name dest h =
      let kept = filter (λ (p : Text). not (text_eq p (codes ".."))) (parts_of name) in
      let same : below out_dir kept ≡ dest = ground (arith, h) in
      let inside : is_within resolve out_dir (below out_dir kept) ≡ true = ground (arith, h) in
      rw (← same) (inside, kept, refl, plain-filter (split 47 name))

  -- a directory that was asked for is confined or holds what is confined
  abbrev pub IsNear : FilePath → Type 0
  IsNear path = IsConfined path ⊎ ((q : FilePath) × (path ≡ parent q) × IsConfined q)

  pub record IsTidy (d : Disk) : Type 0 where
    pub files : All (λ (w : FilePath × ℕ). IsConfined w.0) d.written
    pub directories : All IsNear d.asked

  make-IsTidy : (path : FilePath) (d : Disk) → IsNear path → IsTidy d → IsTidy (make path d)
  make-IsTidy path d near h = record {
    files = h.files;
    directories = All-append_one IsNear d.asked path h.directories near;
  }

  write-IsTidy :
      (path : FilePath) (size : ℕ) (d : Disk)
      → IsConfined path
      → IsTidy d
      → IsTidy (write path size d)
  write-IsTidy path size d inside h = record {
    files =
        All-append_one (λ (w : FilePath × ℕ). IsConfined w.0) d.written (path, size) h.files inside;
    directories = h.directories;
  }

  copy_to-IsTidy :
      (dest : FilePath) (size : ℕ) (d : Disk)
      → IsConfined dest
      → IsTidy d
      → (c : Copied) → IsTidy (copy_to dest size d c).0
  unfolding copy_to
  copy_to-IsTidy dest size d inside h refused = h
  copy_to-IsTidy dest size d inside h whole = write-IsTidy dest size d inside h
  copy_to-IsTidy dest size d inside h (broken n) = write-IsTidy dest (min n size) d inside h

module _ (os : System) (out_dir : FilePath) where
  store_file-IsTidy :
      (dest : FilePath) (readable : Bool) (size : ℕ) (d : Disk)
      → IsConfined os.resolve out_dir dest
      → IsTidy os.resolve out_dir d
      → IsTidy os.resolve out_dir (store_file os dest readable size d).0
  unfolding store_file copy_to
  store_file-IsTidy dest readable size d inside h =
      let opened = make (parent dest) d in
      let h_opened = make-IsTidy os.resolve out_dir (parent dest) d (inr (dest, refl, inside)) h in
      elim (Bool-cases (os.mkdir_fails d (parent dest))) [
        | inl y ↦ rw (y, store_file) h_opened
        | inr n ↦ elim (Bool-cases readable) [
          | inr f ↦ rw (n, f, store_file) h_opened
          | inl t ↦
              rw (n, t, store_file)
                (copy_to-IsTidy os.resolve out_dir dest size opened inside h_opened
                  (os.copied opened dest size))
        ]
      ]

  extract_members-IsTidy :
      (cap total : ℕ) (members : List Member) (d : Disk)
      → IsTidy os.resolve out_dir d
      → IsTidy os.resolve out_dir (extract_members os out_dir cap total members d).0
  unfolding extract_members
  extract_members-IsTidy cap total [] d h = h
  extract_members-IsTidy cap total (m ∷ members) d h =
      elim (Option-cases (safe_path os.resolve out_dir m.name)) [
        | inl e ↦ rw (e, extract_members) (extract_members-IsTidy cap total members d h)
        | inr (dest, e) ↦
            let inside = safe_path-IsConfined os.resolve out_dir m.name dest e in
            elim (Kind-cases m.kind) [
              | inl s ↦ ground (arith, e, s, extract_members-IsTidy cap total members d h)
              | inr (inl s) ↦
                  let asked = make-IsTidy os.resolve out_dir dest d (inl inside) h in
                  ground (
                    arith,
                    e,
                    s,
                    asked,
                    extract_members-IsTidy cap total members (make dest d) asked,
                  )
              | inr (inr (readable, s)) ↦
                  let stored = store_file-IsTidy dest readable m.size d inside h in
                  let next = (store_file os dest readable m.size d).0 in
                  ground (
                    arith,
                    e,
                    s,
                    h,
                    stored,
                    extract_members-IsTidy cap (total + m.size) members next stored,
                  )
            ]
      ]

is_under_refl : (path : FilePath) → is_under path path ≡ true
is_under_refl [] = refl
is_under_refl (p ∷ path) = ground (arith, text_eq_refl p, is_under_refl path)

-- Whatever an archive holds and however the unpacking ends, every file it writes is made of plain parts
-- below the directory and is within it after links are followed; every directory that is asked for is so
-- too, or is the parent of such a path.
pub safe_extract-IsTidy :
    (os : System) (free : Option ℕ) (max_files max_total_bytes : ℕ) (archive : Archive)
    (out_dir : FilePath) (d : Disk)
    → IsTidy os.resolve out_dir d
    → IsTidy os.resolve out_dir (safe_extract os free max_files max_total_bytes archive out_dir d).0
unfolding safe_extract extract_tar is_within
safe_extract-IsTidy os free max_files cap archive out_dir d h =
    let here : IsConfined os.resolve out_dir out_dir =
      (is_under_refl (os.resolve out_dir), [], sym (append-nil out_dir), refl) in
    let start = make-IsTidy os.resolve out_dir out_dir d (inl here) h in
    let ready = make out_dir d in
    let tar = extract_members-IsTidy os out_dir cap 0 archive.members ready start in
    let zip = extract_members-IsTidy os out_dir cap 0 (map zip_member archive.infos) ready start in
    ground (arith, start, tar, zip)
