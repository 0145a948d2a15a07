-- ===== src/Extract.antt =====
-- The unpacking of archives (pkgward/util/extract.py). A path is the list of its parts below the root, as
-- pathlib keeps it on POSIX. `resolve` stands for `Path.resolve`, which follows the links of the disk.
-- The streams of a member give at most its declared size, which is what a write is counted with; opening
-- an archive that is broken raises before the first member and is left out. `System` stands for the
-- operating system and the reader of the archive, each call of which may raise.
pub mod Confined
pub mod Files
pub mod Bounds
use pkgsentry_oss.Prelude.{
  ℕ, ◌+◌, ◌*◌, min, Bool, true, false, not, ◌&&◌, ◌||◌, Option, none, some, List, [], ◌∷◌, ◌++◌,
  map, filter, any, length, ltb, if◌then◌else◌,
}
use pkgsentry_oss.Prelude.Texts.{Text, codes, text_eq, starts_with, lower, split}

abbrev pub FilePath : Type 0
FilePath = List Text

-- `out_dir / path` of a relative path
abbrev pub below : FilePath → FilePath → FilePath
below out_dir path = out_dir ++ path

-- `Path(name).parts` of a relative name: neither empty parts nor dots
unfoldable pub parts_of : Text → FilePath
parts_of name =
    filter (λ (p : Text). not (text_eq p []) && not (text_eq p (codes "."))) (split 47 name)

-- whether `relative_to` finds the second path above the first
abbrev pub is_under : FilePath → FilePath → Bool
is_under path [] = true
is_under [] (q ∷ base) = false
is_under (p ∷ path) (q ∷ base) = text_eq p q && is_under path base

pub data Kind : Type 0 where
  -- symbolic and hard links, devices and pipes
  special : Kind
  directory : Kind
  -- a file, and whether its stream can be opened
  file : Bool → Kind

pub record Member : Type 0 where
  pub name : Text
  pub kind : Kind
  pub size : ℕ

pub data ExtractionError : Type 0 where
  too_many_files too_large insufficient_disk unknown_type : ExtractionError
  -- another exception: a call of the system or of the archive's reader has raised
  failed : ExtractionError

-- what has been done to the disk: the directories that `mkdir` was called for, which makes their ancestors
-- too, and the files with their sizes
pub record Disk : Type 0 where
  pub asked : List FilePath
  pub written : List (FilePath × ℕ)

abbrev pub make : FilePath → Disk → Disk
make path d = record d { asked = d.asked ++ path ∷ [] }

abbrev pub write : FilePath → ℕ → Disk → Disk
write path size d = record d { written = d.written ++ (path, size) ∷ [] }

-- how a copy to a new file ends: an exception before the file is open, one after some bytes, or well
pub data Copied : Type 0 where
  refused whole : Copied
  broken : ℕ → Copied

-- What the system answers, given what has been done to the disk. A call fails, for instance, where a file
-- stands in the place of a directory, or a directory in that of a file.
pub record System : Type 0 where
  pub resolve : FilePath → FilePath
  pub mkdir_fails : Disk → FilePath → Bool
  pub copied : Disk → FilePath → ℕ → Copied

-- `open` and `copyfileobj`, with what is on the disk then, and whether no exception is raised
unfoldable pub copy_to : FilePath → ℕ → Disk → Copied → Disk × Bool
copy_to dest size d refused = (d, false)
copy_to dest size d whole = (write dest size d, true)
copy_to dest size d (broken n) = (write dest (min n size) d, false)

-- `path.parent`
abbrev pub parent : FilePath → FilePath
parent [] = []
parent (p ∷ []) = []
parent (p ∷ q ∷ path) = p ∷ parent (q ∷ path)

module _ (resolve : FilePath → FilePath) (out_dir : FilePath) where
  unfoldable pub is_within : FilePath → Bool
  is_within target = is_under (resolve target) (resolve out_dir)

  -- 47 and 92 are the slash and the backslash
  unfoldable pub safe_path : Text → Option FilePath
  unfolding parts_of is_within
  safe_path member_name =
      let kept = filter (λ (p : Text). not (text_eq p (codes ".."))) (parts_of member_name) in
      if starts_with member_name (47 ∷ []) || starts_with member_name (92 ∷ [])
      then none
      else if is_within (below out_dir kept)
      then some (below out_dir kept)
      else none

-- a file below its directory, which is made first, and whether no exception is raised
unfoldable pub store_file : System → FilePath → Bool → ℕ → Disk → Disk × Bool
unfolding copy_to
store_file os dest readable size d =
    let opened = make (parent dest) d in
    if os.mkdir_fails d (parent dest)
    then (opened, false)
    else if readable
    then copy_to dest size opened (os.copied opened dest size)
    else (opened, true)

module _ (os : System) (out_dir : FilePath) where
  -- The loop of `_extract_tar`, and that of `_extract_zip` on members that are no links.
  unfoldable pub extract_members : ℕ → ℕ → List Member → Disk → Disk × Option ExtractionError
  unfolding safe_path store_file
  extract_members max_total_bytes total [] d = (d, none)
  extract_members max_total_bytes total (m ∷ members) d =
      elim (safe_path os.resolve out_dir m.name) [
        | none ↦ extract_members max_total_bytes total members d
        | some dest ↦ elim m.kind [
          | special ↦ extract_members max_total_bytes total members d
          | directory ↦
              let rest = extract_members max_total_bytes total members (make dest d) in
              if os.mkdir_fails d dest then (make dest d, some failed) else rest
          | file readable ↦
              let (next, ok) = store_file os dest readable m.size d in
              let rest = extract_members max_total_bytes (total + m.size) members next in
              if ltb max_total_bytes (total + m.size)
              then (d, some ExtractionError.too_large)
              else if ok
              then rest
              else (next, some failed)
        ]
      ]

  unfoldable pub extract_tar : ℕ → ℕ → List Member → Disk → Disk × Option ExtractionError
  unfolding extract_members
  extract_tar max_files max_total_bytes members d =
      if ltb max_files (length members)
      then (d, some ExtractionError.too_many_files)
      else extract_members max_total_bytes 0 members d

-- `s.endswith(p)`
abbrev pub ends_with : Text → Text → Bool
ends_with [] p = text_eq [] p
ends_with (c ∷ s) p = text_eq (c ∷ s) p || ends_with s p

-- an entry of a zip archive, which is a directory if its name ends in a slash
abbrev pub zip_member : Text × ℕ → Member
zip_member (filename, file_size) = record {
  name = filename;
  kind = if ends_with filename (47 ∷ []) then Kind.directory else Kind.file true;
  size = file_size;
}

abbrev pub has_suffix : Text → List Text → Bool
has_suffix name suffixes = any (ends_with name) suffixes

abbrev pub tar_suffixes : List Text
tar_suffixes =
    codes ".tar.gz" ∷ codes ".tgz" ∷ codes ".tar.bz2" ∷ codes ".tar" ∷ codes ".crate" ∷ []

abbrev pub zip_suffixes : List Text
zip_suffixes = codes ".whl" ∷ codes ".zip" ∷ codes ".egg" ∷ []

-- what the archive of this name holds, read as a tar or as a zip file
pub record Archive : Type 0 where
  pub name : Text
  pub members : List Member
  pub infos : List (Text × ℕ)

-- `free` is the free space, if it is known
unfoldable pub safe_extract :
    System → Option ℕ → ℕ → ℕ → Archive → FilePath → Disk → Disk × Option ExtractionError
unfolding extract_tar
safe_extract os free max_files max_total_bytes archive out_dir d =
    let name = lower archive.name in
    let ready = make out_dir d in
    let short : Bool = elim free [
      | none ↦ false
      | some n ↦ ltb n (max_total_bytes + 64 * 1024 * 1024)
    ] in
    if os.mkdir_fails d out_dir
    then (ready, some failed)
    else if short
    then (ready, some ExtractionError.insufficient_disk)
    else if has_suffix name tar_suffixes
    then extract_tar os out_dir max_files max_total_bytes archive.members ready
    else if has_suffix name zip_suffixes
    then extract_tar os out_dir max_files max_total_bytes (map zip_member archive.infos) ready
    else (ready, some ExtractionError.unknown_type)
