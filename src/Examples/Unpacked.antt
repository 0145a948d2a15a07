-- ===== src/Examples/Unpacked.antt =====
-- An archive with a link, a path that goes up, and an absolute path.
use pkgsentry_oss.Prelude.{
  ℕ, ◌≤◌, ◌≡◌, refl, true, not, ◌&&◌, ◌⊎◌, any, some, List, [], ◌∷◌, none, length, leb, is_some,
  if◌then◌else◌,
}
use pkgsentry_oss.Prelude.Texts.{Text, codes, lower_code}
use pkgsentry_oss.Extract.{
  FilePath, Member, Kind, Archive, Disk, extract_tar, safe_extract, extract_members, safe_path,
  parts_of, is_within, is_under, System, refused, whole, failed, store_file, copy_to,
}
use pkgsentry_oss.Extract.Confined.{IsTidy, safe_extract-IsTidy}
use pkgsentry_oss.Extract.Files.{bytes, Fails}
use pkgsentry_oss.Extract.Bounds.{charged, stored, extract_tar-bytes, extract_tar-stored}

-- an empty disk without links, where only a file and a directory of one name get in each other's way
abbrev plain : System
plain = record {
  resolve = λ p. p;
  mkdir_fails = λ d path. any (λ w. is_under path w.0) d.written;
  copied = λ d path size. if any (λ q. is_under q path) d.asked then refused else whole;
}

abbrev out : FilePath
out = codes "tmp" ∷ codes "x" ∷ []

abbrev member : Text → Kind → ℕ → Member
member name kind size = record { name = name; kind = kind; size = size }

abbrev members : List Member
members =
    member (codes "pkg") Kind.directory 0
    ∷ member (codes "pkg/../../setup.py") (Kind.file true) 30
    ∷ member (codes "/etc/passwd") (Kind.file true) 10
    ∷ member (codes "link") Kind.special 0
    ∷ []

abbrev archive : Archive
archive = record { name = codes "evil-1.0.TGZ"; members = members; infos = [] }

abbrev blank : Disk
blank = record { asked = []; written = [] }

-- The file that would go up stays below the directory.
unpacks :
    (safe_extract plain none 10 100 archive out blank).0.written
    ≡ (codes "tmp" ∷ codes "x" ∷ codes "pkg" ∷ codes "setup.py" ∷ [], 30) ∷ []
unfolding safe_extract extract_tar extract_members safe_path parts_of is_within lower_code
    store_file copy_to
unpacks = refl

-- a file `a` after a file below a directory `a`
abbrev clash : List Member
clash = member (codes "a/b") (Kind.file true) 3 ∷ member (codes "a") (Kind.file true) 4 ∷ []

clash_fails :
    ((extract_tar plain out 10 100 clash blank).1 ≡ some failed)
    × (bytes (extract_tar plain out 10 100 clash blank).0.written ≡ 3)
unfolding extract_tar extract_members safe_path parts_of is_within store_file copy_to
clash_fails = (refl, refl)

safe_extract-IsTidy_example :
    IsTidy plain.resolve out (safe_extract plain none 10 100 archive out blank).0
safe_extract-IsTidy_example =
    safe_extract-IsTidy plain none 10 100 archive out blank
      (record { files = tt; directories = tt })

extract_tar-bytes_example :
    let e = (extract_tar plain out 10 20 members blank).0 in
    (length e.written ≤ 10) × (bytes e.written ≤ 20)
extract_tar-bytes_example = extract_tar-bytes plain out 10 20 members blank refl

extract_tar-stored_example :
    let (e, error) = extract_tar plain out 10 100 members blank in
    let fits = leb (length members) 10 && leb (charged plain out members) 100 in
    ((error ≡ some failed) × Fails plain)
    ⊎ ((is_some error ≡ not fits)
        × ((if fits then e.written else []) ≡ (if fits then stored plain out members else [])))
extract_tar-stored_example = extract_tar-stored plain out 10 100 members blank refl
