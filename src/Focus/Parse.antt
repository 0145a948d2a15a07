-- ===== src/Focus/Parse.antt =====
-- Focus files (pkgward/focus.py): the parsing of one list and of a file with sections, and how a file is
-- applied.
use pkgsentry_oss.Prelude.{
  ℕ, String, Bool, false, ◌&&◌, ◌||◌, Option, none, some, List, [], ◌∷◌, ◌++◌, map, any, find?,
  Dict, lookup, insert, get_or, ◌⊎◌, inl, inr, str_eq, nat_eq, leb, if◌then◌else◌,
}
use pkgsentry_oss.Prelude.Texts.{Text, codes, text_eq, starts_with, lower, before_sep}
use pkgsentry_oss.Scope.{is_space, lstrip, rstrip, is_empty}
use pkgsentry_oss.Focus.{FocusEntry, FocusRow, sync_focus}

-- `<>=~!^`, a space or a tab
abbrev pub is_operator : ℕ → Bool
is_operator c = any (nat_eq c) (60 ∷ 62 ∷ 61 ∷ 126 ∷ 33 ∷ 94 ∷ 32 ∷ 9 ∷ [])

-- _NAME_VERSION_SPLIT
abbrev pub is_specifier : ℕ → Bool
is_specifier c = any (nat_eq c) (60 ∷ 62 ∷ 61 ∷ 126 ∷ 33 ∷ 94 ∷ 44 ∷ []) || is_space c

abbrev pub is_line_end : ℕ → Bool
is_line_end c = (leb 10 c && leb c 13) || (leb 28 c && leb c 30)

-- `s.endswith` of one code point
abbrev pub ends_in : ℕ → Text → Bool
ends_in d [] = false
ends_in d (c ∷ s) = if is_empty s then nat_eq c d else ends_in d s

-- all but the last code point
abbrev pub all_but_last : Text → Text
all_but_last [] = []
all_but_last (c ∷ s) = let rest = all_but_last s in if is_empty s then [] else c ∷ rest

-- `s[1:-1]`
abbrev pub inside : Text → Text
inside [] = []
inside (c ∷ s) = all_but_last s

-- `expr.split(",", 1)[0].strip()`, then the operators at both ends
unfoldable pub floor_version : Text → Option Text
floor_version expr =
    let lower_bound = rstrip is_space (lstrip is_space (before_sep 44 expr)) in
    let ver = rstrip is_operator (lstrip is_operator lower_bound) in
    if is_empty ver || any (λ c. nat_eq c 42) ver then none else some ver

-- what stands before the first code point that `p` holds of, and what stands from it on
abbrev pub break_at : (ℕ → Bool) → Text → Text × Text
break_at p [] = ([], [])
break_at p (c ∷ s) =
    let (part, rest) = break_at p s in if p c then ([], c ∷ s) else (c ∷ part, rest)

-- a line without its comment and the white space around it
abbrev pub stripped_line : Text → Text
stripped_line raw = rstrip is_space (lstrip is_space (before_sep 35 raw))

-- the entry of a line that is not empty
unfoldable pub parse_line : String → Text → FocusEntry
unfolding floor_version
parse_line ecosystem line =
    let (module_path, after_space) = break_at is_space line in
    let (bare, after_name) = break_at is_specifier line in
    if str_eq ecosystem "gomod"
    then record {
      name = module_path;
      pinned_version =
          if is_empty after_space then none else floor_version (lstrip is_space after_space);
    }
    else record {
      name = rstrip is_space (lstrip is_space bare);
      pinned_version = if is_empty after_name then none else floor_version after_name;
    }

unfoldable pub parse_lines : String → List Text → List FocusEntry
unfolding parse_line
parse_lines ecosystem [] = []
parse_lines ecosystem (raw ∷ lines) =
    let entries = parse_lines ecosystem lines in
    let line = stripped_line raw in
    let e = parse_line ecosystem line in
    if is_empty line then entries else if is_empty e.name then entries else e ∷ entries

-- `text.splitlines()`, with an empty line for each further code point that ends a line
unfoldable pub splitlines : Text → List Text
splitlines [] = [] ∷ []
splitlines (c ∷ s) = elim (splitlines s) [
  | [] ↦ (c ∷ []) ∷ []
  | line ∷ lines ↦ if is_line_end c then [] ∷ line ∷ lines else (c ∷ line) ∷ lines
]

unfoldable pub parse_focus_file : Text → String → List FocusEntry
unfolding splitlines parse_lines
parse_focus_file text ecosystem = parse_lines ecosystem (splitlines text)

-- _VALID_ECOSYSTEMS
abbrev pub valid_ecosystems : List String
valid_ecosystems = "pypi" ∷ "crates" ∷ "gomod" ∷ "npm" ∷ []

-- the name in the brackets of a section header
unfoldable pub header_of : Text → Option Text
header_of raw =
    let s = rstrip is_space (lstrip is_space raw) in
    if starts_with s (91 ∷ []) && ends_in 93 s
    then some (lower (rstrip is_space (lstrip is_space (inside s))))
    else none

pub data FocusError : Type 0 where
  unknown_section content_before_header : FocusError

-- the loop of `parse_combined_focus_file`, over the lines that are left
unfoldable pub collect :
    Option String → Dict (List Text) → List Text → Dict (List Text) ⊎ FocusError
unfolding header_of
collect current buckets [] = inl buckets
collect current buckets (raw ∷ lines) = elim (header_of raw) [
  | some header ↦ elim (find? (λ eco. text_eq (codes eco) header) valid_ecosystems) [
    | none ↦ inr unknown_section
    | some eco ↦ collect (some eco) (insert eco (get_or [] (lookup eco buckets)) buckets) lines
  ]
  | none ↦ elim current [
    | none ↦
        let rest = collect none buckets lines in
        if is_empty (stripped_line raw) then rest else inr content_before_header
    | some eco ↦
        collect (some eco) (insert eco (get_or [] (lookup eco buckets) ++ raw ∷ []) buckets) lines
  ]
]

-- the lines of a section are parsed one by one, as they are after `"\n".join` and `splitlines`
unfoldable pub parse_combined_focus_file : Text → Dict (List FocusEntry) ⊎ FocusError
unfolding collect splitlines parse_lines
parse_combined_focus_file text = elim (collect none [] (splitlines text)) [
  | inl buckets ↦ inl (map (λ (eco, lines). (eco, parse_lines eco lines)) buckets)
  | inr e ↦ inr e
]

-- `sections` in the order of the file
unfoldable pub sync_sections : Dict (List FocusEntry) → List FocusRow → List FocusRow
unfolding sync_focus
sync_sections [] rows = rows
sync_sections ((eco, entries) ∷ sections) rows =
    sync_sections sections (sync_focus eco entries rows).0

-- the rows, and the sections or the exception
unfoldable pub apply_focus_file :
    Text → List FocusRow → List FocusRow × (Dict (List FocusEntry) ⊎ FocusError)
unfolding parse_combined_focus_file sync_sections
apply_focus_file text rows = elim (parse_combined_focus_file text) [
  | inl sections ↦ (sync_sections sections rows, inl sections)
  | inr e ↦ (rows, inr e)
]
