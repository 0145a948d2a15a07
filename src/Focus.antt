-- ===== src/Focus.antt =====
-- Focus packages (pkgward/focus.py, table FocusList of pkgward/store/models.py; gate_decision stands with
-- Npm.Gate). Names and files are lists of code points with ASCII case and white space. Lines without
-- text are ignored, so "\r\n" may count as two ends of a line.
pub mod Parse
pub mod Synced
use pkgsentry_oss.Prelude.{
  ℕ, suc, String, Bool, true, false, not, ◌&&◌, ◌||◌, Option, none, some, List, [], ◌∷◌, ◌++◌, map,
  filter, any, find?, Dict, lookup, insert, get_or, ◌⊎◌, inl, inr, contains, str_eq, nat_eq, leb,
  if◌then◌else◌,
}
use pkgsentry_oss.Prelude.Texts.{Text, codes, text_eq, starts_with, lower, before_sep}
use pkgsentry_oss.Scope.{is_space, lstrip, rstrip, is_empty}

pub record FocusEntry : Type 0 where
  pub name : Text
  pub pinned_version : Option Text

pub record FocusRow : Type 0 where
  pub ecosystem : String
  pub name : Text
  pub pinned_version : Option Text

-- _CASE_INSENSITIVE
abbrev pub case_insensitive : List String
case_insensitive = "gomod" ∷ "npm" ∷ []

-- `_key`
unfoldable pub key : Text → String → Text
key name ecosystem = if contains case_insensitive ecosystem then lower name else name

abbrev pub in_ecosystem : String → FocusRow → Bool
in_ecosystem ecosystem r = str_eq r.ecosystem ecosystem

unfoldable pub load_focus_names : String → List FocusRow → List Text
unfolding key
load_focus_names ecosystem rows =
    map (λ (r : FocusRow). key r.name ecosystem) (filter (in_ecosystem ecosystem) rows)

unfoldable pub on_focus : Text → List Text → String → Bool
unfolding key
on_focus name focus_names ecosystem = any (text_eq (key name ecosystem)) focus_names

unfoldable pub is_focus : String → Text → List FocusRow → Bool
is_focus ecosystem name rows =
    any
      (λ (r : FocusRow).
        str_eq r.ecosystem ecosystem
        && (if contains case_insensitive ecosystem
            then text_eq (lower name) (lower r.name)
            else text_eq name r.name))
      rows

-- one round of `upsert_focus`: the first row of that name is written, or a row is added
unfoldable pub upsert_one : String → FocusEntry → List FocusRow → List FocusRow
upsert_one ecosystem e [] =
    record { ecosystem = ecosystem; name = e.name; pinned_version = e.pinned_version } ∷ []
upsert_one ecosystem e (r ∷ rows) =
    let rest = upsert_one ecosystem e rows in
    if str_eq r.ecosystem ecosystem && text_eq e.name r.name
    then record r { pinned_version = e.pinned_version } ∷ rows
    else r ∷ rest

unfoldable pub upsert_focus : String → List FocusEntry → List FocusRow → List FocusRow × ℕ
unfolding upsert_one
upsert_focus ecosystem [] rows = (rows, 0)
upsert_focus ecosystem (e ∷ entries) rows =
    let (done, n) = upsert_focus ecosystem entries (upsert_one ecosystem e rows) in (done, suc n)

-- an empty ecosystem is no condition
unfoldable pub clear_focus : Option String → List FocusRow → List FocusRow
clear_focus none rows = []
clear_focus (some ecosystem) rows =
    if str_eq ecosystem ""
    then []
    else filter (λ (r : FocusRow). not (str_eq r.ecosystem ecosystem)) rows

unfoldable pub sync_focus : String → List FocusEntry → List FocusRow → List FocusRow × ℕ
unfolding clear_focus upsert_focus
sync_focus ecosystem entries rows =
    upsert_focus ecosystem entries (clear_focus (some ecosystem) rows)
