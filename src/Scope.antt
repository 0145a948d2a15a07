-- ===== src/Scope.antt =====
-- Watched organisations (pkgward/scope_watchlist.py, table WatchlistScope of pkgward/store/models.py):
-- which names fall under a scope, and how scopes are added, seeded and removed. Names are lists of code
-- points, `lower` changes the ASCII letters, `strip` drops the ASCII white space.
pub mod Baseline
pub mod Siblings
pub mod Caught
pub mod Rows
use pkgsentry_oss.Prelude.{
  ℕ, suc, ◌+◌, String, Bool, true, false, not, ◌&&◌, ◌||◌, Option, none, some, List, [], ◌∷◌, ◌++◌,
  map, filter, any, take, length, ltb, leb, nat_eq, str_eq, contains, if◌then◌else◌,
}
use pkgsentry_oss.Prelude.Texts.{Text, codes, text_eq, starts_with, lower, split, join}

-- SUPPORTED
abbrev pub supported_ecosystems : List String
supported_ecosystems = "npm" ∷ "gomod" ∷ "pypi" ∷ []

abbrev pub supported : String → Bool
supported ecosystem = contains supported_ecosystems ecosystem

-- _PYPI_SEPS, that is `-`, `_` and `.`
abbrev pub pypi_seps : List ℕ
pypi_seps = 45 ∷ 95 ∷ 46 ∷ []

-- `_matches`
unfoldable pub matches : String → Text → Text → Bool
matches ecosystem scope name =
    let s = lower scope in
    let n = lower name in
    if str_eq ecosystem "npm" || str_eq ecosystem "gomod"
    then text_eq n s || starts_with n (s ++ 47 ∷ [])
    else if str_eq ecosystem "pypi"
    then text_eq n s || any (λ (sep : ℕ). starts_with n (s ++ sep ∷ [])) pypi_seps
    else false

-- `s.find(sep)`
abbrev pub find_code : ℕ → Text → Option ℕ
find_code sep [] = none
find_code sep (c ∷ s) =
    let rest = find_code sep s in
    if nat_eq c sep then some 0 else elim rest [ none ↦ none | some i ↦ some (suc i) ]

-- `s[:i]` for the place `i` of a separator, if it is past the second character
abbrev pub cut_at : ℕ → Text → Option Text
cut_at sep s = elim (find_code sep s) [
  | none ↦ none
  | some i ↦ if ltb 1 i then some (take i s) else none
]

-- the loop over the separators
abbrev pub cut_at_first : List ℕ → Text → Option Text
cut_at_first [] s = none
cut_at_first (sep ∷ seps) s =
    let rest = cut_at_first seps s in elim (cut_at sep s) [ none ↦ rest | some t ↦ some t ]

abbrev pub lower_option : Option Text → Option Text
lower_option none = none
lower_option (some s) = some (lower s)

unfoldable pub scope_of : String → Text → Option Text
scope_of ecosystem name =
    let parts = split 47 name in
    if str_eq ecosystem "npm"
    then if starts_with name (64 ∷ []) then lower_option (cut_at 47 name) else none
    else if str_eq ecosystem "gomod"
    then if leb 2 (length parts) then some (lower (join 47 (take 2 parts))) else none
    else if str_eq ecosystem "pypi"
    then cut_at_first pypi_seps (lower name)
    else none

pub record WatchlistScope : Type 0 where
  pub ecosystem : String
  pub scope : Text
  pub source : String
  pub refreshed_at : ℕ

-- a row of the ecosystem whose scope is this one in lower case
abbrev pub is_scope : String → Text → WatchlistScope → Bool
is_scope ecosystem scope r = str_eq r.ecosystem ecosystem && text_eq (lower r.scope) scope

unfoldable pub load_scopes : String → List WatchlistScope → List Text
load_scopes ecosystem rows =
    map (λ (r : WatchlistScope). lower r.scope)
      (filter (λ (r : WatchlistScope). str_eq r.ecosystem ecosystem) rows)

-- `enabled` is the environment's switch
unfoldable pub is_scope_watchlisted : Bool → String → Text → List WatchlistScope → Bool
unfolding load_scopes matches
is_scope_watchlisted enabled ecosystem name rows =
    enabled
    && (supported ecosystem
        && (not (text_eq name [])
            && any (λ (s : Text). matches ecosystem s name) (load_scopes ecosystem rows)))

abbrev pub is_space : ℕ → Bool
is_space c = (leb 9 c && leb c 13) || (leb 28 c && leb c 32)

abbrev pub lstrip : (ℕ → Bool) → Text → Text
lstrip p [] = []
lstrip p (c ∷ s) = let rest = lstrip p s in if p c then rest else c ∷ s

abbrev pub is_empty : Text → Bool
is_empty [] = true
is_empty (c ∷ s) = false

abbrev pub rstrip : (ℕ → Bool) → Text → Text
rstrip p [] = []
rstrip p (c ∷ s) = let rest = rstrip p s in if p c && is_empty rest then [] else c ∷ rest

abbrev pub is_slash : ℕ → Bool
is_slash c = nat_eq c 47

-- `scope.strip().lower().rstrip("/")`
unfoldable pub trim : Text → Text
trim scope = rstrip is_slash (lower (rstrip is_space (lstrip is_space scope)))

-- the scope that is looked for: npm scopes begin with `@`
unfoldable pub normal_scope : String → Text → Text
unfolding trim
normal_scope ecosystem scope =
    let s = trim scope in
    if str_eq ecosystem "npm" && not (starts_with s (64 ∷ [])) then 64 ∷ s else s

pub data ScopeStatus : Type 0 where
  added refreshed unsupported : ScopeStatus

-- a write to the row that a SELECT has found
unfoldable pub refresh_scope :
    (WatchlistScope → Bool) → ℕ → List WatchlistScope → List WatchlistScope
refresh_scope p now [] = []
refresh_scope p now (r ∷ rows) =
    let rest = refresh_scope p now rows in
    if p r then record r { refreshed_at = now } ∷ rows else r ∷ rest

abbrev pub scope_row : String → Text → String → ℕ → WatchlistScope
scope_row ecosystem scope source now = record {
  ecosystem = ecosystem;
  scope = scope;
  source = source;
  refreshed_at = now;
}

unfoldable pub add_scope :
    String → Text → String → ℕ → List WatchlistScope → List WatchlistScope × ScopeStatus
unfolding normal_scope refresh_scope
add_scope ecosystem scope source now rows =
    let s = normal_scope ecosystem scope in
    if not (supported ecosystem)
    then (rows, ScopeStatus.unsupported)
    else if any (is_scope ecosystem s) rows
    then (refresh_scope (is_scope ecosystem s) now rows, ScopeStatus.refreshed)
    else (rows ++ scope_row ecosystem s source now ∷ [], ScopeStatus.added)

abbrev pub delete_first : (WatchlistScope → Bool) → List WatchlistScope → List WatchlistScope
delete_first p [] = []
delete_first p (r ∷ rows) = let rest = delete_first p rows in if p r then rows else r ∷ rest

unfoldable pub remove_scope : String → Text → List WatchlistScope → List WatchlistScope × ℕ
unfolding normal_scope
remove_scope ecosystem scope rows =
    let s = normal_scope ecosystem scope in
    if any (is_scope ecosystem s) rows
    then (delete_first (is_scope ecosystem s) rows, 1)
    else (rows, 0)

-- _AUTO_WATCH_ECOSYSTEMS
abbrev pub auto_watch_ecosystems : List String
auto_watch_ecosystems = "npm" ∷ "gomod" ∷ []

unfoldable pub auto_watch_on_malicious :
    Bool → String → Text → ℕ → List WatchlistScope → List WatchlistScope × Option Text
unfolding scope_of add_scope
auto_watch_on_malicious enabled ecosystem name now rows =
    if not enabled || not (contains auto_watch_ecosystems ecosystem)
    then (rows, none)
    else elim (scope_of ecosystem name) [
      | none ↦ (rows, none)
      | some sc ↦
          if is_empty sc
          then (rows, none)
          else ((add_scope ecosystem sc "auto_malicious" now rows).0, some sc)
    ]

-- the loop over the scopes of an ecosystem: the rows, the scopes there are by now, and how many are new
unfoldable pub seed_scopes :
    String → ℕ → List Text → List Text → List WatchlistScope → List WatchlistScope × ℕ
unfolding trim
seed_scopes eco now have [] rows = (rows, 0)
seed_scopes eco now have (sc ∷ wanted) rows =
    let s = trim sc in
    elim (any (text_eq s) have) [
      | true ↦ seed_scopes eco now have wanted rows
      | false ↦
          let (seeded, n) =
            seed_scopes eco now (s ∷ have) wanted (rows ++ scope_row eco s "baseline" now ∷ []) in
          (seeded, suc n)
    ]

-- the loop over the ecosystems, each with the scopes that are wanted for it
unfoldable pub seed_baseline :
    ℕ → List (String × List Text) → List WatchlistScope → List WatchlistScope × ℕ
unfolding seed_scopes load_scopes
seed_baseline now [] rows = (rows, 0)
seed_baseline now ((eco, wanted) ∷ ecos) rows =
    let (seeded, n) = seed_scopes eco now (load_scopes eco rows) wanted rows in
    let (rest, total) = seed_baseline now ecos seeded in (rest, n + total)
