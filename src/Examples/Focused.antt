-- ===== src/Examples/Focused.antt =====
-- A focus file with two sections, and the list of one ecosystem.
use pkgsentry_oss.Prelude.{◌≡◌, refl, String, Option, none, some, List, [], ◌∷◌, any, inl, inr}
use pkgsentry_oss.Prelude.Texts.{Text, codes, lower_code}
use pkgsentry_oss.Focus.{FocusEntry, FocusRow, on_focus, load_focus_names, sync_focus, is_focus}
use pkgsentry_oss.Focus.Parse.{parse_combined_focus_file, content_before_header}
use pkgsentry_oss.Focus.Synced.{is_same, on_focus-sync_focus}

abbrev entry : String → Option Text → FocusEntry
entry name version = record { name = codes name; pinned_version = version }

parse_combined_focus_file_test :
    parse_combined_focus_file
      (codes "# mine\n[pypi]\nrequests==2.31.0  # pinned\nflask\n\n[ GoMod ]\nx.org/gin v1.9.1")
    ≡ inl (
        ("pypi", entry "requests" (some (codes "2.31.0")) ∷ entry "flask" none ∷ [])
        ∷ ("gomod", entry "x.org/gin" (some (codes "v1.9.1")) ∷ [])
        ∷ [])
unfolding parse_combined_focus_file lower_code
parse_combined_focus_file_test = refl

early_line_test : parse_combined_focus_file (codes "flask\n[pypi]") ≡ inr content_before_header
unfolding parse_combined_focus_file
early_line_test = refl

abbrev listed : List FocusRow
listed =
    record { ecosystem = "npm"; name = codes "Left-Pad"; pinned_version = none }
    ∷ record { ecosystem = "pypi"; name = codes "flask"; pinned_version = none }
    ∷ []

on_focus-sync_focus_example :
    (on_focus
        (codes "EVIL")
        (load_focus_names "npm" (sync_focus "npm" (entry "evil" none ∷ []) listed).0)
        "npm"
      ≡ any (λ (e : FocusEntry). is_same "npm" (codes "EVIL") e.name) (entry "evil" none ∷ []))
    × (on_focus (codes "EVIL") (load_focus_names "npm" listed) "npm"
        ≡ is_focus "npm" (codes "EVIL") listed)
on_focus-sync_focus_example =
    on_focus-sync_focus "npm" "npm" (codes "EVIL") (entry "evil" none ∷ []) listed refl
