-- ===== src/Pipeline/Siblings.antt =====
-- What the promotion of a package does for the other packages of its organisation.
use pkgsentry_oss.Prelude.{ℕ, ◌≡◌, String, Bool, true, false, Option, some}
use pkgsentry_oss.Prelude.Texts.{Text, codes}
use pkgsentry_oss.Detect.{Verdict}
use pkgsentry_oss.Triage.Attempts.{TriageResult}
use pkgsentry_oss.Scope.{scope_of, is_empty, is_scope_watchlisted, auto_watch_on_malicious}
use pkgsentry_oss.Scope.Siblings.{has_slash_scopes}
use pkgsentry_oss.Scope.Caught.{no_space, auto_watch-siblings, auto_watch-some}
use pkgsentry_oss.Pipeline.{Desk, Setup, ScanCase}
use pkgsentry_oss.Pipeline.Stages.{promote_ok, adjudicate}

-- When a package is promoted, every package of its npm or Go scope is scope-watchlisted right after the
-- adjudication, if scopes are watched, the scope is not empty and no white space stands in it.
pub promoted-siblings :
    (lower : String → String) (setup : Setup) (c : ScanCase) (rule : Verdict)
    (tri : Option TriageResult) (inserted : Bool) (now clock : ℕ) (d : Desk) (sibling sc : Text)
    → promote_ok lower setup c rule tri ≡ true
    → setup.scope_watchlist ≡ true
    → has_slash_scopes c.ecosystem ≡ true
    → scope_of c.ecosystem (codes c.name) ≡ some sc
    → scope_of c.ecosystem sibling ≡ some sc
    → is_empty sc ≡ false
    → no_space sc ≡ true
    → is_scope_watchlisted true c.ecosystem sibling
        (adjudicate lower setup c rule tri inserted now clock d).scopes
      ≡ true
unfolding adjudicate
promoted-siblings lower setup c rule tri inserted now clock d sibling sc ok on eco mine its full
      clean =
    let watched : (auto_watch_on_malicious true c.ecosystem (codes c.name) now d.scopes).1
        ≡ some sc =
      auto_watch-some c.ecosystem (codes c.name) sc now d.scopes eco mine full in
    let covered =
      auto_watch-siblings c.ecosystem (codes c.name) sibling sc now d.scopes watched its clean in
    rw (ok, adjudicate) (rw on covered)
