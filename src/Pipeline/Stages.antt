-- ===== src/Pipeline/Stages.antt =====
-- The steps that follow the answer of the language model (pkgward/pipeline.py,
-- _persist_and_finalize after its first transaction).
use pkgsentry_oss.Prelude.{
  ℕ, String, Bool, ◌&&◌, Option, none, some, List, [], ◌∷◌, foldl, if◌then◌else◌,
}
use pkgsentry_oss.Detect.{Verdict}
use pkgsentry_oss.Queue.{mark_done, get_row}
use pkgsentry_oss.Watchlist.{add_confirmed_malicious}
use pkgsentry_oss.Triage.{Ruling}
use pkgsentry_oss.Triage.Attempts.{TriageResult}
use pkgsentry_oss.Prelude.Texts.{codes}
use pkgsentry_oss.Scope.{auto_watch_on_malicious}
use pkgsentry_oss.Pipeline.{
  is_inconclusive, ScanRow, Event, Desk, log, auto_watchlist_qualifies, final_verdict,
  adjudicate_scan, vault_keep, should_alert, Setup, ScanCase,
}

module _ (lower : String → String) (setup : Setup) (c : ScanCase) where
  -- `mark_done` of the row that the queue id names, in a transaction of its own
  unfoldable pub finish_row : ℕ → Desk → Desk
  unfolding mark_done
  finish_row now d = elim (get_row c.queue_id d.rows) [
    | none ↦ d
    | some r ↦ record d { rows = (mark_done d.rows r c.claim_token now).0 }
  ]

  module _ (rule : Verdict) (tri : Option TriageResult) where
    -- `_promote_ok`
    abbrev pub promote_ok : Bool
    promote_ok = (auto_watchlist_qualifies setup.limits.conf_floor rule tri c.findings).0

    -- The short transaction after the model's answer. `inserted` and `clock` are those of the addition.
    unfoldable pub adjudicate : Bool → ℕ → ℕ → Desk → Desk
    unfolding adjudicate_scan add_confirmed_malicious auto_watch_on_malicious
    adjudicate inserted now clock d =
        let written : Option ScanRow = elim d.scan [
          | none ↦ none
          | some scan ↦ some (adjudicate_scan setup.limits.conf_floor rule tri scan)
        ] in
        let watchlist =
          (add_confirmed_malicious lower setup.watchlist_auto inserted now clock c.ecosystem c.name
            d.watchlist).0 in
        let scopes =
          (auto_watch_on_malicious setup.scope_watchlist c.ecosystem (codes c.name) now
            d.scopes).0 in
        if promote_ok
        then log Event.seed_intel
            (record d { scan = written; watchlist = watchlist; scopes = scopes })
        else record d { scan = written }

    unfoldable pub keep_sample : Desk → Desk
    unfolding vault_keep
    keep_sample d =
        if vault_keep setup.limits.api_key rule tri && (setup.vault_enabled && c.has_archives)
        then log Event.archive_to_vault d
        else d

    -- the alert, or the ping for a review; `final` is the final verdict
    unfoldable pub notify : Ruling → Desk → Desk
    unfolding should_alert
    notify final d =
        if should_alert setup.limits.conf_floor rule tri && setup.discord_enabled
        then log Event.send_alert d
        else if is_inconclusive final && setup.discord_enabled
        then log Event.send_review_alert d
        else d

    unfoldable pub sweep_maintainer : Desk → Desk
    sweep_maintainer d = if promote_ok then log Event.sweep_on_malicious d else d

    -- What follows the model's answer, in order. Each step is durable when it returns. `found` is the
    -- scan's row as the short transaction sees it.
    unfoldable pub steps : Option ScanRow → Bool → ℕ → ℕ → List (Desk → Desk)
    unfolding adjudicate keep_sample notify finish_row sweep_maintainer final_verdict
    steps found inserted now clock =
        adjudicate inserted now clock
        ∷ keep_sample
        ∷ notify (final_verdict setup.limits.conf_floor rule tri found)
        ∷ finish_row now
        ∷ sweep_maintainer
        ∷ []

abbrev pub run_steps : List (Desk → Desk) → Desk → Desk
run_steps fs d = foldl (λ (e : Desk) (f : Desk → Desk). f e) d fs
