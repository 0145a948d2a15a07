-- ===== src/Pipeline/Finish.antt =====
-- The order of the last steps of a scan, and the state that the queue is left in.
use pkgsentry_oss.Prelude.{
  ℕ, zero, suc, ◌≡◌, refl, ap, ◌∙◌, String, Bool, true, ◌||◌, ◌⊎◌, some, Option, [], ◌∷◌, arith,
  any, any-append, take, inl, inr,
}
use pkgsentry_oss.Detect.{Verdict}
use pkgsentry_oss.Queue.{Row, mark_done, get_row}
use pkgsentry_oss.Triage.{Ruling}
use pkgsentry_oss.Triage.Attempts.{TriageResult}
use pkgsentry_oss.Pipeline.{
  ScanRow, Setup, ScanCase, Desk, Event, is_alert, log, should_alert, final_verdict,
}
use pkgsentry_oss.Pipeline.Stages.{
  adjudicate, keep_sample, notify, finish_row, sweep_maintainer, steps, run_steps,
}

abbrev pub alerted : Desk → Bool
alerted d = any is_alert d.events

run_steps-none : (k : ℕ) (d : Desk) → run_steps (take k []) d ≡ d
run_steps-none zero d = refl
run_steps-none (suc k) d = refl

alerted-log : (e : Event) (d : Desk) → alerted (log e d) ≡ (alerted d || is_alert e)
alerted-log e d = ground (arith, any-append is_alert d.events (e ∷ []))

module _ (lower : String → String) (setup : Setup) (c : ScanCase) (rule : Verdict)
    (tri : Option TriageResult) where
  adjudicate-rows :
      (inserted : Bool) (now clock : ℕ) (d : Desk)
      → (adjudicate lower setup c rule tri inserted now clock d).rows ≡ d.rows
  unfolding adjudicate
  adjudicate-rows inserted now clock d = ground arith

  keep_sample-rows : (d : Desk) → (keep_sample lower setup c rule tri d).rows ≡ d.rows
  unfolding keep_sample
  keep_sample-rows d = ground arith

  notify-alerted :
      (final : Ruling) (d : Desk)
      → should_alert setup.limits.conf_floor rule tri ≡ true
      → setup.discord_enabled ≡ true
      → alerted (notify lower setup c rule tri final d) ≡ true
  unfolding notify
  notify-alerted final d h k = ground (arith, h, k, alerted-log Event.send_alert d)

  finish_row-events : (now : ℕ) (d : Desk) → (finish_row lower setup c now d).events ≡ d.events
  unfolding finish_row
  finish_row-events now d = ground arith

  sweep_maintainer-alerted :
      (d : Desk) → alerted d ≡ true → alerted (sweep_maintainer lower setup c rule tri d) ≡ true
  unfolding sweep_maintainer
  sweep_maintainer-alerted d h = ground (arith, h, alerted-log Event.sweep_on_malicious d)

  module _ (found : Option ScanRow) (inserted : Bool) (now clock : ℕ) (d : Desk) where
    abbrev adjudicated : Desk
    adjudicated = adjudicate lower setup c rule tri inserted now clock d

    abbrev kept : Desk
    kept = keep_sample lower setup c rule tri adjudicated

    abbrev notified : Desk
    notified =
        notify lower setup c rule tri (final_verdict setup.limits.conf_floor rule tri found) kept

    abbrev finished : Desk
    finished = finish_row lower setup c now notified

    kept-rows : kept.rows ≡ d.rows
    kept-rows = keep_sample-rows adjudicated ∙ adjudicate-rows inserted now clock d

    module _ (h : should_alert setup.limits.conf_floor rule tri ≡ true)
        (on : setup.discord_enabled ≡ true) where
      notified-alerted : alerted notified ≡ true
      notified-alerted =
          notify-alerted (final_verdict setup.limits.conf_floor rule tri found) kept h on

      finished-alerted : alerted finished ≡ true
      finished-alerted = ap (any is_alert) (finish_row-events now notified) ∙ notified-alerted

      -- Where an alert is due and alerts to Discord are switched on, a crash after any number of the steps
      -- leaves the queue as it was or comes after the call that sends the alert. (That call reports a
      -- failure of Discord by its result, which is not looked at.)
      pub alert-before-finish :
          (k : ℕ)
          → let e = run_steps (take k (steps lower setup c rule tri found inserted now clock)) d in
            (e.rows ≡ d.rows) ⊎ (alerted e ≡ true)
      unfolding steps
      alert-before-finish zero = inl refl
      alert-before-finish (suc zero) = inl (adjudicate-rows inserted now clock d)
      alert-before-finish (suc (suc zero)) = inl kept-rows
      alert-before-finish (suc (suc (suc zero))) = inr notified-alerted
      alert-before-finish (suc (suc (suc (suc zero)))) = inr finished-alerted
      alert-before-finish (suc (suc (suc (suc (suc k))))) =
          let swept = sweep_maintainer lower setup c rule tri finished in
          inr (
            ap alerted (run_steps-none k swept)
            ∙ sweep_maintainer-alerted finished finished-alerted)

      pub steps-alerted :
          alerted (run_steps (steps lower setup c rule tri found inserted now clock) d) ≡ true
      unfolding steps
      steps-alerted = sweep_maintainer-alerted finished finished-alerted

    pub steps-rows :
        (run_steps (steps lower setup c rule tri found inserted now clock) d).rows ≡ finished.rows
    unfolding steps sweep_maintainer
    steps-rows = ground arith

    -- the steps write to the queue what `mark_done` writes to the row that is there when they begin
    pub finished-rows :
        (r : Row)
        → get_row c.queue_id d.rows ≡ some r
        → finished.rows ≡ (mark_done d.rows r c.claim_token now).0
    unfolding finish_row notify
    finished-rows r h = ground (arith, h, kept-rows)
