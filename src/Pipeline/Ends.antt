-- ===== src/Pipeline/Ends.antt =====
-- How the row of a scan ends, and that a due alert is sent by then.
use mathlib.Core.Path.{subst}
use pkgsentry_oss.Prelude.{
  ℕ, ◌≡◌, refl, sym, ap, ◌∙◌, String, Bool, true, false, none, some, Option, List, [], ◌∷◌, arith,
  Bool-cases, inl, inr, if◌then◌else◌,
}
use pkgsentry_oss.Detect.{Verdict}
use pkgsentry_oss.Intel.{IntelPack}
use pkgsentry_oss.Queue.{
  Row, Status, update_row, mark_done, mark_failed, owns, finish, get_row, strip_nul,
}
use pkgsentry_oss.Triage.Attempts.{TriageResult}
use pkgsentry_oss.Pipeline.{Setup, ScanCase, Desk, should_alert}
use pkgsentry_oss.Pipeline.Scan.{
  FetchError, persist_and_finalize, close_unfetched, first_transaction, after_commit, do_triage,
  result_of,
}
use pkgsentry_oss.Pipeline.Finish.{alerted, steps-alerted, steps-rows, finished-rows}

update_row-found :
    (f : Row → Row) (i : ℕ) (rows : List Row) (r : Row)
    → ((s : Row) → (f s).id ≡ s.id)
    → get_row i rows ≡ some r
    → get_row i (update_row i f rows) ≡ some (f r)
update_row-found f i [] r same h = ground (arith, h)
update_row-found f i (s ∷ rows) r same h =
    ground (arith, h, same s, update_row-found f i rows r same)

get_row-id : (i : ℕ) (rows : List Row) (r : Row) → get_row i rows ≡ some r → r.id ≡ i
get_row-id i [] r h = ground (arith, h)
get_row-id i (s ∷ rows) r h = ground (arith, h, get_row-id i rows r)

-- the row that the id finds has ended with this status
abbrev pub EndsWith : ℕ → Status → List Row → Type 0
EndsWith i status rows = (r : Row) × (get_row i rows ≡ some r) × (r.status ≡ status)

module _ (rows : List Row) (row : Row) (i now : ℕ) (token : Option String) where
  mark_done-EndsWith :
      get_row i rows ≡ some row
      → owns token row ≡ true
      → EndsWith i Status.done (mark_done rows row token now).0
  unfolding mark_done finish
  mark_done-EndsWith h own =
      let id = get_row-id i rows row h in
      let f = finish Status.done now in
      let there = update_row-found f i rows row (λ s. refl) h in
      rw own (
        finish Status.done now row,
        subst (λ n. get_row i (update_row n f rows) ≡ some (f row)) (sym id) there,
        refl,
      )

  mark_failed-EndsWith :
      (error : List ℕ)
      → get_row i rows ≡ some row
      → owns token row ≡ true
      → EndsWith i Status.failed (mark_failed rows row error token now).0
  unfolding mark_failed finish strip_nul
  mark_failed-EndsWith error h own =
      let id = get_row-id i rows row h in
      let f =
        λ (s : Row). record (finish Status.failed now s) { last_error = some (strip_nul error) } in
      let there = update_row-found f i rows row (λ s. refl) h in
      rw own
        (f row, subst (λ n. get_row i (update_row n f rows) ≡ some (f row)) (sym id) there, refl)

abbrev pub end_status : Option FetchError → Status
end_status none = Status.done
end_status (some e) = if e.no_files then Status.failed else Status.done

module _ (pack : IntelPack) (setup : Setup) (c : ScanCase) (now : ℕ) (d : Desk) (row : Row) where
  close_unfetched-EndsWith :
      (e : FetchError)
      → get_row c.queue_id d.rows ≡ some row
      → owns c.claim_token row ≡ true
      → EndsWith c.queue_id (end_status (some e)) (close_unfetched pack setup c now e row d).rows
  unfolding close_unfetched
  close_unfetched-EndsWith e here own =
      let done = mark_done-EndsWith d.rows row c.queue_id now c.claim_token here own in
      let failed = mark_failed-EndsWith d.rows row c.queue_id now c.claim_token e.text here own in
      elim (Bool-cases e.no_files) [ inl t ↦ rw t failed | inr f ↦ rw f done ]

  first_transaction-rows :
      (job_id : ℕ)
      → (first_transaction pack setup c now job_id row d).rows ≡ (
          if do_triage pack setup c now d
          then d.rows
          else (mark_done d.rows row c.claim_token now).0)
  unfolding first_transaction
  first_transaction-rows job_id = refl

module _ (lower : String → String) (setup : Setup) (c : ScanCase) (rule : Verdict)
    (tri : Option TriageResult) (inserted : Bool) (now clock : ℕ) (d : Desk) where
  after_commit-alerted :
      (triaged : Bool)
      → triaged ≡ true
      → should_alert setup.limits.conf_floor rule tri ≡ true
      → setup.discord_enabled ≡ true
      → alerted (after_commit lower setup c triaged rule tri inserted now clock d) ≡ true
  unfolding after_commit
  after_commit-alerted true t h on =
      steps-alerted lower setup c rule tri d.scan inserted now clock d h on
  after_commit-alerted false t h on = cc t

  after_commit-EndsWith :
      (rows : List Row) (row : Row) (triaged : Bool)
      → get_row c.queue_id rows ≡ some row
      → owns c.claim_token row ≡ true
      → d.rows ≡ (if triaged then rows else (mark_done rows row c.claim_token now).0)
      → EndsWith c.queue_id Status.done
          (after_commit lower setup c triaged rule tri inserted now clock d).rows
  unfolding after_commit
  after_commit-EndsWith rows row true here own same =
      let done = mark_done-EndsWith rows row c.queue_id now c.claim_token here own in
      let ends =
        steps-rows lower setup c rule tri d.scan inserted now clock d
        ∙ finished-rows lower setup c rule tri d.scan inserted now clock d row
            (ap (get_row c.queue_id) same ∙ here)
        ∙ ap (λ r. (mark_done r row c.claim_token now).0) same in
      subst (EndsWith c.queue_id Status.done) (sym ends) done
  after_commit-EndsWith rows row false here own same =
      subst (EndsWith c.queue_id Status.done) (sym same)
        (mark_done-EndsWith rows row c.queue_id now c.claim_token here own)

resumed-rows :
    (between : Desk → Desk) (triaged : Bool) (stored : Desk)
    → ((e : Desk) → (between e).rows ≡ e.rows)
    → (if triaged then between stored else stored).rows ≡ stored.rows
resumed-rows between true stored quiet = quiet stored
resumed-rows between false stored quiet = refl

module _ (pack : IntelPack) (setup : Setup) (c : ScanCase) (now : ℕ) (lower : String → String)
    (job_id clock : ℕ) (answer : Verdict → Option TriageResult) (inserted : Bool)
    (between : Desk → Desk) (d : Desk) (row : Row)
    (here : get_row c.queue_id d.rows ≡ some row) where
  -- Where alerts to Discord are switched on, a scan whose fetch has succeeded, that the rules do not find
  -- clean and for which an alert is due ends with the call that sends the alert, whatever others commit
  -- while the model is asked.
  pub persist_and_finalize-alerted :
      do_triage pack setup c now d ≡ true
      → should_alert setup.limits.conf_floor
          (result_of pack setup c now d).verdict
          (answer (result_of pack setup c now d).verdict)
        ≡ true
      → setup.discord_enabled ≡ true
      → alerted
          (persist_and_finalize pack setup c now lower none job_id answer between inserted clock d)
        ≡ true
  unfolding persist_and_finalize
  persist_and_finalize-alerted t h on =
      let rule = (result_of pack setup c now d).verdict in
      let triaged = do_triage pack setup c now d in
      let stored = first_transaction pack setup c now job_id row d in
      let resumed = if triaged then between stored else stored in
      rw (here, persist_and_finalize)
        (after_commit-alerted lower setup c rule (answer rule) inserted now clock resumed triaged t
          h on)

  -- When the row is still the worker's own, and others leave the queue alone while the model is asked,
  -- the row ends: as failed where the release has no files, as done in every other case.
  pub persist_and_finalize-EndsWith :
      (fetch_error : Option FetchError)
      → owns c.claim_token row ≡ true
      → ((e : Desk) → (between e).rows ≡ e.rows)
      → EndsWith c.queue_id
          (end_status fetch_error)
          (persist_and_finalize pack setup c now lower fetch_error job_id answer between inserted
            clock d).rows
  unfolding persist_and_finalize
  persist_and_finalize-EndsWith (some e) own quiet =
      rw (here, persist_and_finalize) (close_unfetched-EndsWith pack setup c now d row e here own)
  persist_and_finalize-EndsWith none own quiet =
      let rule = (result_of pack setup c now d).verdict in
      let triaged = do_triage pack setup c now d in
      let stored = first_transaction pack setup c now job_id row d in
      let resumed = if triaged then between stored else stored in
      let kept : resumed.rows ≡ stored.rows = resumed-rows between triaged stored quiet in
      let same = kept ∙ first_transaction-rows pack setup c now d row job_id in
      rw (here, persist_and_finalize)
        (after_commit-EndsWith lower setup c rule (answer rule) inserted now clock resumed d.rows
          row triaged here own same)
