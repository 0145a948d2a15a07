-- ===== src/Jobs/Alerts.antt =====
-- When a finished detonation raises an alert, and what it has written then.
use pkgsentry_oss.Prelude.{
  ℕ, ◌≡◌, refl, Bool, true, false, Option, some, List, [], ◌∷◌, ◌++◌, arith, find?, nat_eq,
  Bool-cases, Option-cases, inl, inr, ◌∙◌, ap,
}
use pkgsentry_oss.Adapter.{Finding}
use pkgsentry_oss.Intel.{IntelPack}
use pkgsentry_oss.Jobs.{Job, get_job, update_job, job_done}
use pkgsentry_oss.Jobs.Worker.{
  Ticket, Scan, DetResult, Store, Alert, is_malicious, holds, finalize, record_detonation,
  flip_alert,
}
use pkgsentry_oss.Jobs.Once.{mark_own_done, row_of, record_detonation-row}

module _ (pack : IntelPack) (self_download : List Finding → Finding → Bool) (rank : Option ℕ) where
  flip_alert-malicious :
      (job : Ticket) (st : Store) (det : DetResult) (scan : Scan) (a : Alert)
      → flip_alert pack self_download rank job st det scan ≡ some a
      → (is_malicious a.new_verdict ≡ true)
        × (a.static_verdict ≡ job.static_verdict)
        × (is_malicious job.static_verdict ≡ false)
  unfolding flip_alert
  flip_alert-malicious job st det scan a e = ground (arith, e)

  record_detonation-alert :
      (job : Ticket) (det : DetResult) (scan : Scan) (st : Store) (a : Alert)
      → (record_detonation pack self_download rank job det scan st).1 ≡ some a
      → flip_alert pack self_download rank job st det scan ≡ some a
  unfolding record_detonation
  record_detonation-alert job det scan st a e = ground (arith, e)

  -- what an alert stands for
  abbrev pub Flipped : ℕ → Ticket → DetResult → Store → Alert → Type 0
  Flipped now job det st a =
      let after = (finalize pack self_download rank now job det st).0 in
      (q : Job) × (scan : Scan) × (get_job job.id st.jobs ≡ some q)
      × (holds job q ≡ true)
      × (find? (λ s. nat_eq s.id job.scan_id) st.scans ≡ some scan)
      × (after.detonations ≡ st.detonations ++ row_of det scan ∷ [])
      × (after.jobs ≡ update_job q.id (job_done now) st.jobs)
      × (is_malicious a.new_verdict ≡ true)
      × (is_malicious a.static_verdict ≡ false)

  -- An alert is raised only by a worker that still holds its job and whose scan is there: its detonation
  -- is then written and its job done, the new verdict is malicious and the static one was not.
  pub finalize-alert :
      (now : ℕ) (job : Ticket) (det : DetResult) (st : Store) (a : Alert)
      → (finalize pack self_download rank now job det st).1 ≡ some a
      → Flipped now job det st a
  unfolding finalize
  finalize-alert now job det st a = elim (Option-cases (get_job job.id st.jobs)) [
    | inl e ↦ rw (e, finalize) (λ w. cc w)
    | inr (q, e) ↦ elim (Bool-cases (holds job q)) [
      | inr f ↦ rw (e, finalize) (rw f (λ w. cc w))
      | inl t ↦ elim (Option-cases (find? (λ s. nat_eq s.id job.scan_id) st.scans)) [
        | inl m ↦ rw (e, finalize) (rw (t, m) (λ w. cc w))
        | inr (scan, m) ↦
            rw (e, finalize)
              (rw (t, m)
                (λ w.
                  let (new, same, old) =
                    flip_alert-malicious job st det scan a
                      (record_detonation-alert job det scan st a w) in
                  (
                    q,
                    scan,
                    refl,
                    t,
                    refl,
                    record_detonation-row pack self_download rank job det scan st,
                    mark_own_done job q st.jobs now t,
                    new,
                    ap is_malicious same ∙ old,
                  )))
      ]
    ]
  ]
