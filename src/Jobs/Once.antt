-- ===== src/Jobs/Once.antt =====
-- A scan is detonated at most once, whatever the workers, the sweeps and the expiry do.
use mathlib.Core.Path.{subst}
use pkgsentry_oss.Prelude.{
  ℕ, ◌≤◌, ◌≡◌, refl, ◌∙◌, Bool, true, false, Option, some, List, [], ◌∷◌, ◌++◌, arith, count, find?,
  nat_eq, Bool-cases, Option-cases, inl, inr,
}
use pkgsentry_oss.Adapter.{Finding}
use pkgsentry_oss.Intel.{IntelPack}
use pkgsentry_oss.Jobs.{
  Job, is_outdated, has_id, is_over, get_job, update_job, cas_jobs, sweep_stale_jobs, job_done,
}
use pkgsentry_oss.Jobs.Worker.{
  Ticket, DetResult, Store, Scan, Detonation, finalize, holds, record_detonation, owns_job,
  mark_job_done,
}
use pkgsentry_oss.Jobs.Steps.{Step, Reach}
use pkgsentry_oss.Jobs.Counts.{
  of_scan, over_of, detonation_of, Once, Once-map, count-append_one, count-over-le, open_job,
  closed_job, enqueue_job-Once, claim_job-KeepsOver, release_job-KeepsOver, expire_job-KeepsOver,
  get_own, holds-open, give_up-Once, requeue_or_fail-Once, count-update_over, Once-update,
}

-- the one detonation that the finished job stands for
Once-finish :
    (now : ℕ) (q : Job) (d : Detonation) (ds : List Detonation) (jobs : List Job)
    → get_job q.id jobs ≡ some q
    → is_over q.status ≡ false
    → d.scan_id ≡ q.scan_id
    → Once ds jobs
    → Once (ds ++ d ∷ []) (update_job q.id (job_done now) jobs)
unfolding job_done
Once-finish now q d ds jobs g o e h i = elim (Bool-cases (nat_eq q.scan_id i)) [
  | inl t ↦
      let same : q.scan_id ≡ i = ground (arith, t) in
      subst
        (λ k.
          (count (detonation_of k) (ds ++ d ∷ [])
            ≤ count (over_of k) (update_job q.id (job_done now) jobs))
          × (count (of_scan k) (update_job q.id (job_done now) jobs) ≤ 1))
        same
        (ground (
          arith,
          e,
          h q.scan_id,
          open_job q.id jobs q g o,
          closed_job q.id (job_done now) jobs q g refl refl,
          count-update_over q.id (job_done now) q refl (λ o. refl) q.scan_id jobs g,
          count-append_one (detonation_of q.scan_id) ds d,
        ))
  | inr f ↦ ground (
    arith,
    e,
    f,
    h i,
    count-update_over q.id (job_done now) q refl (λ o. refl) i jobs g,
    count-append_one (detonation_of i) ds d,
  )
]

pub mark_own_done :
    (job : Ticket) (q : Job) (jobs : List Job) (now : ℕ)
    → holds job q ≡ true
    → (mark_job_done jobs q (some job.token) now).0 ≡ update_job q.id (job_done now) jobs
unfolding mark_job_done holds owns_job
mark_own_done job q jobs now t =
    let own : owns_job (some job.token) q ≡ true = ground (arith, t) in rw (own, mark_job_done) refl

find_scan :
    (i : ℕ) (scan : Scan) (scans : List Scan)
    → find? (λ s. nat_eq s.id i) scans ≡ some scan
    → scan.id ≡ i
find_scan i scan [] g = cc
find_scan i scan (r ∷ scans) g = ground (arith, g, find_scan i scan scans)

-- the detonation row that the transaction adds
abbrev pub row_of : DetResult → Scan → Detonation
row_of det scan = record { scan_id = scan.id; sandbox_id = det.detonation_id; status = det.status }

module _ (pack : IntelPack) (self_download : List Finding → Finding → Bool) (rank : Option ℕ) where
  pub record_detonation-row :
      (job : Ticket) (det : DetResult) (scan : Scan) (st : Store)
      → (record_detonation pack self_download rank job det scan st).0.detonations
        ≡ st.detonations ++ row_of det scan ∷ []
  unfolding record_detonation
  record_detonation-row job det scan st = ground arith

  finalize-Once :
      (now : ℕ) (job : Ticket) (det : DetResult) (q : Job) (st : Store)
      → get_job job.id st.jobs ≡ some q
      → job.scan_id ≡ q.scan_id
      → Once st.detonations st.jobs
      → let after = (finalize pack self_download rank now job det st).0 in
        Once after.detonations after.jobs
  unfolding finalize
  finalize-Once now job det q st g e h = elim (Bool-cases (holds job q)) [
    | inr f ↦ rw (g, finalize) (rw (f, Once) h)
    | inl t ↦
        let own = get_own job.id q st.jobs g in
        elim (Option-cases (find? (λ s. nat_eq s.id job.scan_id) st.scans)) [
          | inl missing ↦
              rw (g, finalize)
                (rw (t, missing, mark_own_done job q st.jobs now t, Once)
                  (Once-update q.id (job_done now) q (unfold job_done in refl)
                    (λ o. unfold job_done in refl) st.detonations st.jobs own h))
          | inr (scan, found) ↦
              rw (g, finalize)
                (rw
                  (
                    t,
                    found,
                    mark_own_done job q st.jobs now t,
                    record_detonation-row job det scan st,
                    Once,
                  )
                  (Once-finish now q (row_of det scan) st.detonations st.jobs own
                    (holds-open job q t) (find_scan job.scan_id scan st.scans found ∙ e) h))
        ]
  ]

Step-Once :
    {st after : Store}
    → Step st after
    → Once st.detonations st.jobs
    → Once after.detonations after.jobs
unfolding cas_jobs sweep_stale_jobs
Step-Once {st} (Step.enqueued keys_ok r) h = enqueue_job-Once st.detonations keys_ok r st.jobs h
Step-Once {st} (Step.claim token now i) h =
    Once-map st.detonations _ st.jobs (claim_job-KeepsOver token now i) h
Step-Once {st} (Step.swept now) h = Once-map st.detonations _ st.jobs (release_job-KeepsOver now) h
Step-Once {st} (Step.outdated ttl_hours now) h =
    Once-map st.detonations _ st.jobs (expire_job-KeepsOver (is_outdated ttl_hours now) now) h
Step-Once {st} (Step.expired ids now) h =
    Once-map st.detonations _ st.jobs (expire_job-KeepsOver (has_id ids) now) h
Step-Once {st} (Step.gave_up now job reason) h =
    give_up-Once st.detonations now job reason st.jobs h
Step-Once {st} (Step.requeued now job reason) h =
    requeue_or_fail-Once st.detonations now job reason st.jobs h
Step-Once {st} (Step.finalized pack self_download rank now job det q g e) h =
    finalize-Once pack self_download rank now job det q st g e h

Reach-Once :
    {st after : Store}
    → Reach st after
    → Once st.detonations st.jobs
    → Once after.detonations after.jobs
Reach-Once Reach.here h = h
Reach-Once (Reach.next r s) h = Step-Once s (Reach-Once r h)

-- From a store without detonations whose jobs are of different scans, whatever transactions are
-- committed in whatever order: no scan gets a second detonation.
pub Reach-detonations :
    {st after : Store} (i : ℕ)
    → Reach st after
    → st.detonations ≡ []
    → ((k : ℕ) → count (of_scan k) st.jobs ≤ 1)
    → count (detonation_of i) after.detonations ≤ 1
Reach-detonations {st} {after} i r e d =
    let once = Reach-Once r (λ k. rw e (ground (arith, d k))) i in
    ground (arith, once, count-over-le i after.jobs)
