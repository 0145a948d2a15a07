-- ===== src/Detect/Verdicts.antt =====
-- What the verdict of a scan depends on, and what it cannot be.
use mathlib.Core.List.{Perm, append-nil, append_assoc}
use pkgsentry_oss.Prelude.{
  ℕ, ◌≤◌, Bool, true, not, ◌≡◌, refl, sym, ◌∙◌, List, [], ◌∷◌, ◌++◌, none, some, Option, arith,
  Dict, filter, any-append, all, contains,
}
use pkgsentry_oss.Adapter.{Finding, Severity, sev_eq}
use pkgsentry_oss.Intel.{IntelPack}
use pkgsentry_oss.Detect.{
  Verdict, ScoreResult, severity_points, category_cap, bucket, add_points, add_findings, raw_score,
  has_any, has_behavioral_chain, has_medium_up, has_high_up, is_shadow_finding, scoring_findings,
  base_verdict, watchlist_verdict, score_and_verdict,
}
use pkgsentry_oss.Detect.Buckets.{held-add_findings, sum_values-add_points}
use pkgsentry_oss.Detect.Order.{raw_score-perm, filter-perm, any-perm}

-- `score_and_verdict` of findings that are all scored
abbrev pub judge : IntelPack → List Finding → Option ℕ → ScoreResult
judge pack fs rank =
    let (v, tag) = watchlist_verdict fs rank (base_verdict pack fs) in
    record { score = raw_score pack fs; verdict = v; alert_tag = tag }

module _ (pack : IntelPack) {fs gs : List Finding} (h : Perm fs gs) where
  has_any-perm : (s : Severity) → has_any fs s ≡ has_any gs s
  unfolding has_any
  has_any-perm s = any-perm _ h

  has_medium_up-perm : has_medium_up fs ≡ has_medium_up gs
  unfolding has_medium_up
  has_medium_up-perm = any-perm _ h

  has_high_up-perm : has_high_up fs ≡ has_high_up gs
  unfolding has_high_up
  has_high_up-perm = any-perm _ h

  chain-perm : has_behavioral_chain pack fs ≡ has_behavioral_chain pack gs
  unfolding has_behavioral_chain
  chain-perm = any-perm _ h

  base_verdict-perm : base_verdict pack fs ≡ base_verdict pack gs
  unfolding base_verdict
  base_verdict-perm = rw (
    raw_score-perm pack h,
    chain-perm,
    has_any-perm Severity.critical,
    has_any-perm Severity.high,
  )

  judge-perm : (rank : Option ℕ) → judge pack fs rank ≡ judge pack gs rank
  unfolding watchlist_verdict
  judge-perm none = rw (raw_score-perm pack h, base_verdict-perm)
  judge-perm (some r) =
      rw (raw_score-perm pack h, base_verdict-perm, has_medium_up-perm, has_high_up-perm)

-- The score, the verdict and the alert tag do not depend on the order of the findings.
pub score_and_verdict-perm :
    (pack : IntelPack) (fs gs : List Finding) (rank : Option ℕ)
    → Perm fs gs
    → score_and_verdict pack fs rank ≡ score_and_verdict pack gs rank
unfolding score_and_verdict scoring_findings
score_and_verdict-perm pack fs gs rank h =
    judge-perm pack (filter-perm (λ f. not (is_shadow_finding f)) h) rank

-- from `clean` up to `malicious`
abbrev pub level : Verdict → ℕ
level Verdict.clean = 0
level Verdict.suspicious = 1
level Verdict.malicious = 2

add_findings-append :
    (pack : IntelPack) (fs : List Finding) (f : Finding) (d : Dict ℕ)
    → add_findings pack (fs ++ f ∷ []) d
      ≡ add_points
          (category_cap pack)
          (bucket f)
          (severity_points pack f.severity)
          (add_findings pack fs d)
unfolding add_findings
add_findings-append pack [] f d = refl
add_findings-append pack (g ∷ fs) f d = add_findings-append pack fs f _

raw_score-le-append :
    (pack : IntelPack) (fs : List Finding) (f : Finding)
    → raw_score pack fs ≤ raw_score pack (fs ++ f ∷ [])
unfolding raw_score
raw_score-le-append pack fs f = rw add_findings-append (
    omega (
      arith,
      held-add_findings pack fs [] (bucket f) (omega arith),
      sum_values-add_points (category_cap pack) (bucket f) (severity_points pack f.severity)
          (add_findings pack fs []),
    ))

module _ (pack : IntelPack) (fs : List Finding) (f : Finding) where
  base_verdict-append : level (base_verdict pack fs) ≤ level (base_verdict pack (fs ++ f ∷ []))
  unfolding base_verdict has_any has_behavioral_chain
  base_verdict-append = ground (
    arith,
    raw_score-le-append pack fs f,
    any-append (λ (g : Finding). contains pack.behavioral_chain_ids g.rule_id) fs (f ∷ []),
    any-append (λ (g : Finding). sev_eq g.severity Severity.critical) fs (f ∷ []),
    any-append (λ (g : Finding). sev_eq g.severity Severity.high) fs (f ∷ []),
  )

  has_medium_up-append : has_medium_up fs ≡ true → has_medium_up (fs ++ f ∷ []) ≡ true
  unfolding has_medium_up
  has_medium_up-append h = rw any-append (rw h)

  has_high_up-append : has_high_up fs ≡ true → has_high_up (fs ++ f ∷ []) ≡ true
  unfolding has_high_up
  has_high_up-append h = rw any-append (rw h)

  judge-append :
      (rank : Option ℕ)
      → ((judge pack fs rank).score ≤ (judge pack (fs ++ f ∷ []) rank).score)
        × (level (judge pack fs rank).verdict ≤ level (judge pack (fs ++ f ∷ []) rank).verdict)
  unfolding watchlist_verdict
  judge-append none = (raw_score-le-append pack fs f, base_verdict-append)
  judge-append (some r) = (
    raw_score-le-append pack fs f,
    ground (arith, base_verdict-append, has_medium_up-append, has_high_up-append),
  )

judge-append_list :
    (pack : IntelPack) (fs extra : List Finding) (rank : Option ℕ)
    → ((judge pack fs rank).score ≤ (judge pack (fs ++ extra) rank).score)
      × (level (judge pack fs rank).verdict ≤ level (judge pack (fs ++ extra) rank).verdict)
judge-append_list pack fs [] rank = rw append-nil (omega arith)
judge-append_list pack fs (f ∷ extra) rank =
    let ih : ((judge pack (fs ++ f ∷ []) rank).score ≤ (judge pack (fs ++ f ∷ extra) rank).score)
        × (level (judge pack (fs ++ f ∷ []) rank).verdict
            ≤ level (judge pack (fs ++ f ∷ extra) rank).verdict) =
      rw append_assoc at (judge-append_list pack (fs ++ f ∷ []) extra rank) in
    omega (arith, judge-append pack fs f rank, ih)

filter-append {ℓ} :
    {A : Type ℓ} (p : A → Bool) (xs ys : List A) → filter p (xs ++ ys) ≡ filter p xs ++ filter p ys
filter-append p [] ys = refl
filter-append p (x ∷ xs) ys = ground (arith, filter-append p xs ys)

score_and_verdict-append :
    (pack : IntelPack) (fs extra : List Finding) (rank : Option ℕ)
    → ((score_and_verdict pack fs rank).score ≤ (score_and_verdict pack (fs ++ extra) rank).score)
      × (level (score_and_verdict pack fs rank).verdict
          ≤ level (score_and_verdict pack (fs ++ extra) rank).verdict)
unfolding score_and_verdict scoring_findings
score_and_verdict-append pack fs extra rank =
    rw filter-append (judge-append_list pack (scoring_findings fs) (scoring_findings extra) rank)

-- Further findings, wherever they stand among the others, never lower the score or the verdict.
pub more_findings :
    (pack : IntelPack) (fs extra gs : List Finding) (rank : Option ℕ)
    → Perm (fs ++ extra) gs
    → ((score_and_verdict pack fs rank).score ≤ (score_and_verdict pack gs rank).score)
      × (level (score_and_verdict pack fs rank).verdict
          ≤ level (score_and_verdict pack gs rank).verdict)
more_findings pack fs extra gs rank h =
    rw (← score_and_verdict-perm pack (fs ++ extra) gs rank h)
      (score_and_verdict-append pack fs extra rank)

scoring_findings-shadow :
    (extra : List Finding) → all is_shadow_finding extra ≡ true → scoring_findings extra ≡ []
unfolding scoring_findings
scoring_findings-shadow [] h = refl
scoring_findings-shadow (f ∷ extra) h = ground (arith, scoring_findings-shadow extra)

shadow_append :
    (pack : IntelPack) (fs extra : List Finding) (rank : Option ℕ)
    → all is_shadow_finding extra ≡ true
    → score_and_verdict pack (fs ++ extra) rank ≡ score_and_verdict pack fs rank
unfolding score_and_verdict scoring_findings
shadow_append pack fs extra rank h = rw (filter-append, scoring_findings-shadow extra h, append-nil)

-- Shadow findings, wherever they stand among the others, change neither score, verdict nor tag.
pub shadow_findings :
    (pack : IntelPack) (fs extra gs : List Finding) (rank : Option ℕ)
    → all is_shadow_finding extra ≡ true
    → Perm (fs ++ extra) gs
    → score_and_verdict pack gs rank ≡ score_and_verdict pack fs rank
shadow_findings pack fs extra gs rank h p =
    sym (score_and_verdict-perm pack (fs ++ extra) gs rank p) ∙ shadow_append pack fs extra rank h
