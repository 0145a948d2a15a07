-- ===== src/Detect/Convictions.antt =====
-- What it takes to convict a package, what the watchlist adds, and when a package is detonated.
use pkgsentry_oss.Prelude.{
  Bool-cases, inl, inr, refl, ℕ, ◌*◌, ◌≤◌, ◌<◌, Bool, true, false, not, ◌&&◌, ◌≡◌, List, [], ◌∷◌,
  ◌⊎◌, none, some, Option, arith, if◌then◌else◌, filter, any, leb, length, contains,
}
use pkgsentry_oss.Adapter.{Finding, Severity}
use pkgsentry_oss.Intel.{IntelPack}
use pkgsentry_oss.Detect.{
  is_clean, Verdict, category_cap, has_any, has_behavioral_chain, has_medium_up, has_high_up,
  is_shadow_finding, scoring_findings, base_verdict, watchlist_verdict, score_and_verdict,
  should_detonate, malicious_min,
}
use pkgsentry_oss.Detect.Buckets.{buckets, raw_score-le}
use pkgsentry_oss.Detect.Verdicts.{level}

-- the score alone cannot reach the malicious threshold
abbrev pub TooFewBuckets : IntelPack → List Finding → Type 0
TooFewBuckets pack fs =
    category_cap pack * length (buckets (scoring_findings fs)) < malicious_min pack

-- Findings that fall into too few buckets for the capped score to reach the malicious threshold
-- convict a package only by a behavioral chain, a critical finding, or a high or critical finding on a
-- package among the first hundred of the watchlist.
pub malicious_needs :
    (pack : IntelPack) (fs : List Finding) (rank : Option ℕ)
    → TooFewBuckets pack fs
    → (score_and_verdict pack fs rank).verdict ≡ Verdict.malicious
    → (has_behavioral_chain pack (scoring_findings fs) ≡ true)
      ⊎ (has_any (scoring_findings fs) Severity.critical ≡ true)
      ⊎ ((has_high_up (scoring_findings fs) ≡ true) × (r : ℕ) × (rank ≡ some r) × (r ≤ 100))
unfolding score_and_verdict watchlist_verdict base_verdict
malicious_needs pack fs none few h = ground (arith, raw_score-le pack (scoring_findings fs))
malicious_needs pack fs (some r) few h =
    elim (Bool-cases (leb r 100 && has_high_up (scoring_findings fs))) [
      | inl top ↦ inr (inr (ground (arith, top), r, refl, ground (arith, top)))
      | inr other ↦ ground (arith, other, raw_score-le pack (scoring_findings fs))
    ]

-- A rank on the watchlist leaves the score alone and never lowers the verdict; the top-hundred tag is
-- set exactly if the rank is at most 100 and a scored finding is high or critical, and then the verdict
-- is malicious; a listed package with a medium or graver scored finding is at least suspicious.
pub watchlist_raises :
    (pack : IntelPack) (fs : List Finding) (r : ℕ)
    → let off = score_and_verdict pack fs none in
      let on = score_and_verdict pack fs (some r) in
      let top = leb r 100 && has_high_up (scoring_findings fs) in
      (on.score ≡ off.score)
      × (level off.verdict ≤ level on.verdict)
      × (on.alert_tag ≡ (if top then some "watchlist_top100" else none))
      × ((if top then 2 else 0) ≤ level on.verdict)
      × ((if has_medium_up (scoring_findings fs) then 1 else 0) ≤ level on.verdict)
unfolding score_and_verdict watchlist_verdict
watchlist_raises pack fs r = ground arith

any-filter {ℓ} :
    {A : Type ℓ} (p q : A → Bool) (xs : List A) → any p (filter q xs) ≡ true → any p xs ≡ true
any-filter p q [] h = h
any-filter p q (x ∷ xs) h = ground (arith, any-filter p q xs)

convicted :
    (pack : IntelPack) (fs : List Finding)
    → has_behavioral_chain pack fs ≡ true
    → base_verdict pack fs ≡ Verdict.malicious
unfolding base_verdict
convicted pack fs h = rw h

has_chain_lem :
    (pack : IntelPack) (fs : List Finding)
    → has_behavioral_chain pack fs ≡ any (λ f. contains pack.behavioral_chain_ids f.rule_id) fs
unfolding has_behavioral_chain
has_chain_lem pack fs = refl

chain_scoring :
    (pack : IntelPack) (fs : List Finding)
    → has_behavioral_chain pack (scoring_findings fs) ≡ true
    → has_behavioral_chain pack fs ≡ true
unfolding has_behavioral_chain scoring_findings
chain_scoring pack fs h = any-filter _ (λ f. not (is_shadow_finding f)) fs h

-- An update of a package that is not listed, with a behavioral chain among its scored findings, is
-- convicted and not executed, where the gate holds the ids of the pack; a new or listed package with
-- the same findings is executed.
pub chain_not_detonated :
    (pack : IntelPack) (fs : List Finding) (r : ℕ)
    → has_behavioral_chain pack (scoring_findings fs) ≡ true
    → let ids = pack.behavioral_chain_ids in
      let v = (score_and_verdict pack fs none).verdict in
      (v ≡ Verdict.malicious)
      × (should_detonate ids v fs none false ≡ false)
      × (should_detonate ids v fs (some r) false ≡ true)
      × (should_detonate ids v fs none true ≡ true)
unfolding should_detonate score_and_verdict watchlist_verdict
chain_not_detonated pack fs r h =
    let found = chain_scoring pack fs h in
    let guilty = convicted pack (scoring_findings fs) h in
    (guilty, ground (arith, found, guilty, has_chain_lem pack fs), refl, refl)

-- An update of a package that is not listed, with no behavioral chain among its findings, is executed
-- exactly if its verdict is not clean, where the gate holds the ids of the pack.
pub detonated_unless_clean :
    (pack : IntelPack) (fs : List Finding)
    → has_behavioral_chain pack fs ≡ false
    → let v = (score_and_verdict pack fs none).verdict in
      should_detonate pack.behavioral_chain_ids v fs none false ≡ not (is_clean v)
unfolding should_detonate
detonated_unless_clean pack fs h = ground (arith, h, has_chain_lem pack fs)
