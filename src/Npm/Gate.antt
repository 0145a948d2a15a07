-- ===== src/Npm/Gate.antt =====
-- Which packages of a page of the npm feed are to be resolved (`_gate_page` in
-- pkgward/ecosystems/npm/ingest/cursor.py, `gate_decision` in pkgward/focus.py). The look-ups in the
-- database, whether a name is on the focus list, watched, or known, are parameters.
use text.Mathlib.Text.{starts_with}
use pkgsentry_oss.Prelude.{
  ℕ, suc, String, ◌≡◌, Bool, not, ◌&&◌, ◌||◌, Option, none, some, List, [], ◌∷◌, ◌++◌, arith,
  contains, Dict, lookup, insert, lookup-insert, str_eq, is_some, Bool-cases, Option-cases, inl,
  inr, if◌then◌else◌,
}
use pkgsentry_oss.Queue.{Priority}

unfoldable pub gate_decision : Bool → Bool → Bool → Bool → Option Priority
gate_decision on_focus on_watchlist brand_new exclusive =
    if exclusive
    then if on_focus then some Priority.high else none
    else if on_focus || on_watchlist
    then some Priority.high
    else if brand_new
    then some Priority.normal
    else none

pub record Change : Type 0 where
  pub name : String
  pub seq : ℕ
  pub deleted : Bool

-- what a poll gathers from its pages
pub record Gathered : Type 0 where
  pub gated : Dict Priority
  pub gated_seq : Dict ℕ
  pub anomalies : List String
  pub newly : ℕ
  pub skipped : ℕ

module _ (exclusive : Bool) (on_focus on_watchlist known : String → Bool) where
  -- a row that is not passed over
  unfoldable pub is_relevant : Gathered → Change → Bool
  is_relevant g row =
      not (str_eq row.name "" || (starts_with row.name "_design/" || row.deleted))
      && not (is_some (lookup row.name g.gated))

  unfoldable pub brand_new : String → Bool
  brand_new name = not (on_focus name || on_watchlist name) && not (known name)

  unfoldable pub gate_row : Gathered → Change → Gathered
  unfolding gate_decision is_relevant brand_new
  gate_row g row =
      let skip = record g { skipped = suc g.skipped } in
      let take = λ (p : Priority). record g {
        gated = insert row.name p g.gated;
        gated_seq = insert row.name row.seq g.gated_seq;
        newly = suc g.newly;
      } in
      if is_relevant g row
      then elim (gate_decision (on_focus row.name) (on_watchlist row.name) (brand_new row.name)
          exclusive) [
            | some p ↦ take p
            | none ↦
                if exclusive || (brand_new row.name || contains g.anomalies row.name)
                then skip
                else record skip { anomalies = g.anomalies ++ row.name ∷ [] }
          ]
      else g

  unfoldable pub gate_page : List Change → Gathered → Gathered
  unfolding gate_row
  gate_page [] g = g
  gate_page (row ∷ results) g = gate_page results (gate_row g row)

  gate_row-places :
      (n : String) (g : Gathered) (row : Change)
      → is_some (lookup n g.gated) ≡ is_some (lookup n g.gated_seq)
      → let after = gate_row g row in
        is_some (lookup n after.gated) ≡ is_some (lookup n after.gated_seq)
  unfolding gate_row
  gate_row-places n g row h = elim (Bool-cases (is_relevant g row)) [
    | inr f ↦ rw (f, gate_row) h
    | inl t ↦
        let choice =
          gate_decision (on_focus row.name) (on_watchlist row.name) (brand_new row.name)
            exclusive in
        elim (Option-cases choice) [
          | inl e ↦
              rw (t, gate_row)
                (rw e
                  (elim (Bool-cases
                    (exclusive || (brand_new row.name || contains g.anomalies row.name))) [
                      | inl x ↦ rw x h
                      | inr x ↦ rw x h
                    ]))
          | inr (p, e) ↦
              rw (t, gate_row)
                (rw e (
                  rw
                    (
                      lookup-insert row.name n p g.gated,
                      lookup-insert row.name n row.seq g.gated_seq,
                    )
                    (ground (arith, h))))
        ]
  ]

  -- If every gated name has its place in the feed before a page, it has after: each name that the page
  -- gates is recorded with a sequence number, and nothing else is.
  pub gate_page-places :
      (n : String) (results : List Change) (g : Gathered)
      → is_some (lookup n g.gated) ≡ is_some (lookup n g.gated_seq)
      → let after = gate_page results g in
        is_some (lookup n after.gated) ≡ is_some (lookup n after.gated_seq)
  unfolding gate_page
  gate_page-places n [] g h = h
  gate_page-places n (row ∷ results) g h =
      gate_page-places n results (gate_row g row) (gate_row-places n g row h)
