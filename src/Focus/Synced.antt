-- ===== src/Focus/Synced.antt =====
-- What is on focus after a focus list has been written.
use pkgsentry_oss.Prelude.{
  ◌≡◌, refl, String, Bool, true, false, not, ◌&&◌, ◌||◌, List, [], ◌∷◌, filter, any, str_eq, arith,
  eq_iff, Bool-cases, inl, inr, if◌then◌else◌,
}
use pkgsentry_oss.Prelude.Texts.{Text, text_eq, text_eq→≡}
use pkgsentry_oss.Focus.{
  FocusEntry, FocusRow, key, load_focus_names, on_focus, is_focus, upsert_one, upsert_focus,
  clear_focus, sync_focus,
}

-- whether an entry of that name is asked for by `name`
abbrev pub is_same : String → Text → Text → Bool
is_same ecosystem name n = text_eq (key name ecosystem) (key n ecosystem)

on_focus-is_focus :
    (ecosystem : String) (name : Text) (rows : List FocusRow)
    → on_focus name (load_focus_names ecosystem rows) ecosystem ≡ is_focus ecosystem name rows
unfolding on_focus load_focus_names is_focus key
on_focus-is_focus ecosystem name [] = refl
on_focus-is_focus ecosystem name (r ∷ rows) = ground (arith, on_focus-is_focus ecosystem name rows)

-- whether a row of that ecosystem and name answers
unfoldable is_hit : String → Text → String → Text → Bool
is_hit other name ecosystem n = str_eq ecosystem other && is_same other name n

is_focus-nil : (other : String) (name : Text) → is_focus other name [] ≡ false
unfolding is_focus
is_focus-nil other name = refl

is_focus-cons :
    (other : String) (name : Text) (r : FocusRow) (rows : List FocusRow)
    → is_focus other name (r ∷ rows)
      ≡ (is_hit other name r.ecosystem r.name || is_focus other name rows)
unfolding is_focus is_hit key
is_focus-cons other name r rows = ground arith

or_false : (a : Bool) → (a || false) ≡ (false || a)
or_false true = refl
or_false false = refl

absorb : (a b : Bool) → (a || b) ≡ ((a || b) || a)
absorb true b = refl
absorb false true = refl
absorb false false = refl

swap_hits : (a b c d : Bool) → d ≡ (b || c) → (a || d) ≡ ((a || b) || c)
swap_hits true b c d h = refl
swap_hits false b c d h = h

is_focus-upsert_one :
    (ecosystem other : String) (name : Text) (e : FocusEntry) (rows : List FocusRow)
    → is_focus other name (upsert_one ecosystem e rows)
      ≡ (is_focus other name rows || is_hit other name ecosystem e.name)
unfolding upsert_one
is_focus-upsert_one ecosystem other name e [] =
    let added : FocusRow = record {
      ecosystem = ecosystem;
      name = e.name;
      pinned_version = e.pinned_version;
    } in
    rw (is_focus-cons other name added [], is_focus-nil other name)
      (or_false (is_hit other name ecosystem e.name))
is_focus-upsert_one ecosystem other name e (r ∷ rows) =
    let rest = upsert_one ecosystem e rows in
    let written : FocusRow = record r { pinned_version = e.pinned_version } in
    let hit = is_hit other name r.ecosystem r.name in
    elim (Bool-cases (str_eq r.ecosystem ecosystem && text_eq e.name r.name)) [
      | inl y ↦
          let same_ecosystem : r.ecosystem ≡ ecosystem =
            ground (arith, y, eq_iff r.ecosystem ecosystem) in
          let same_name : e.name ≡ r.name = text_eq→≡ e.name r.name (ground (arith, y)) in
          let same : is_hit other name ecosystem e.name ≡ hit = cc (same_ecosystem, same_name) in
          rw (y, is_focus-cons other name written rows, is_focus-cons other name r rows, same)
            (absorb hit (is_focus other name rows))
      | inr n ↦
          rw (n, is_focus-cons other name r rest, is_focus-cons other name r rows)
            (swap_hits hit (is_focus other name rows) (is_hit other name ecosystem e.name)
              (is_focus other name rest) (is_focus-upsert_one ecosystem other name e rows))
    ]

is_focus-upsert_focus :
    (ecosystem other : String) (name : Text) (entries : List FocusEntry) (rows : List FocusRow)
    → is_focus other name (upsert_focus ecosystem entries rows).0 ≡ (
        is_focus other name rows
        || (str_eq ecosystem other && any (λ (e : FocusEntry). is_same other name e.name) entries))
unfolding upsert_focus is_hit
is_focus-upsert_focus ecosystem other name [] rows = ground arith
is_focus-upsert_focus ecosystem other name (e ∷ entries) rows = ground (
  arith,
  is_focus-upsert_focus ecosystem other name entries (upsert_one ecosystem e rows),
  is_focus-upsert_one ecosystem other name e rows,
)

is_focus-cleared :
    (ecosystem other : String) (name : Text) (rows : List FocusRow)
    → is_focus other name (filter (λ (r : FocusRow). not (str_eq r.ecosystem ecosystem)) rows)
      ≡ (not (str_eq ecosystem other) && is_focus other name rows)
unfolding is_focus
is_focus-cleared ecosystem other name [] = ground arith
is_focus-cleared ecosystem other name (r ∷ rows) = ground (
  arith,
  is_focus-cleared ecosystem other name rows,
  eq_iff r.ecosystem ecosystem,
  eq_iff r.ecosystem other,
  eq_iff ecosystem other,
)

-- After a focus list has been synced for an ecosystem, a name is on focus there exactly if an entry of the
-- list has it, up to case where the ecosystem ignores it, and nothing changes for any other ecosystem;
-- that the names are loaded first makes no difference to asking the database.
pub on_focus-sync_focus :
    (ecosystem other : String) (name : Text) (entries : List FocusEntry) (rows : List FocusRow)
    → str_eq ecosystem "" ≡ false
    → (on_focus name (load_focus_names other (sync_focus ecosystem entries rows).0) other ≡ (
        if str_eq ecosystem other
        then any (λ (e : FocusEntry). is_same other name e.name) entries
        else on_focus name (load_focus_names other rows) other))
      × (on_focus name (load_focus_names other rows) other ≡ is_focus other name rows)
unfolding sync_focus clear_focus
on_focus-sync_focus ecosystem other name entries rows h =
    let kept = filter (λ (r : FocusRow). not (str_eq r.ecosystem ecosystem)) rows in
    (
      rw
          (
            h,
            on_focus-is_focus other name rows,
            on_focus-is_focus other name (upsert_focus ecosystem entries kept).0,
          )
          (ground (
            arith,
            is_focus-upsert_focus ecosystem other name entries kept,
            is_focus-cleared ecosystem other name rows,
          )),
      on_focus-is_focus other name rows,
    )
