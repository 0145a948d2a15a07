-- ===== src/Anomaly/Newest.antt =====
-- What an update is judged by: the newest version and the one before it, whatever order they come in.
use mathlib.Core.List.{Permᴰ}
use pkgsentry_oss.Prelude.{
  ℕ, zero, suc, ◌≤◌, ◌≡◌, refl, ap, ◌∙◌, String, Bool, true, false, not, ◌||◌, Option, none, some,
  List, [], ◌∷◌, ◌++◌, any, count, take, length, nat_eq, is_some, arith, Option-cases, inl, inr,
  if◌then◌else◌, length-append,
}
use pkgsentry_oss.Queue.{Priority}
use pkgsentry_oss.Anomaly.{
  VersionMeta, AnomalySettings, Flag, insert_newest, newest_first, flag_if, compare_newest,
  detect_anomaly, check_one, check_all, check_candidates, Manifest, update_flags,
  detect_update_anomaly, anomaly_priority, only_file_count, is_bundled_exec, is_file_count,
  is_none_given,
}

abbrev pub is_at : ℕ → VersionMeta → Bool
is_at t m = nat_eq m.published_at t

-- no two versions have the same time
abbrev pub DistinctTimes : List VersionMeta → Type 0
DistinctTimes metas = (t : ℕ) → count (is_at t) metas ≤ 1

insert_newest-swap :
    (a b : VersionMeta) (metas : List VersionMeta)
    → nat_eq a.published_at b.published_at ≡ false
    → insert_newest a (insert_newest b metas) ≡ insert_newest b (insert_newest a metas)
insert_newest-swap a b [] h = ground (arith, h)
insert_newest-swap a b (x ∷ metas) h = ground (arith, h, insert_newest-swap a b metas h)

count-perm :
    (t : ℕ) {xs ys : List VersionMeta} → Permᴰ xs ys → count (is_at t) xs ≡ count (is_at t) ys
count-perm t Permᴰ.nil = refl
count-perm t (Permᴰ.cons e h) = ground (arith, e, count-perm t h)
count-perm t (Permᴰ.swap e k) = ground (arith, e, k)
count-perm t (Permᴰ.trans h k) = count-perm t h ∙ count-perm t k

tail-DistinctTimes :
    (m : VersionMeta) (metas : List VersionMeta) → DistinctTimes (m ∷ metas) → DistinctTimes metas
tail-DistinctTimes m metas h t = ground (arith, h t)

newest_first-perm :
    {xs ys : List VersionMeta} → Permᴰ xs ys → DistinctTimes xs → newest_first xs ≡ newest_first ys
unfolding newest_first
newest_first-perm Permᴰ.nil d = refl
newest_first-perm (Permᴰ.cons {a = a} {l₁ = xs} {l₂ = ys} e h) d =
    ap (insert_newest a) (newest_first-perm h (tail-DistinctTimes a xs d))
    ∙ ap (λ b. insert_newest b (newest_first ys)) e
newest_first-perm (Permᴰ.swap {a = a} {b = b} {l = l} e k) d =
    let apart : nat_eq a.published_at b.published_at ≡ false =
      ground (arith, d a.published_at, d b.published_at) in
    insert_newest-swap a b (newest_first l) apart ∙ cc (e, k)
newest_first-perm (Permᴰ.trans h k) d =
    newest_first-perm h d ∙ newest_first-perm k (λ t. omega (arith, d t, count-perm t h))

-- Where no two versions have the same time, the answer does not depend on the order of the versions.
pub detect_anomaly-perm :
    (cfg : AnomalySettings) (xs ys : List VersionMeta)
    → Permᴰ xs ys
    → DistinctTimes xs
    → detect_anomaly cfg xs ≡ detect_anomaly cfg ys
unfolding detect_anomaly
detect_anomaly-perm cfg xs ys h d = ap (compare_newest cfg) (newest_first-perm h d)

length-check_one :
    (cfg : AnomalySettings) (fetch : String → Option (List VersionMeta)) (n : String)
    → length (check_one cfg fetch n) ≤ 1
unfolding check_one
length-check_one cfg fetch n = elim (Option-cases (fetch n)) [
  | inl e ↦ ground (arith, e)
  | inr (metas, e) ↦ ground (arith, e)
]

length-check_all :
    (cfg : AnomalySettings) (fetch : String → Option (List VersionMeta)) (k : ℕ)
    (names : List String)
    → length (check_all cfg fetch (take k names)) ≤ k
length-check_all cfg fetch zero names = omega arith
length-check_all cfg fetch (suc k) [] = omega arith
length-check_all cfg fetch (suc k) (n ∷ names) = omega (
  arith,
  length-append (check_one cfg fetch n) (check_all cfg fetch (take k names)),
  length-check_one cfg fetch n,
  length-check_all cfg fetch k names,
)

-- a flag that is worth a scan of its own
abbrev pub is_telling : Flag → Bool
is_telling f = not (is_file_count f)

-- the flags of an npm update, each up or not
abbrev raised : Bool → Bool → Bool → Bool → Bool → Bool → List Flag
raised added changed bundled size files publisher =
    flag_if added Flag.install_hook_added
    ++ (flag_if changed Flag.install_hook_changed
        ++ (flag_if bundled Flag.install_hook_bundled_exec
            ++ (flag_if size Flag.size_jump
                ++ (flag_if files Flag.file_count_jump
                    ++ flag_if publisher Flag.publisher_change))))

raised-reported :
    (added changed bundled size files publisher : Bool)
    → not (
        nat_eq (length (raised added changed bundled size files publisher)) 0
        || only_file_count (raised added changed bundled size files publisher))
      ≡ any is_telling (raised added changed bundled size files publisher)
raised-reported true changed bundled size files publisher = ground arith
raised-reported false true bundled size files publisher = ground arith
raised-reported false false true size files publisher = ground arith
raised-reported false false false true files publisher = ground arith
raised-reported false false false false files publisher = ground arith

raised-bundled :
    (added changed bundled size files publisher : Bool)
    → any is_bundled_exec (raised added changed bundled size files publisher) ≡ bundled
raised-bundled true true bundled size files publisher = ground arith
raised-bundled true false bundled size files publisher = ground arith
raised-bundled false true bundled size files publisher = ground arith
raised-bundled false false bundled size files publisher = ground arith

is_some-unless {ℓ} : {A : Type ℓ} (b : Bool) (x : A) → is_some (if b then none else some x) ≡ not b
is_some-unless true x = refl
is_some-unless false x = refl

some_unless {ℓ} :
    {A : Type ℓ} (b : Bool) (x y : A) → not b ≡ true → x ≡ y → (if b then none else some x) ≡ some y
some_unless true x y h e = cc h
some_unless false x y h e = ap some e

telling-bundled :
    (flags : List Flag) → any is_bundled_exec flags ≡ true → any is_telling flags ≡ true
telling-bundled [] h = cc h
telling-bundled (f ∷ flags) h = ground (arith, h, telling-bundled flags)

module _ (cfg : AnomalySettings) (established_min n_versions : ℕ) (new_v prev_v : String)
    (new prev : Manifest) (older : List (String × Manifest)) where
  abbrev pub found : Option (String × List Flag × Priority)
  found =
      detect_update_anomaly cfg established_min n_versions ((new_v, new) ∷ (prev_v, prev) ∷ older)

  -- An npm update is reported exactly when a flag other than the number of files is up, whatever came
  -- before the last two versions.
  pub detect_update_anomaly-reported : is_some found ≡ any is_telling (update_flags cfg new prev)
  unfolding detect_update_anomaly update_flags
  detect_update_anomaly-reported = is_some-unless _ _ ∙ raised-reported _ _ _ _ _ _

  -- An npm update whose hooks newly run a bundled path is always reported, and with high priority.
  pub detect_update_anomaly-bundled :
      not (is_none_given new.hooks) ≡ true
      → new.runs_bundled_path ≡ true
      → prev.runs_bundled_path ≡ false
      → found ≡ some (new_v, update_flags cfg new prev, Priority.high)
  unfolding detect_update_anomaly update_flags anomaly_priority
  detect_update_anomaly-bundled h k l =
      let up : any is_bundled_exec (update_flags cfg new prev) ≡ true =
        raised-bundled _ _ _ _ _ _ ∙ ground (arith, h, k, l) in
      let told = raised-reported _ _ _ _ _ _ ∙ telling-bundled (update_flags cfg new prev) up in
      some_unless _ _ _ told (rw up refl)

-- A round of checks asks for at most `max_checks` scans.
pub length-check_candidates :
    (cfg : AnomalySettings) (fetch : String → Option (List VersionMeta)) (max_checks : ℕ)
    (names : List String)
    → length (check_candidates cfg fetch max_checks names) ≤ max_checks
unfolding check_candidates
length-check_candidates cfg fetch max_checks names = length-check_all cfg fetch max_checks names
