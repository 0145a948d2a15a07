-- ===== src/Watchlist.antt =====
-- Names that confirmed verdicts put on the watchlist (pkgward/watchlist_auto.py, table Watchlist of
-- pkgward/store/models.py). `lower` stands for the lower case of a name; times are seconds. The settings
-- come from the environment, where zero switches a limit off.
pub mod Popular
pub mod Cap
use pkgsentry_oss.Prelude.Delete.{delete_oldest}
use pkgsentry_oss.Prelude.{
  ℕ, zero, suc, ◌+◌, ◌-◌, ◌*◌, String, Bool, true, false, not, ◌&&◌, Option, none, some, List, [],
  ◌∷◌, ◌++◌, map, filter, count, any, find?, contains, take, length, Dict, lookup, insert, get_or,
  str_eq, nat_eq, ltb, leb, if◌then◌else◌,
}

pub record Entry : Type 0 where
  pub id : ℕ
  pub ecosystem : String
  pub name : String
  pub rank : ℕ
  pub refreshed_at : ℕ

abbrev pub auto_malicious_rank : ℕ
auto_malicious_rank = 9999999

pub record Settings : Type 0 where
  pub enabled : Bool
  pub blocklist : Dict (List String)
  pub ttl_days : ℕ
  pub max_per_eco : ℕ
  pub max_adds_per_hour : ℕ

-- the table, and the times of the recent additions of each ecosystem
pub record Watchlist : Type 0 where
  pub entries : List Entry
  pub next_id : ℕ
  pub recent_adds : Dict (List ℕ)

-- `while dq and dq[0] < cutoff: dq.popleft()`
unfoldable pub pop_old : ℕ → List ℕ → List ℕ
pop_old now [] = []
pop_old now (t ∷ ts) = let rest = pop_old now ts in if ltb (t + 3600) now then rest else t ∷ ts

unfoldable pub rate_limited : ℕ → ℕ → String → Dict (List ℕ) → Bool × Dict (List ℕ)
unfolding pop_old
rate_limited cap now ecosystem recent =
    let kept = pop_old now (get_or [] (lookup ecosystem recent)) in
    if nat_eq cap 0
    then (false, recent)
    else if leb cap (length kept)
    then (true, insert ecosystem kept recent)
    else (false, insert ecosystem (kept ++ now ∷ []) recent)

pub data AddStatus : Type 0 where
  added refreshed already_popularity blocklisted rate_limited_add : AddStatus

-- a write to `refreshed_at` of the row that a SELECT has found
unfoldable pub refresh_first : (Entry → Bool) → ℕ → List Entry → List Entry
refresh_first p now [] = []
refresh_first p now (e ∷ entries) =
    let rest = refresh_first p now entries in
    if p e then record e { refreshed_at = now } ∷ entries else e ∷ rest

abbrev pub is_auto : Entry → Bool
is_auto e = nat_eq e.rank auto_malicious_rank

module _ (lower : String → String) where
  -- `Watchlist.ecosystem == ecosystem and lower(name) == name.lower()`
  abbrev pub is_named : String → String → Entry → Bool
  is_named ecosystem name e = str_eq e.ecosystem ecosystem && str_eq (lower e.name) (lower name)

  -- `inserted` tells whether the INSERT met no row of another session, `clock` is the monotonic clock
  unfoldable pub add_confirmed_malicious :
      Settings → Bool → ℕ → ℕ → String → String → Watchlist → Watchlist × Option AddStatus
  unfolding rate_limited refresh_first
  add_confirmed_malicious cfg inserted now clock ecosystem name w =
      let limit = rate_limited cfg.max_adds_per_hour clock ecosystem w.recent_adds in
      if not cfg.enabled
      then (w, none)
      else if contains (get_or [] (lookup ecosystem cfg.blocklist)) (lower name)
      then (w, some AddStatus.blocklisted)
      else elim (find? (is_named ecosystem name) w.entries) [
        | some e ↦
            if is_auto e
            then (
              record w { entries = refresh_first (is_named ecosystem name) now w.entries },
              some AddStatus.refreshed,
            )
            else (w, some AddStatus.already_popularity)
        | none ↦
            if limit.0
            then (record w { recent_adds = limit.1 }, some AddStatus.rate_limited_add)
            else if inserted
            then (
              record {
                entries =
                    w.entries
                    ++ record {
                      id = w.next_id;
                      ecosystem = ecosystem;
                      name = name;
                      rank = auto_malicious_rank;
                      refreshed_at = now;
                    }
                      ∷ [];
                next_id = suc w.next_id;
                recent_adds = limit.1;
              },
              some AddStatus.added,
            )
            else (record w { recent_adds = limit.1 }, some AddStatus.already_popularity)
      ]

  abbrev pub is_named_auto : String → String → Entry → Bool
  is_named_auto ecosystem name e = is_named ecosystem name e && is_auto e

  unfoldable pub is_watchlist_auto_only : String → String → List Entry → Bool
  is_watchlist_auto_only ecosystem name entries = any (is_named_auto ecosystem name) entries

  unfoldable pub remove_auto_entry : String → String → List Entry → List Entry × Bool
  remove_auto_entry ecosystem name entries = (
    filter (λ e. not (is_named_auto ecosystem name e)) entries,
    not (nat_eq (count (is_named_auto ecosystem name) entries) 0),
  )

unfoldable pub is_expired : ℕ → ℕ → Entry → Bool
is_expired ttl_days now e = is_auto e && ltb (e.refreshed_at + ttl_days * 86400) now

unfoldable pub prune_expired : Settings → ℕ → List Entry → List Entry × ℕ
unfolding is_expired
prune_expired cfg now entries = if nat_eq cfg.ttl_days 0 then (entries, 0) else (
  filter (λ e. not (is_expired cfg.ttl_days now e)) entries,
  count (is_expired cfg.ttl_days now) entries,
)

abbrev pub auto_of : String → Entry → Bool
auto_of eco e = str_eq e.ecosystem eco && is_auto e

unfoldable pub evict_oldest : ℕ → String → List Entry → List Entry × ℕ
evict_oldest cap eco entries =
    let excess = count (auto_of eco) entries - cap in
    (
      delete_oldest (λ (e : Entry). e.id) (λ (e : Entry). e.refreshed_at) excess (auto_of eco)
          entries,
      excess,
    )

-- for each of the ecosystems
unfoldable pub prune_ecosystems : ℕ → List String → List Entry → List Entry × ℕ
unfolding evict_oldest
prune_ecosystems cap [] entries = (entries, 0)
prune_ecosystems cap (eco ∷ ecos) entries =
    let (kept, n) = evict_oldest cap eco entries in
    let (rest, total) = prune_ecosystems cap ecos kept in (rest, n + total)

unfoldable pub prune_over_cap : Settings → List Entry → List Entry × ℕ
unfolding prune_ecosystems
prune_over_cap cfg entries =
    if nat_eq cfg.max_per_eco 0
    then (entries, 0)
    else prune_ecosystems cfg.max_per_eco ("pypi" ∷ "crates" ∷ "gomod" ∷ "npm" ∷ []) entries
