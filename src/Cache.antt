-- ===== src/Cache.antt =====
-- crates/server/src/application/cache.rs: `State` and the operations of `TtlCache` on it.
-- A `SharedLookup` is the number of the task that runs the lookup; `Cache/System.antt` has the
-- tasks, their outcomes and the clock. `u64` arithmetic wraps around, as in a release build.
pub mod Agree
pub mod Invariant
pub mod Preserves
pub mod Ordered
pub mod Eviction
pub mod System
use psstore.Prelude.{
  ℕ, ◌+◌, ◌%◌, ◌^◌, ◌≤◌, ◌<◌, Bool, true, false, Option, none, some, List, [], ◌∷◌, ◌==◌, ltb, leb,
  length, if◌then◌else◌,
}
use psstore.Prelude.Maps.{get, remove, insert}

pub record Entry : Type 0 where
  pub id : ℕ
  pub used : ℕ
  pub lookup : ℕ
  pub expires_at : Option ℕ

-- `recency` is a `BTreeMap`: its pairs stand in ascending order of their numbers.
pub record State (K : Type 0) : Type 0 where
  pub entries : List (K × Entry)
  pub recency : List (ℕ × K)
  pub next : ℕ

-- `BTreeMap::insert`
unfoldable pub recency_insert {ℓ} : {K : Type ℓ} → ℕ → K → List (ℕ × K) → List (ℕ × K)
recency_insert u k [] = (u, k) ∷ []
recency_insert u k ((v, j) ∷ r) =
    let rest = recency_insert u k r in
    if ltb u v then (u, k) ∷ (v, j) ∷ r else if u == v then (u, k) ∷ r else (v, j) ∷ rest

-- `BTreeMap::remove`
unfoldable pub recency_remove {ℓ} : {K : Type ℓ} → ℕ → List (ℕ × K) → List (ℕ × K)
recency_remove u [] = []
recency_remove u ((v, j) ∷ r) = let rest = recency_remove u r in if u == v then r else (v, j) ∷ rest

abbrev pub empty : {K : Type 0} → State K
empty = record { entries = []; recency = []; next = 0 }

-- `now >= at`, for an entry with an expiry
unfoldable pub expired : Entry → ℕ → Bool
expired e now = elim e.expires_at [ none ↦ false | some at ↦ leb at now ]

-- `Instant::checked_add`; `latest` is the last instant that the clock can represent.
unfoldable pub checked_add : ℕ → ℕ → ℕ → Option ℕ
checked_add latest now ttl = if leb (now + ttl) latest then some (now + ttl) else none

module _ {K : Type 0} where
  -- `State::bump`, the state after it; the number it returns is the new `next`.
  unfoldable pub bump : State K → State K
  bump s = record s { next = (s.next + 1) % 2 ^ 64 }

module _ {K : Type 0} (dec : Discrete K) where
  unfoldable pub remove_key : K → State K → State K
  remove_key key s = elim (get dec key s.entries) [
    | none ↦ s
    | some entry ↦ record s {
      entries = remove dec key s.entries;
      recency = recency_remove entry.used s.recency;
    }
  ]

  -- the rest of `fresh_entry` for a usable entry: it becomes the most recently used one
  unfoldable pub touch : K → Entry → State K → State K
  unfolding bump
  touch key entry s =
      let s' = bump s in
      record s' {
        entries = insert dec key (record entry { used = s'.next }) s'.entries;
        recency = recency_insert s'.next key (recency_remove entry.used s'.recency);
      }

  unfoldable pub fresh_entry : K → ℕ → State K → Option ℕ × State K
  unfolding expired
  fresh_entry key now s = elim (get dec key s.entries) [
    | none ↦ (none, s)
    | some entry ↦
        if expired entry now
        then (none, remove_key key s)
        else (some entry.lookup, touch key entry s)
  ]

  unfoldable pub insert_entry : K → Entry → State K → State K
  insert_entry key entry s =
      let s' = remove_key key s in
      record s' {
        recency = recency_insert entry.used key s'.recency;
        entries = insert dec key entry s'.entries;
      }

  unfoldable pub remove_lookup : K → ℕ → State K → State K
  remove_lookup key id s = elim (get dec key s.entries) [
    | none ↦ s
    | some entry ↦ if entry.id == id then remove_key key s else s
  ]

  -- the loop of `evict_over`: each round pops the first pair of `recency`
  unfoldable pub evict_loop : ℕ → List (ℕ × K) → List (K × Entry) → List (ℕ × K) × List (K × Entry)
  evict_loop capacity [] entries = ([], entries)
  evict_loop capacity ((u, key) ∷ recency) entries =
      let rest = evict_loop capacity recency (remove dec key entries) in
      if ltb capacity (length entries) then rest else ((u, key) ∷ recency, entries)

  unfoldable pub evict_over : ℕ → State K → State K
  unfolding evict_loop
  evict_over capacity s =
      let (recency, entries) = evict_loop capacity s.recency s.entries in
      record s { entries = entries; recency = recency }

  -- `start_lookup` on the state: the pending entry of the new task, whose number is the new `next`
  unfoldable pub start_lookup : ℕ → K → State K → State K
  unfolding bump
  start_lookup capacity key s =
      let s' = bump s in
      evict_over capacity (
        insert_entry key
          (record { id = s'.next; used = s'.next; lookup = s'.next; expires_at = none }) s')

  -- the `match` of `get_with` on the result of `fresh_entry`
  unfoldable pub share_or_start : ℕ → K → Option ℕ → State K → ℕ × Bool × State K
  unfolding bump
  share_or_start capacity key (some shared) s = (shared, false, s)
  share_or_start capacity key none s = ((bump s).next, true, start_lookup capacity key s)

  -- `get_with` up to the await: the shared lookup, and whether a new task was started
  unfoldable pub get_with : ℕ → K → ℕ → State K → ℕ × Bool × State K
  unfolding share_or_start
  get_with capacity key now s =
      let (fresh, s') = fresh_entry key now s in share_or_start capacity key fresh s'

  -- the `get_mut` branch of `complete`
  unfoldable pub set_expiry : K → ℕ → Option ℕ → State K → State K
  set_expiry key id at s = elim (get dec key s.entries) [
    | none ↦ s
    | some entry ↦
        if entry.id == id
        then record s { entries = insert dec key (record entry { expires_at = at }) s.entries }
        else s
  ]

  -- `complete` at the instant `now`; `ttl` is the time to live of the outcome
  unfoldable pub complete : ℕ → K → ℕ → ℕ → ℕ → State K → State K
  unfolding set_expiry remove_lookup
  complete latest key id ttl now s =
      if ttl == 0 then remove_lookup key id s else set_expiry key id (checked_add latest now ttl) s
