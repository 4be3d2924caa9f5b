-- ===== src/Cache/System.antt =====
-- crates/server/src/application/cache.rs: `TtlCache` with its lookup tasks and the clock. A schedule
-- of calls, ends of tasks, panics and passing time drives it; the lock makes each event atomic.
-- An await of a `SharedLookup` reads the outcome of the task of that number.
pub mod Origin
pub mod Sound
pub mod Freshness
pub mod Owner
use psstore.Prelude.{
  ℕ, ℕ_discrete, ◌+◌, Bool, true, false, Option, none, some, List, [], ◌∷◌, Result, ok, err,
  if◌then◌else◌,
}
use psstore.Prelude.Maps.{get, remove, insert}
use psstore.Cache.{State, empty, remove_lookup, get_with, complete}

-- How a task ended: with an outcome, at an instant, or without one, by a panic.
pub data Finish (V E : Type 0) : Type 0 where
  done : Result V E → ℕ → Finish V E
  panicked : Finish V E

pub record System (K V E : Type 0) : Type 0 where
  pub state : State K
  pub running : List (ℕ × K)
  pub finished : List (ℕ × Finish V E)
  pub now : ℕ

pub data Event (K V E : Type 0) : Type 0 where
  call : K → Event K V E
  finish : ℕ → Result V E → Event K V E
  panic : ℕ → Event K V E
  advance : ℕ → Event K V E

abbrev pub fresh_system : {K V E : Type 0} → System K V E
fresh_system = record { state = empty; running = []; finished = []; now = 0 }

-- What every caller of a task reads; a panic reads as the failure of `LookupPanicked`.
unfoldable pub outcome_of : {V E : Type 0} → E → Finish V E → Result V E
outcome_of lookup_panicked (done r t) = r
outcome_of lookup_panicked panicked = err lookup_panicked

module _ {K V E : Type 0} (dec : Discrete K) (capacity latest : ℕ) (ttl : Result V E → ℕ) where
  -- the body of the task of a new lookup starts with its number and its key
  unfoldable pub call_key : K → System K V E → System K V E
  call_key key s =
      let (shared, started, state) = get_with dec capacity key s.now s.state in
      record s {
        state = state;
        running = if started then insert ℕ_discrete shared key s.running else s.running;
      }

  -- the task records its outcome and disarms its guard
  unfoldable pub finish_task : ℕ → Result V E → System K V E → System K V E
  finish_task id r s = elim (get ℕ_discrete id s.running) [
    | none ↦ s
    | some key ↦ record s {
      state = complete dec latest key id (ttl r) s.now s.state;
      running = remove ℕ_discrete id s.running;
      finished = insert ℕ_discrete id (done r s.now) s.finished;
    }
  ]

  -- the armed guard drops with the task's future
  unfoldable pub panic_task : ℕ → System K V E → System K V E
  panic_task id s = elim (get ℕ_discrete id s.running) [
    | none ↦ s
    | some key ↦ record s {
      state = remove_lookup dec key id s.state;
      running = remove ℕ_discrete id s.running;
      finished = insert ℕ_discrete id panicked s.finished;
    }
  ]

  unfoldable pub step : Event K V E → System K V E → System K V E
  unfolding call_key finish_task panic_task
  step (call key) s = call_key key s
  step (finish id r) s = finish_task id r s
  step (panic id) s = panic_task id s
  step (advance d) s = record s { now = s.now + d }

  unfoldable pub run : List (Event K V E) → System K V E → System K V E
  unfolding step
  run [] s = s
  run (e ∷ es) s = run es (step e s)
