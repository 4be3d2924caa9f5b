-- ===== src/InFlight.antt =====
-- crates/server/src/application/in_flight.rs: one shared computation for a key while it runs.
-- A `SharedRun` is the number of its task; `running` holds the tasks with the key of their guard.
-- The lock makes a call and the drop of a guard atomic, so a schedule is a list of these.
pub mod Exact
use psstore.Prelude.{
  ℕ, ℕ_discrete, ◌+◌, ◌%◌, ◌^◌, Bool, true, false, Option, none, some, List, [], ◌∷◌, ◌==◌,
  if◌then◌else◌,
}
use psstore.Prelude.Maps.{get, remove, insert}

pub record Runs (K : Type 0) : Type 0 where
  pub by_key : List (K × (ℕ × ℕ))
  pub next : ℕ

pub record Flights (K : Type 0) : Type 0 where
  pub runs : Runs K
  pub running : List (ℕ × K)

-- a caller arrives, or a task ends and drops its guard, by a result or by a panic
pub data Event (K : Type 0) : Type 0 where
  call : K → Event K
  end : ℕ → Event K

abbrev pub no_flights : {K : Type 0} → Flights K
no_flights = record { runs = record { by_key = []; next = 0 }; running = [] }

module _ {K : Type 0} (dec : Discrete K) where
  -- `run` up to the await: the shared computation, and the tasks after it
  unfoldable pub run_key : K → Flights K → ℕ × Flights K
  run_key key s = elim (get dec key s.runs.by_key) [
    | some (id, shared) ↦ (shared, s)
    | none ↦
        let id = (s.runs.next + 1) % 2 ^ 64 in
        (
          id,
          record {
            runs = record { by_key = insert dec key (id, id) s.runs.by_key; next = id };
            running = insert ℕ_discrete id key s.running;
          },
        )
  ]

  -- the free function `remove`
  unfoldable pub remove_run : K → ℕ → Runs K → Runs K
  remove_run key id runs = elim (get dec key runs.by_key) [
    | none ↦ runs
    | some (entry, _) ↦
        if entry == id then record runs { by_key = remove dec key runs.by_key } else runs
  ]

  -- the task `id` ends: its guard drops
  unfoldable pub end_task : ℕ → Flights K → Flights K
  unfolding remove_run
  end_task id s = elim (get ℕ_discrete id s.running) [
    | none ↦ s
    | some key ↦ record {
      runs = remove_run key id s.runs;
      running = remove ℕ_discrete id s.running;
    }
  ]

  unfoldable pub step : Event K → Flights K → Flights K
  unfolding run_key end_task
  step (call key) s = (run_key key s).1
  step (end id) s = end_task id s

  unfoldable pub steps : List (Event K) → Flights K → Flights K
  unfolding step
  steps [] s = s
  steps (e ∷ es) s = steps es (step e s)
