-- ===== src/Examples/Calls.antt =====
-- The cache of cache.rs and the shared computations of in_flight.rs at concrete schedules.
use psstore.Prelude.{
  ℕ, ℕ_discrete, ◌+◌, ◌^◌, ◌≤◌, ◌<◌, ◌≡◌, ◌↔◌, refl, Bool, true, false, Option, none, some, List,
  [], ◌∷◌, arith, min, length, Result, ok, err,
}
use psstore.Prelude.Maps.{get}
use psstore.Cache.{
  Entry, State, empty, start_lookup, evict_over, get_with, fresh_entry, share_or_start, touch,
  expired, complete,
}
use psstore.Cache.Invariant.{IsValid, empty-IsValid}
use psstore.Cache.Preserves.{start_lookup-IsValid}
use psstore.Cache.Eviction.{length-evict_over, evict_over-lru}
use psstore.Cache.System.{
  System, call, finish, panic, advance, fresh_system, step, run, call_key, finish_task,
}
use psstore.Cache.System.Sound.{IsSound, reachable-IsSound}
use psstore.Cache.System.Freshness.{calls_share, IsShareable, shared_is_fresh}
use psstore.InFlight as InFlight
use psstore.InFlight.{Flights, no_flights, steps, run_key}
use psstore.InFlight.Exact.{IsExact, reachable-IsExact, one_run_per_key}

-- ten for every outcome
abbrev ten : Result ℕ ℕ → ℕ
ten r = 10

-- two calls share the first task, which ends; the second key's task panics
abbrev schedule : List (psstore.Cache.System.Event ℕ ℕ ℕ)
schedule = call 7 ∷ call 7 ∷ call 8 ∷ finish 1 (ok 5) ∷ panic 2 ∷ advance 3 ∷ []

abbrev after_schedule : System ℕ ℕ ℕ
after_schedule = run ℕ_discrete 4 1000 ten schedule fresh_system

reachable-IsSound_example : IsSound ℕ_discrete 4 1000 ten after_schedule
reachable-IsSound_example = reachable-IsSound ℕ_discrete 4 1000 ten schedule (omega arith)

shared_is_fresh_example : IsShareable ℕ_discrete 4 1000 ten 1 7 after_schedule
unfolding run get_with fresh_entry share_or_start get start_lookup evict_over
    psstore.Cache.insert_entry psstore.Cache.recency_insert psstore.Cache.remove_key
    psstore.Prelude.Maps.insert ℕ_discrete touch complete psstore.Cache.recency_remove
    psstore.Cache.checked_add
shared_is_fresh_example =
    shared_is_fresh ℕ_discrete 4 1000 ten 7 1 after_schedule
      ((get_with ℕ_discrete 4 7 after_schedule.now after_schedule.state).2)
      (reachable-IsSound ℕ_discrete 4 1000 ten schedule (omega arith)) refl

calls_share_example :
    (u : State ℕ) × (get_with ℕ_discrete 4 7 100 (get_with ℕ_discrete 4 7 3 empty).2
      ≡ (1, false, u))
unfolding get_with fresh_entry share_or_start get
calls_share_example =
    calls_share ℕ_discrete 4 7 3 100 1 empty ((get_with ℕ_discrete 4 7 3 empty).2) (omega arith)
      (omega arith) (empty-IsValid ℕ_discrete) refl

-- the keys 1 and 2, in this order
abbrev one_key : State ℕ
one_key = start_lookup ℕ_discrete 4 1 empty

abbrev two_keys : State ℕ
two_keys = start_lookup ℕ_discrete 4 2 one_key

one_key-IsValid : IsValid ℕ_discrete one_key
one_key-IsValid = start_lookup-IsValid ℕ_discrete 4 1 empty (omega arith) (empty-IsValid ℕ_discrete)

two_keys-IsValid : IsValid ℕ_discrete two_keys
unfolding start_lookup evict_over psstore.Cache.insert_entry psstore.Cache.remove_key get
two_keys-IsValid = start_lookup-IsValid ℕ_discrete 4 2 one_key (omega arith) one_key-IsValid

length-evict_over_example :
    length (evict_over ℕ_discrete 1 two_keys).entries ≡ min 1 (length two_keys.entries)
length-evict_over_example = length-evict_over ℕ_discrete 1 two_keys two_keys-IsValid

abbrev pending_entry : ℕ → Entry
pending_entry n = record { id = n; used = n; lookup = n; expires_at = none }

evict_over-lru_example : 1 < 2
unfolding start_lookup evict_over get psstore.Cache.insert_entry psstore.Cache.recency_insert
    psstore.Cache.remove_key psstore.Prelude.Maps.insert ℕ_discrete
evict_over-lru_example =
    evict_over-lru ℕ_discrete 1 two_keys 1 2 (pending_entry 1) (pending_entry 2) two_keys-IsValid
      refl refl refl

abbrev flight_schedule : List (InFlight.Event ℕ)
flight_schedule = InFlight.call 7 ∷ InFlight.call 8 ∷ InFlight.call 7 ∷ InFlight.end 2 ∷ []

reachable-IsExact_example : IsExact ℕ_discrete (steps ℕ_discrete flight_schedule no_flights)
reachable-IsExact_example = reachable-IsExact ℕ_discrete flight_schedule (omega arith)

one_run_per_key_example : ◌≡◌ {A = ℕ} 1 1
unfolding steps get psstore.Prelude.Maps.insert ℕ_discrete
one_run_per_key_example = one_run_per_key ℕ_discrete flight_schedule 7 1 1 (omega arith) refl refl
