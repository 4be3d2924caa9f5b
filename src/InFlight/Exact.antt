-- ===== src/InFlight/Exact.antt =====
-- The entries are exactly the computations that run, each under its own key.
use psstore.Prelude.{
  ℕ, ℕ_discrete, ◌+◌, ◌^◌, ◌≤◌, ◌<◌, ◌≡◌, inl, inr, some, List, [], ◌∷◌, arith, Option-cases,
  length,
}
use psstore.Prelude.Maps.{get, remove, get-remove, get-insert}
use psstore.InFlight.{
  Runs, Flights, Event, call, end, no_flights, run_key, remove_run, end_task, step, steps,
}

module _ {K : Type 0} (dec : Discrete K) where
  pub record IsExact (s : Flights K) : Type 0 where
    pub bound : (id : ℕ) (k : K) → get ℕ_discrete id s.running ≡ some k → id ≤ s.runs.next
    pub entry_runs :
        (k : K) (id shared : ℕ)
        → get dec k s.runs.by_key ≡ some (id, shared)
        → (shared ≡ id) × (get ℕ_discrete id s.running ≡ some k)
    pub run_has_entry :
        (k : K) (id : ℕ)
        → get ℕ_discrete id s.running ≡ some k
        → get dec k s.runs.by_key ≡ some (id, id)

  run_key-IsExact :
      (key : K) (s : Flights K)
      → s.runs.next + 1 < 2 ^ 64
      → IsExact s
      → IsExact (run_key dec key s).1
  unfolding run_key
  run_key-IsExact key s room h = elim (Option-cases (get dec key s.runs.by_key)) [
    | inr (e, found) ↦ rw (found, run_key) h
    | inl absent ↦
        rw (absent, run_key)
          (let n = s.runs.next in
            record {
              bound = λ id k p.
                  ground (arith, get-insert ℕ_discrete (n + 1) id key s.running, h.bound id k);
              entry_runs = λ k id shared p. ground (
                arith,
                get-insert dec key k (n + 1, n + 1) s.runs.by_key,
                get-insert ℕ_discrete (n + 1) id key s.running,
                h.entry_runs k id shared,
                h.bound id k,
              );
              run_has_entry = λ k id p. ground (
                arith,
                get-insert dec key k (n + 1, n + 1) s.runs.by_key,
                get-insert ℕ_discrete (n + 1) id key s.running,
                h.run_has_entry k id,
              );
            })
  ]

  own_run :
      (key : K) (id : ℕ) (runs : Runs K)
      → get dec key runs.by_key ≡ some (id, id)
      → remove_run dec key id runs ≡ record runs { by_key = remove dec key runs.by_key }
  unfolding remove_run
  own_run key id runs entry = ground arith

  -- the guard removes the entry of its own run, and no other
  end_task-IsExact : (id : ℕ) (s : Flights K) → IsExact s → IsExact (end_task dec id s)
  unfolding end_task
  end_task-IsExact id s h = elim (Option-cases (get ℕ_discrete id s.running)) [
    | inl absent ↦ rw (absent, end_task) h
    | inr (key, task) ↦
        let entry : get dec key s.runs.by_key ≡ some (id, id) = h.run_has_entry key id task in
        let removed : remove_run dec key id s.runs
            ≡ record s.runs { by_key = remove dec key s.runs.by_key } =
          own_run key id s.runs entry in
        rw (task, end_task, removed)
          (record {
            bound = λ j k p. ground (arith, get-remove ℕ_discrete id j s.running, h.bound j k);
            entry_runs = λ k j shared p. ground (
              arith,
              get-remove dec key k s.runs.by_key,
              get-remove ℕ_discrete id j s.running,
              h.entry_runs k j shared,
            );
            run_has_entry = λ k j p. ground (
              arith,
              get-remove dec key k s.runs.by_key,
              get-remove ℕ_discrete id j s.running,
              h.run_has_entry k j,
            );
          })
  ]

  next-step :
      (e : Event K) (s : Flights K)
      → s.runs.next + 1 < 2 ^ 64
      → (step dec e s).runs.next ≤ s.runs.next + 1
  unfolding step
  next-step (call key) s room = ground arith
  next-step (end id) s room = ground arith

  step-IsExact :
      (e : Event K) (s : Flights K) → s.runs.next + 1 < 2 ^ 64 → IsExact s → IsExact (step dec e s)
  unfolding step
  step-IsExact (call key) s room h = run_key-IsExact key s room h
  step-IsExact (end id) s room h = end_task-IsExact id s h

  steps-IsExact :
      (es : List (Event K)) (s : Flights K)
      → s.runs.next + length es < 2 ^ 64
      → IsExact s
      → IsExact (steps dec es s)
  unfolding steps
  steps-IsExact [] s room h = h
  steps-IsExact (e ∷ es) s room h =
      steps-IsExact es (step dec e s) (omega (arith, next-step e s (omega arith)))
        (step-IsExact e s (omega arith) h)

  no_flights-IsExact : IsExact no_flights
  unfolding get
  no_flights-IsExact = record {
    bound = λ id k p. cc;
    entry_runs = λ k id shared p. absurd (ground arith);
    run_has_entry = λ k id p. cc;
  }

  -- After any schedule of fewer than 2 ^ 64 events from an empty state, the entries are exactly the
  -- running tasks, each under its key.
  pub reachable-IsExact :
      (es : List (Event K)) → length es < 2 ^ 64 → IsExact (steps dec es no_flights)
  reachable-IsExact es room = steps-IsExact es no_flights (omega arith) no_flights-IsExact

  -- After any schedule of fewer than 2 ^ 64 events from an empty state, two running tasks with one
  -- key are one task.
  pub one_run_per_key :
      (es : List (Event K)) (key : K) (id other : ℕ)
      → length es < 2 ^ 64
      → get ℕ_discrete id (steps dec es no_flights).running ≡ some key
      → get ℕ_discrete other (steps dec es no_flights).running ≡ some key
      → id ≡ other
  one_run_per_key es key id other room p q =
      let h : IsExact (steps dec es no_flights) = reachable-IsExact es room in
      cc (h.run_has_entry key id p, h.run_has_entry key other q)

  -- Where the entries are exactly the running tasks and the counter has room, a caller gets a task
  -- that runs for its key, and the one that ran before, with no change, if there was one.
  pub run_key_joins :
      (key : K) (s : Flights K)
      → s.runs.next + 1 < 2 ^ 64
      → IsExact s
      → (get ℕ_discrete (run_key dec key s).0 (run_key dec key s).1.running ≡ some key)
        × ((id : ℕ) → get ℕ_discrete id s.running ≡ some key → run_key dec key s ≡ (id, s))
  unfolding run_key
  run_key_joins key s room h = elim (Option-cases (get dec key s.runs.by_key)) [
    | inr ((id, shared), found) ↦
        let (same, runs) = h.entry_runs key id shared found in
        (ground arith, λ j p. ground (arith, h.run_has_entry key j p))
    | inl absent ↦ (
      ground (arith, get-insert ℕ_discrete (s.runs.next + 1) (s.runs.next + 1) key s.running),
      λ j p. absurd (cc (absent, h.run_has_entry key j p)),
    )
  ]
