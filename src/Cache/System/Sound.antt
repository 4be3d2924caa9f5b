-- ===== src/Cache/System/Sound.antt =====
-- Every cached entry belongs to a task that runs, or to one that ended with an outcome whose time
-- to live is not zero; its expiry counts from the end of the task.
use psstore.Prelude.{
  ℕ, ℕ_discrete, ◌+◌, ◌^◌, ◌≤◌, ◌<◌, ◌≡◌, refl, ap, ◌∙◌, ◌≢◌, ◌⊎◌, inl, inr, Bool, true, Option,
  none, some, List, [], ◌∷◌, Result, arith, Option-cases, length, if◌then◌else◌,
}
use psstore.Prelude.Maps.{get, remove, insert, get-remove, get-insert}
use psstore.Cache.{
  Entry, State, bump, checked_add, fresh_entry, remove_lookup, start_lookup, share_or_start,
  get_with, complete,
}
use psstore.Cache.Invariant.{IsValid, HasRoom, next-bump, empty-IsValid}
use psstore.Cache.Preserves.{
  get_with-IsValid, complete-IsValid, remove_lookup-IsValid, next-fresh_entry-none,
  next-fresh_entry, next-complete, next-remove_lookup,
}
use psstore.Cache.System.{
  Finish, done, panicked, System, Event, call, finish, panic, advance, fresh_system, call_key,
  finish_task, panic_task, step, run,
}
use psstore.Cache.System.Origin.{
  Kept, IsPending, next-start_lookup, get-start_lookup, get-fresh_entry, get-remove_lookup,
  get-complete,
}

-- What a call leaves: `shared`, `started` and the new state, from the old one.
module _ {K : Type 0} (dec : Discrete K) where
  pub record CallFacts (key : K) (s : State K) (r : ℕ × Bool × State K) : Type 0 where
    pub grows : s.next ≤ r.2.next
    pub slow : r.2.next ≤ s.next + 1
    pub new_task : r.1 ≡ true → r.0 ≡ s.next + 1
    pub in_use : r.1 ≡ true → r.0 ≤ r.2.next
    pub origin :
        (k : K) (e : Entry)
        → get dec k r.2.entries ≡ some e
        → Kept dec k e s ⊎ ((k ≡ key) × (r.1 ≡ true) × IsPending dec r.0 e)

  share_or_start-CallFacts :
      (capacity : ℕ) (key : K) (now : ℕ) (s : State K) (fresh : Option ℕ) (s' : State K)
      → HasRoom dec s
      → (fresh_entry dec key now s).0 ≡ fresh
      → (fresh_entry dec key now s).1 ≡ s'
      → CallFacts key s (share_or_start dec capacity key fresh s')
  unfolding share_or_start
  share_or_start-CallFacts capacity key now s (some shared) s' room e0 e1 =
      let next_eq : (fresh_entry dec key now s).1.next ≡ s'.next =
        ap (λ (t : State K). t.next) e1 in
      record {
        grows = omega (arith, next-fresh_entry dec key now s room);
        slow = omega (arith, next-fresh_entry dec key now s room);
        new_task = λ h. cc;
        in_use = λ h. cc;
        origin = λ k f h. inl (get-fresh_entry dec key k now f s (rw e1 h));
      }
  share_or_start-CallFacts capacity key now s none s' room e0 e1 =
      let next_eq : (fresh_entry dec key now s).1.next ≡ s'.next =
        ap (λ (t : State K). t.next) e1 in
      let same : (fresh_entry dec key now s).1.next ≡ s.next =
        next-fresh_entry-none dec key now s e0 in
      let bumped : (bump s').next ≡ s'.next + 1 = next-bump dec s' (omega arith) in
      let after : (start_lookup dec capacity key s').next ≡ (bump s').next =
        next-start_lookup dec capacity key s' in
      record {
        grows = omega arith;
        slow = omega arith;
        new_task = λ h. omega arith;
        in_use = λ h. omega arith;
        origin = λ k f h. elim (get-start_lookup dec capacity key k f s' h) [
          | inl (g, stored, id_eq, lookup_eq, expiry_eq) ↦
              let q : Kept dec k g s = get-fresh_entry dec key k now g s (rw e1 stored) in
              inl (q.0, q.1, id_eq ∙ q.2, lookup_eq ∙ q.3, expiry_eq ∙ q.4)
          | inr (same_key, pending) ↦ inr (same_key, refl, pending)
        ];
      }

  pub get_with-CallFacts :
      (capacity : ℕ) (key : K) (now : ℕ) (s : State K)
      → HasRoom dec s
      → CallFacts key s (get_with dec capacity key now s)
  unfolding get_with
  get_with-CallFacts capacity key now s room =
      share_or_start-CallFacts capacity key now s _ _ room refl refl

module _ {K V E : Type 0} (dec : Discrete K) (capacity latest : ℕ) (ttl : Result V E → ℕ) where
  -- the task of an entry, and what its end says of the entry
  abbrev pub IsRunning : K → Entry → System K V E → Type 0
  IsRunning k e s = (get ℕ_discrete e.id s.running ≡ some k) × (e.expires_at ≡ none)

  abbrev pub IsDone : Entry → System K V E → Type 0
  IsDone e s =
      (r : Result V E) × (t : ℕ) × (get ℕ_discrete e.id s.finished ≡ some (done r t))
      × (get ℕ_discrete e.id s.running ≡ none)
      × (t ≤ s.now)
      × (ttl r ≢ 0)
      × (e.expires_at ≡ checked_add latest t (ttl r))

  pub record IsSound (s : System K V E) : Type 0 where
    pub valid : IsValid dec s.state
    pub running_bound : (id : ℕ) (k : K) → get ℕ_discrete id s.running ≡ some k → id ≤ s.state.next
    pub lookup_is_id : (k : K) (e : Entry) → get dec k s.state.entries ≡ some e → e.lookup ≡ e.id
    pub backed :
        (k : K) (e : Entry) → get dec k s.state.entries ≡ some e → IsRunning k e s ⊎ IsDone e s

  -- a task that starts leaves the other tasks as they are
  started_running :
      (key : K) (started : Bool) (shared : ℕ) (running : List (ℕ × K)) (id : ℕ)
      → (started ≡ true → shared ≢ id)
      → get ℕ_discrete id (if started then insert ℕ_discrete shared key running else running)
        ≡ get ℕ_discrete id running
  started_running key started shared running id fresh =
      ground (arith, get-insert ℕ_discrete shared id key running)

  started-IsSound :
      (key : K) (s : System K V E) (shared : ℕ) (started : Bool) (state : State K)
      → IsSound s
      → IsValid dec state
      → CallFacts dec key s.state (shared, started, state)
      → IsSound (record s {
        state = state;
        running = if started then insert ℕ_discrete shared key s.running else s.running;
      })
  started-IsSound key s shared started state h v f =
      let running : List (ℕ × K) =
        if started then insert ℕ_discrete shared key s.running else s.running in
      record {
        valid = v;
        running_bound = λ id k p. ground (
          arith,
          get-insert ℕ_discrete shared id key s.running,
          f.in_use,
          f.grows,
          h.running_bound id k,
        );
        lookup_is_id = λ k e p. elim (f.origin k e p) [
          | inl (g, stored, id_eq, lookup_eq, expiry_eq) ↦ omega (arith, h.lookup_is_id k g stored)
          | inr (same_key, is_new, pending) ↦ omega arith
        ];
        backed = λ k e p. elim (f.origin k e p) [
          | inl (g, stored, id_eq, lookup_eq, expiry_eq) ↦
              let left : get ℕ_discrete e.id running ≡ get ℕ_discrete e.id s.running =
                started_running key started shared s.running e.id (λ (b : started ≡ true).
                  omega (arith, f.new_task b, h.valid.id_bound k g stored)) in
              elim (h.backed k g stored) [
                | inl r ↦ inl (ground arith, ground arith)
                | inr d ↦ inr (d.0, d.1, ground arith, ground arith, d.4, d.5, expiry_eq ∙ d.6)
              ]
          | inr (same_key, is_new, pending) ↦
              inl (ground (arith, get-insert ℕ_discrete shared e.id key s.running), pending.2)
        ];
      }

  pub call_key-IsSound :
      (key : K) (s : System K V E)
      → HasRoom dec s.state
      → IsSound s
      → IsSound (call_key dec capacity latest ttl key s)
  unfolding call_key
  call_key-IsSound key s room h =
      started-IsSound key s _ _ _ h (get_with-IsValid dec capacity key s.now s.state room h.valid)
        (get_with-CallFacts dec capacity key s.now s.state room)

  -- an entry of another task than the one that ends is backed as before
  other_backed :
      (k : K) (e : Entry) (id : ℕ) (f : Finish V E) (s s' : System K V E)
      → e.id ≢ id
      → s'.running ≡ remove ℕ_discrete id s.running
      → s'.finished ≡ insert ℕ_discrete id f s.finished
      → s'.now ≡ s.now
      → IsRunning k e s ⊎ IsDone e s
      → IsRunning k e s' ⊎ IsDone e s'
  other_backed k e id f s s' other er ef en b =
      let left : get ℕ_discrete e.id s'.running ≡ get ℕ_discrete e.id s.running =
        ground (arith, get-remove ℕ_discrete id e.id s.running) in
      let same : get ℕ_discrete e.id s'.finished ≡ get ℕ_discrete e.id s.finished =
        ground (arith, get-insert ℕ_discrete id e.id f s.finished) in
      elim b [
        | inl r ↦ inl (left ∙ r.0, r.1)
        | inr d ↦ inr (d.0, d.1, same ∙ d.2, left ∙ d.3, omega arith, d.5, d.6)
      ]

  -- the entry of a running task stands at the task's key
  key_of_task :
      (k key : K) (e : Entry) (s : System K V E)
      → IsSound s
      → get ℕ_discrete e.id s.running ≡ some key
      → get dec k s.state.entries ≡ some e
      → k ≡ key
  key_of_task k key e s h running stored = ground (arith, h.backed k e stored)

  finished-IsSound :
      (key : K) (id : ℕ) (r : Result V E) (s : System K V E)
      → IsSound s
      → get ℕ_discrete id s.running ≡ some key
      → IsSound (record s {
        state = complete dec latest key id (ttl r) s.now s.state;
        running = remove ℕ_discrete id s.running;
        finished = insert ℕ_discrete id (done r s.now) s.finished;
      })
  finished-IsSound key id r s h task =
      let s' : System K V E = record s {
        state = complete dec latest key id (ttl r) s.now s.state;
        running = remove ℕ_discrete id s.running;
        finished = insert ℕ_discrete id (done r s.now) s.finished;
      } in
      record {
        valid = complete-IsValid dec latest key id (ttl r) s.now s.state h.valid;
        running_bound = λ j k p. ground (
          arith,
          get-remove ℕ_discrete id j s.running,
          next-complete dec latest key id (ttl r) s.now s.state,
          h.running_bound j k,
        );
        lookup_is_id = λ k e p. elim (get-complete dec latest key k id (ttl r) s.now e s.state p) [
          | inl (stored, not_mine) ↦ h.lookup_is_id k e stored
          | inr (same, positive, (f, stored, f_id, e_id, lookup_eq, expiry)) ↦
              omega (arith, h.lookup_is_id k f stored)
        ];
        backed = λ k e p. elim (get-complete dec latest key k id (ttl r) s.now e s.state p) [
          | inl (stored, not_mine) ↦
              other_backed k e id (done r s.now) s s'
                (λ (q : e.id ≡ id). not_mine (key_of_task k key e s h (ground arith) stored) q) refl
                refl refl (h.backed k e stored)
          | inr (same, positive, (f, stored, f_id, e_id, lookup_eq, expiry)) ↦ inr (
            r,
            s.now,
            ground (arith, get-insert ℕ_discrete id e.id (done r s.now) s.finished),
            ground (arith, get-remove ℕ_discrete id e.id s.running),
            omega arith,
            positive,
            expiry,
          )
        ];
      }

  panicked-IsSound :
      (key : K) (id : ℕ) (s : System K V E)
      → IsSound s
      → get ℕ_discrete id s.running ≡ some key
      → IsSound (record s {
        state = remove_lookup dec key id s.state;
        running = remove ℕ_discrete id s.running;
        finished = insert ℕ_discrete id panicked s.finished;
      })
  panicked-IsSound key id s h task =
      let s' : System K V E = record s {
        state = remove_lookup dec key id s.state;
        running = remove ℕ_discrete id s.running;
        finished = insert ℕ_discrete id panicked s.finished;
      } in
      record {
        valid = remove_lookup-IsValid dec key id s.state h.valid;
        running_bound = λ j k p. ground (
          arith,
          get-remove ℕ_discrete id j s.running,
          next-remove_lookup dec key id s.state,
          h.running_bound j k,
        );
        lookup_is_id = λ k e p. h.lookup_is_id k e (get-remove_lookup dec key k id e s.state p).0;
        backed = λ k e p.
            let (stored, not_mine) = get-remove_lookup dec key k id e s.state p in
            other_backed k e id panicked s s'
              (λ (q : e.id ≡ id). not_mine (key_of_task k key e s h (ground arith) stored) q) refl
              refl refl (h.backed k e stored);
      }

  finish_task-IsSound :
      (id : ℕ) (r : Result V E) (s : System K V E)
      → IsSound s
      → IsSound (finish_task dec capacity latest ttl id r s)
  unfolding finish_task
  finish_task-IsSound id r s h = elim (Option-cases (get ℕ_discrete id s.running)) [
    | inl absent ↦ rw (absent, finish_task) h
    | inr (key, task) ↦ rw (task, finish_task) (finished-IsSound key id r s h task)
  ]

  panic_task-IsSound :
      (id : ℕ) (s : System K V E) → IsSound s → IsSound (panic_task dec capacity latest ttl id s)
  unfolding panic_task
  panic_task-IsSound id s h = elim (Option-cases (get ℕ_discrete id s.running)) [
    | inl absent ↦ rw (absent, panic_task) h
    | inr (key, task) ↦ rw (task, panic_task) (panicked-IsSound key id s h task)
  ]

  advance-IsSound : (d : ℕ) (s : System K V E) → IsSound s → IsSound (record s { now = s.now + d })
  advance-IsSound d s h = record {
    valid = h.valid;
    running_bound = h.running_bound;
    lookup_is_id = h.lookup_is_id;
    backed = λ k e p. elim (h.backed k e p) [
      | inl r ↦ inl r
      | inr b ↦ inr (b.0, b.1, b.2, b.3, omega arith, b.5, b.6)
    ];
  }

  pub step-IsSound :
      (e : Event K V E) (s : System K V E)
      → HasRoom dec s.state
      → IsSound s
      → IsSound (step dec capacity latest ttl e s)
  unfolding step
  step-IsSound (call key) s room h = call_key-IsSound key s room h
  step-IsSound (finish id r) s room h = finish_task-IsSound id r s h
  step-IsSound (panic id) s room h = panic_task-IsSound id s h
  step-IsSound (advance d) s room h = advance-IsSound d s h

  -- an event takes one number at most
  pub next-step :
      (e : Event K V E) (s : System K V E)
      → HasRoom dec s.state
      → (step dec capacity latest ttl e s).state.next ≤ s.state.next + 1
  unfolding step
  next-step (call key) s room = (get_with-CallFacts dec capacity key s.now s.state room).slow
  next-step (finish id r) s room = elim (Option-cases (get ℕ_discrete id s.running)) [
    | inl absent ↦ rw (absent, finish_task) (omega arith)
    | inr (key, task) ↦
        rw (task, finish_task)
          (omega (arith, next-complete dec latest key id (ttl r) s.now s.state))
  ]
  next-step (panic id) s room = elim (Option-cases (get ℕ_discrete id s.running)) [
    | inl absent ↦ rw (absent, panic_task) (omega arith)
    | inr (key, task) ↦ rw (task, panic_task) (omega (arith, next-remove_lookup dec key id s.state))
  ]
  next-step (advance d) s room = omega arith

  pub run-IsSound :
      (es : List (Event K V E)) (s : System K V E)
      → s.state.next + length es < 2 ^ 64
      → IsSound s
      → IsSound (run dec capacity latest ttl es s)
  unfolding run
  run-IsSound [] s room h = h
  run-IsSound (e ∷ es) s room h =
      run-IsSound es (step dec capacity latest ttl e s) (omega (arith, next-step e s (omega arith)))
        (step-IsSound e s (omega arith) h)

  pub fresh-IsSound : IsSound fresh_system
  unfolding get
  fresh-IsSound = record {
    valid = empty-IsValid dec;
    running_bound = λ id k p. cc;
    lookup_is_id = λ k e p. cc;
    backed = λ k e p. absurd (ground arith);
  }

  -- From an empty cache, after any schedule of fewer than 2 ^ 64 calls, ends, panics and advances of
  -- the clock, the state is sound: it is valid, and each entry belongs to a task that runs under its
  -- key and has no expiry, or to one that ended with an outcome whose time to live is not zero and
  -- whose expiry is that time after its end.
  pub reachable-IsSound :
      (es : List (Event K V E))
      → length es < 2 ^ 64
      → IsSound (run dec capacity latest ttl es fresh_system)
  reachable-IsSound es room = run-IsSound es fresh_system (omega arith) fresh-IsSound
