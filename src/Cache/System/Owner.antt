-- ===== src/Cache/System/Owner.antt =====
-- A shared outcome is one of the key that asks for it.
use psstore.Prelude.{
  ℕ, ℕ_discrete, ◌+◌, ◌^◌, ◌<◌, ◌≡◌, ap, sym, ◌∙◌, ◌≢◌, ◌⊎◌, inl, inr, Bool, false, none, some,
  List, [], ◌∷◌, Result, arith, Option-cases, length, if◌then◌else◌,
}
use mathlib.Core.Path.{subst}
use psstore.Prelude.Maps.{get, remove, insert, get-remove, get-insert}
use psstore.Cache.{Entry, State, remove_lookup, get_with, complete}
use psstore.Cache.Invariant.{HasRoom}
use psstore.Cache.System.{
  Finish, done, panicked, System, Event, call, finish, panic, advance, fresh_system, call_key,
  finish_task, panic_task, step, run,
}
use psstore.Cache.System.Origin.{get-remove_lookup, get-complete}
use psstore.Cache.System.Sound.{
  CallFacts, get_with-CallFacts, IsSound, step-IsSound, next-step, fresh-IsSound, reachable-IsSound,
}
use psstore.Cache.System.Freshness.{get_with_cases}

module _ {K V E : Type 0} (dec : Discrete K) (capacity latest : ℕ) (ttl : Result V E → ℕ)
    (P : K → Result V E → Type 0) where
  -- every task of the schedule ends with an outcome of its key
  abbrev pub IsLegalStep : Event K V E → System K V E → Type 0
  IsLegalStep (finish id r) s = (key : K) → get ℕ_discrete id s.running ≡ some key → P key r
  IsLegalStep _ s = Unit

  abbrev pub IsLegal : List (Event K V E) → System K V E → Type 0
  IsLegal [] s = Unit
  IsLegal (e ∷ es) s = IsLegalStep e s × IsLegal es (step dec capacity latest ttl e s)

  -- the outcome of an entry whose task has ended is one of its key
  abbrev pub IsOwned : System K V E → Type 0
  IsOwned s =
      (k : K) (e : Entry) (r : Result V E) (t : ℕ)
      → get dec k s.state.entries ≡ some e
      → get ℕ_discrete e.id s.running ≡ none
      → get ℕ_discrete e.id s.finished ≡ some (done r t)
      → P k r

  call-IsOwned :
      (key : K) (s : System K V E) (shared : ℕ) (started : Bool) (state : State K)
      → CallFacts dec key s.state (shared, started, state)
      → IsOwned s
      → IsOwned (record s {
        state = state;
        running = if started then insert ℕ_discrete shared key s.running else s.running;
      })
  call-IsOwned key s shared started state f h k e r t stored idle ended =
      elim (f.origin k e stored) [
        | inl (g, old, id_eq, lookup_eq, expiry_eq) ↦
            h k g r t old
              (ground (arith, idle, id_eq, get-insert ℕ_discrete shared e.id key s.running))
              (rw id_eq at ended)
        | inr (same_key, is_new, pending) ↦ absurd (
            ground
              (arith, idle, is_new, pending.0, get-insert ℕ_discrete shared e.id key s.running))
      ]

  -- an entry that the end of a task leaves alone is of another task
  other_task :
      (key k : K) (id : ℕ) (e : Entry) (s : System K V E)
      → IsSound dec capacity latest ttl s
      → get ℕ_discrete id s.running ≡ some key
      → get dec k s.state.entries ≡ some e
      → ((k ≡ key) → e.id ≢ id)
      → e.id ≢ id
  other_task key k id e s h task stored not_mine q = elim (h.backed k e stored) [
    | inl r ↦ not_mine (ground (arith, r.0, task, q)) q
    | inr d ↦ absurd (ground (arith, d.3, task, q))
  ]

  kept-IsOwned :
      (k : K) (id : ℕ) (f : Finish V E) (e : Entry) (r : Result V E) (t : ℕ) (s : System K V E)
      → IsOwned s
      → get dec k s.state.entries ≡ some e
      → e.id ≢ id
      → get ℕ_discrete e.id (remove ℕ_discrete id s.running) ≡ none
      → get ℕ_discrete e.id (insert ℕ_discrete id f s.finished) ≡ some (done r t)
      → P k r
  kept-IsOwned k id f e r t s h stored other idle ended =
      h k e r t stored (ground (arith, idle, other, get-remove ℕ_discrete id e.id s.running))
        (ground (arith, ended, other, get-insert ℕ_discrete id e.id f s.finished))

  finished-IsOwned :
      (key : K) (id : ℕ) (r : Result V E) (s : System K V E)
      → IsSound dec capacity latest ttl s
      → get ℕ_discrete id s.running ≡ some key
      → P key r
      → IsOwned s
      → IsOwned (record s {
        state = complete dec latest key id (ttl r) s.now s.state;
        running = remove ℕ_discrete id s.running;
        finished = insert ℕ_discrete id (done r s.now) s.finished;
      })
  finished-IsOwned key id r s sound task legal h k e q t stored idle ended =
      elim (get-complete dec latest key k id (ttl r) s.now e s.state stored) [
        | inl (old, not_mine) ↦
            kept-IsOwned k id (done r s.now) e q t s h old
              (other_task key k id e s sound task old not_mine) idle ended
        | inr (same, positive, (f, old, f_id, e_id, lookup_eq, expiry)) ↦
            let same_outcome : r ≡ q =
              ground
                (arith, ended, e_id, get-insert ℕ_discrete id e.id (done r s.now) s.finished) in
            subst (λ k. P k q) (sym same) (subst (P key) same_outcome legal)
      ]

  panicked-IsOwned :
      (key : K) (id : ℕ) (s : System K V E)
      → IsSound dec capacity latest ttl s
      → get ℕ_discrete id s.running ≡ some key
      → IsOwned s
      → IsOwned (record s {
        state = remove_lookup dec key id s.state;
        running = remove ℕ_discrete id s.running;
        finished = insert ℕ_discrete id panicked s.finished;
      })
  panicked-IsOwned key id s sound task h k e q t stored idle ended =
      let (old, not_mine) = get-remove_lookup dec key k id e s.state stored in
      kept-IsOwned k id panicked e q t s h old (other_task key k id e s sound task old not_mine)
        idle ended

  step-IsOwned :
      (e : Event K V E) (s : System K V E)
      → HasRoom dec s.state
      → IsSound dec capacity latest ttl s
      → IsLegalStep e s
      → IsOwned s
      → IsOwned (step dec capacity latest ttl e s)
  unfolding step call_key finish_task panic_task
  step-IsOwned (call key) s room sound legal h =
      call-IsOwned key s _ _ _ (get_with-CallFacts dec capacity key s.now s.state room) h
  step-IsOwned (finish id r) s room sound legal h =
      elim (Option-cases (get ℕ_discrete id s.running)) [
        | inl absent ↦ rw (absent, finish_task) h
        | inr (key, task) ↦
            rw (task, finish_task) (finished-IsOwned key id r s sound task (legal key task) h)
      ]
  step-IsOwned (panic id) s room sound legal h = elim (Option-cases (get ℕ_discrete id s.running)) [
    | inl absent ↦ rw (absent, panic_task) h
    | inr (key, task) ↦ rw (task, panic_task) (panicked-IsOwned key id s sound task h)
  ]
  step-IsOwned (advance d) s room sound legal h = h

  run-IsOwned :
      (es : List (Event K V E)) (s : System K V E)
      → s.state.next + length es < 2 ^ 64
      → IsSound dec capacity latest ttl s
      → IsLegal es s
      → IsOwned s
      → IsOwned (run dec capacity latest ttl es s)
  unfolding run
  run-IsOwned [] s room sound legal h = h
  run-IsOwned (e ∷ es) s room sound legal h =
      run-IsOwned es (step dec capacity latest ttl e s)
        (omega (arith, next-step dec capacity latest ttl e s (omega arith)))
        (step-IsSound dec capacity latest ttl e s (omega arith) sound) legal.1
        (step-IsOwned e s (omega arith) sound legal.0 h)

  fresh-IsOwned : IsOwned fresh_system
  unfolding get
  fresh-IsOwned k e r t stored idle ended = absurd (ground (arith, stored))

  -- From an empty cache, after any schedule of fewer than 2 ^ 64 events in which every task ends with an
  -- outcome that holds of its key, a call that starts no task shares a task that runs for its own key,
  -- or an outcome that holds of its own key: never that of another key.
  pub shared_is_owned :
      (es : List (Event K V E))
      → length es < 2 ^ 64
      → IsLegal es fresh_system
      → (key : K) (shared : ℕ) (t : State K)
      → (let s = run dec capacity latest ttl es fresh_system in
          get_with dec capacity key s.now s.state ≡ (shared, false, t))
      → let s = run dec capacity latest ttl es fresh_system in
        (get ℕ_discrete shared s.running ≡ some key)
        ⊎ ((r : Result V E) × (ended : ℕ) × (get ℕ_discrete shared s.finished ≡ some (done r ended))
            × P key r)
  shared_is_owned es room legal key shared t shares =
      let s = run dec capacity latest ttl es fresh_system in
      let sound = reachable-IsSound dec capacity latest ttl es room in
      let owned =
        run-IsOwned es fresh_system (omega arith) (fresh-IsSound dec capacity latest ttl) legal
          fresh-IsOwned in
      elim (get_with_cases dec capacity key s.now s.state) [
        | inr started ↦ absurd (cc (started, ap (λ (r : ℕ × Bool × State K). r.1) shares))
        | inl (e, (stored, usable), found) ↦
            let same : e.id ≡ shared =
              sym (sound.lookup_is_id key e stored)
              ∙ ap (λ (r : ℕ × Bool × State K). r.0) (sym found ∙ shares) in
            elim (sound.backed key e stored) [
              | inl r ↦ inl (ap (λ id. get ℕ_discrete id s.running) (sym same) ∙ r.0)
              | inr d ↦ inr (
                d.0,
                d.1,
                ap (λ id. get ℕ_discrete id s.finished) (sym same) ∙ d.2,
                owned key e d.0 d.1 stored d.3 d.2,
              )
            ]
      ]
