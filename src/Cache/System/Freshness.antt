-- ===== src/Cache/System/Freshness.antt =====
-- What a caller of `get_with` gets, in a sound state.
use psstore.Prelude.{
  ℕ, ℕ_discrete, ◌+◌, ◌≤◌, ◌<◌, ◌≡◌, refl, ap, sym, ◌∙◌, ◌⊎◌, inl, inr, Bool, true, false, Option,
  none, some, Result, arith, Option-cases, Bool-cases,
}
use psstore.Prelude.Maps.{get}
use psstore.Cache.{
  Entry, State, bump, expired, checked_add, touch, fresh_entry, start_lookup, insert_entry,
  share_or_start, get_with,
}
use psstore.Cache.Invariant.{IsValid, HasRoom, next-remove_key}
use psstore.Cache.Preserves.{next-fresh_entry-none, fresh_entry-IsValid, bump-insert-IsValid}
use psstore.Cache.Eviction.{newest_kept}
use psstore.Cache.System.Origin.{get-insert_entry}
use mathlib.Core.Path.{subst}
use psstore.Cache.System.{done, System}
use psstore.Cache.System.Sound.{IsSound, IsRunning, IsDone}

module _ {K : Type 0} (dec : Discrete K) where
  -- a stored entry is usable at `now`
  abbrev pub Usable : K → ℕ → Entry → State K → Type 0
  Usable key now e s = (get dec key s.entries ≡ some e) × (expired e now ≡ false)

  pub get_with-shared :
      (capacity : ℕ) (key : K) (now : ℕ) (e : Entry) (s : State K)
      → Usable key now e s
      → get_with dec capacity key now s ≡ (e.lookup, false, touch dec key e s)
  unfolding get_with fresh_entry
  get_with-shared capacity key now e s h = rw (h.0, h.1, fresh_entry, share_or_start) refl

  fresh_entry_cases :
      (key : K) (now : ℕ) (s : State K)
      → ((e : Entry) × Usable key now e s) ⊎ ((fresh_entry dec key now s).0 ≡ none)
  unfolding fresh_entry
  fresh_entry_cases key now s = elim (Option-cases (get dec key s.entries)) [
    | inl absent ↦ inr (rw (absent, fresh_entry))
    | inr (e, found) ↦ elim (Bool-cases (expired e now)) [
      | inl old ↦ inr (rw (found, fresh_entry, old))
      | inr usable ↦ inl (e, (found, usable))
    ]
  ]

  share_none :
      (capacity : ℕ) (key : K) (fresh : Option ℕ) (s : State K)
      → fresh ≡ none
      → (share_or_start dec capacity key fresh s).1 ≡ true
  unfolding share_or_start
  share_none capacity key none s h = refl
  share_none capacity key (some shared) s h = cc

  -- A call shares the lookup of a usable entry, and starts a task exactly when there is none.
  pub get_with_cases :
      (capacity : ℕ) (key : K) (now : ℕ) (s : State K)
      → ((e : Entry) × Usable key now e s
          × (get_with dec capacity key now s ≡ (e.lookup, false, touch dec key e s)))
        ⊎ ((get_with dec capacity key now s).1 ≡ true)
  unfolding get_with
  get_with_cases capacity key now s = elim (fresh_entry_cases key now s) [
    | inl (e, usable) ↦ inl (e, usable, get_with-shared capacity key now e s usable)
    | inr miss ↦ inr (share_none capacity key _ _ miss)
  ]

  get-start_lookup_self :
      (capacity : ℕ) (key : K) (s : State K)
      → 0 < capacity
      → HasRoom dec s
      → IsValid dec s
      → (e : Entry) × (get dec key (start_lookup dec capacity key s).entries ≡ some e)
        × (e.lookup ≡ (bump s).next)
        × (e.expires_at ≡ none)
  unfolding start_lookup insert_entry
  get-start_lookup_self capacity key s positive room v =
      let new : Entry = record {
        id = (bump s).next;
        used = (bump s).next;
        lookup = (bump s).next;
        expires_at = none;
      } in
      (
        new,
        newest_kept dec capacity (insert_entry dec key new (bump s)) key new positive
            (bump-insert-IsValid dec key new s room v refl (omega arith))
            (ground (arith, get-insert_entry dec key key new (bump s)))
            (sym (next-remove_key dec key (bump s))),
        refl,
        refl,
      )

  join_started :
      (capacity : ℕ) (key : K) (later id : ℕ) (fresh : Option ℕ) (s t : State K)
      → 0 < capacity
      → (fresh ≡ none → HasRoom dec s)
      → IsValid dec s
      → share_or_start dec capacity key fresh s ≡ (id, true, t)
      → (u : State K) × (get_with dec capacity key later t ≡ (id, false, u))
  unfolding share_or_start expired
  join_started capacity key later id (some shared) s t positive room v h =
      absurd (cc (ap (λ (r : ℕ × Bool × State K). r.1) h))
  join_started capacity key later id none s t positive room v h =
      let id_eq : (bump s).next ≡ id = ap (λ (r : ℕ × Bool × State K). r.0) h in
      let t_eq : start_lookup dec capacity key s ≡ t = ap (λ (r : ℕ × Bool × State K). r.2) h in
      let (e, stored, lookup_eq, expiry) =
        get-start_lookup_self capacity key s positive (room refl) v in
      let in_t : get dec key t.entries ≡ some e = (rw t_eq at stored) in
      (
        touch dec key e t,
        get_with-shared capacity key later e t (in_t, rw (expiry, expired))
            ∙ ap (λ (i : ℕ). (i, false, touch dec key e t)) (lookup_eq ∙ id_eq),
      )

  -- A call that starts a task is followed by a call that shares it: in a valid cache with a capacity
  -- above zero and room in the counter, the next call for the key starts none, whatever the time.
  pub calls_share :
      (capacity : ℕ) (key : K) (now later id : ℕ) (s t : State K)
      → 0 < capacity
      → HasRoom dec s
      → IsValid dec s
      → get_with dec capacity key now s ≡ (id, true, t)
      → (u : State K) × (get_with dec capacity key later t ≡ (id, false, u))
  unfolding get_with
  calls_share capacity key now later id s t positive room v h =
      join_started capacity key later id _ _ t positive
        (λ (miss : (fresh_entry dec key now s).0 ≡ none).
          omega (arith, next-fresh_entry-none dec key now s miss))
        (fresh_entry-IsValid dec key now s room v) h

module _ {K V E : Type 0} (dec : Discrete K) (capacity latest : ℕ) (ttl : Result V E → ℕ) where
  -- An outcome that a caller may still share.
  abbrev pub IsShareable : ℕ → K → System K V E → Type 0
  IsShareable shared key s =
      (get ℕ_discrete shared s.running ≡ some key)
      ⊎ ((r : Result V E) × (t : ℕ) × (get ℕ_discrete shared s.finished ≡ some (done r t))
          × (t ≤ s.now)
          × (0 < ttl r)
          × ((s.now < t + ttl r) ⊎ (latest < t + ttl r)))

  backed-IsShareable :
      (key : K) (e : Entry) (s : System K V E)
      → expired e s.now ≡ false
      → IsRunning dec capacity latest ttl key e s ⊎ IsDone dec capacity latest ttl e s
      → IsShareable e.id key s
  unfolding expired checked_add
  backed-IsShareable key e s usable (inl r) = inl r.0
  backed-IsShareable key e s usable (inr d) = inr (d.0, d.1, d.2, d.4, ground arith, ground arith)

  -- In a sound state, a call that starts no task shares a task of its own key that still runs, or an
  -- outcome with a time to live that is not zero, at an instant before the end of that time; only an
  -- outcome whose end the clock cannot represent is shared without a limit.
  pub shared_is_fresh :
      (key : K) (shared : ℕ) (s : System K V E) (t : State K)
      → IsSound dec capacity latest ttl s
      → get_with dec capacity key s.now s.state ≡ (shared, false, t)
      → IsShareable shared key s
  shared_is_fresh key shared s t h call = elim (get_with_cases dec capacity key s.now s.state) [
    | inr started ↦ absurd (cc (started, ap (λ (r : ℕ × Bool × State K). r.1) call))
    | inl (e, (stored, usable), shares) ↦
        let same : e.id ≡ shared =
          sym (h.lookup_is_id key e stored)
          ∙ ap (λ (r : ℕ × Bool × State K). r.0) (sym shares ∙ call) in
        subst (λ id. IsShareable id key s) same
          (backed-IsShareable key e s usable (h.backed key e stored))
  ]
