-- ===== src/Cache/Preserves.antt =====
-- The operations on the cache state preserve its invariant.
use mathlib.Core.Path.{subst}
use psstore.Prelude.{
  ◌∙◌, ap, ℕ, ◌+◌, ◌≤◌, ◌≡◌, refl, Option, none, some, List, [], ◌∷◌, ◌==◌, arith, Option-cases,
  Bool-cases, inl, inr, ltb, length,
}
use psstore.Prelude.Maps.{get, remove, insert, get-insert, insert-Distinct, insert-remove}
use psstore.Cache.{
  Entry, State, recency_remove, expired, bump, remove_key, touch, fresh_entry, insert_entry,
  remove_lookup, evict_loop, evict_over, start_lookup, share_or_start, get_with, set_expiry,
  complete, checked_add,
}
use psstore.Cache.Ordered.{recency_get, AtMost, remove-AtMost, get_of_AtMost}
use psstore.Cache.Invariant.{
  IsValid, HasRoom, next-bump, bump-IsValid, next-remove_key, remove_key-some, remove_key-none,
  remove_key-IsValid, insert_entry-IsValid,
}

module _ {K : Type 0} (dec : Discrete K) where
  remove_key-AtMost :
      (n : ℕ) (key : K) (s : State K) → AtMost n s.recency → AtMost n (remove_key dec key s).recency
  remove_key-AtMost n key s h = elim (Option-cases (get dec key s.entries)) [
    | inl absent ↦ rw (remove_key-none dec key s absent) h
    | inr (e, found) ↦ rw (remove_key-some dec key e s found) (remove-AtMost n e.used s.recency h)
  ]

  -- an entry under the number that `bump` returns
  pub bump-insert-IsValid :
      (key : K) (e : Entry) (s : State K)
      → HasRoom dec s
      → IsValid dec s
      → e.used ≡ (bump s).next
      → e.id ≤ (bump s).next
      → IsValid dec (insert_entry dec key e (bump s))
  unfolding bump
  bump-insert-IsValid key e s room v used_eq id_le =
      insert_entry-IsValid dec key e (bump s) (bump-IsValid dec s room v)
        (get_of_AtMost s.next e.used _ (remove_key-AtMost s.next key (bump s) v.used_bound)
          (omega (arith, next-bump dec s room)))
        (omega arith) id_le

  -- `touch` stores the entry again under a new number
  pub touch_insert :
      (key : K) (e : Entry) (s : State K)
      → get dec key s.entries ≡ some e
      → touch dec key e s ≡ insert_entry dec key (record e { used = (bump s).next }) (bump s)
  unfolding touch insert_entry bump
  touch_insert key e s h = rw (
    remove_key-some dec key e (bump s) h,
    insert-remove dec key (record e { used = (bump s).next }) s.entries,
  )

  pub touch-IsValid :
      (key : K) (e : Entry) (s : State K)
      → HasRoom dec s
      → IsValid dec s
      → get dec key s.entries ≡ some e
      → IsValid dec (touch dec key e s)
  touch-IsValid key e s room v h = rw (touch_insert key e s h) (
      bump-insert-IsValid key (record e { used = (bump s).next }) s room v refl
        (omega (arith, next-bump dec s room, v.id_bound key e h)))

  pub fresh_entry-IsValid :
      (key : K) (now : ℕ) (s : State K)
      → HasRoom dec s
      → IsValid dec s
      → IsValid dec (fresh_entry dec key now s).1
  unfolding fresh_entry
  fresh_entry-IsValid key now s room v = elim (Option-cases (get dec key s.entries)) [
    | inl absent ↦ rw (absent, fresh_entry) v
    | inr (e, found) ↦ elim (Bool-cases (expired e now)) [
      | inl old ↦ rw (found, fresh_entry, old) (remove_key-IsValid dec key s v)
      | inr usable ↦ rw (found, fresh_entry, usable) (touch-IsValid key e s room v found)
    ]
  ]

  pub remove_lookup-IsValid :
      (key : K) (id : ℕ) (s : State K) → IsValid dec s → IsValid dec (remove_lookup dec key id s)
  unfolding remove_lookup
  remove_lookup-IsValid key id s v = ground (arith, remove_key-IsValid dec key s v)

  remove_head : (u v : ℕ) (key : K) (r : List (ℕ × K)) → v ≡ u → recency_remove v ((u, key) ∷ r) ≡ r
  unfolding recency_remove
  remove_head u v key r h = ground arith

  -- the entry at the front of `recency`
  pub front_entry :
      (u n : ℕ) (key : K) (r : List (ℕ × K)) (m : List (K × Entry))
      → IsValid dec (record { entries = m; recency = (u, key) ∷ r; next = n })
      → (e : Entry) × (get dec key m ≡ some e) × (e.used ≡ u)
  unfolding recency_get
  front_entry u n key r m v = v.agree.stored u key (ground arith)

  pub evict_step :
      (u n : ℕ) (key : K) (r : List (ℕ × K)) (m : List (K × Entry))
      → IsValid dec (record { entries = m; recency = (u, key) ∷ r; next = n })
      → IsValid dec (record { entries = remove dec key m; recency = r; next = n })
  evict_step u n key r m v =
      let s : State K = record { entries = m; recency = (u, key) ∷ r; next = n } in
      let (e, found, used_eq) = front_entry u n key r m v in
      subst (IsValid dec)
        (remove_key-some dec key e s found
          ∙ ap (λ (r' : List (ℕ × K)). record s { entries = remove dec key m; recency = r' })
              (remove_head u e.used key r used_eq))
        (remove_key-IsValid dec key s v)

  pub evict_loop-IsValid :
      (capacity n : ℕ) (r : List (ℕ × K)) (m : List (K × Entry))
      → IsValid dec (record { entries = m; recency = r; next = n })
      → IsValid dec (record {
        entries = (evict_loop dec capacity r m).1;
        recency = (evict_loop dec capacity r m).0;
        next = n;
      })
  unfolding evict_loop
  evict_loop-IsValid capacity n [] m v = v
  evict_loop-IsValid capacity n ((u, key) ∷ r) m v = elim (Bool-cases (ltb capacity (length m))) [
    | inl over ↦
        rw over (evict_loop-IsValid capacity n r (remove dec key m) (evict_step u n key r m v))
    | inr fits ↦ rw fits v
  ]

  pub evict_over-IsValid :
      (capacity : ℕ) (s : State K) → IsValid dec s → IsValid dec (evict_over dec capacity s)
  unfolding evict_over
  evict_over-IsValid capacity s v = evict_loop-IsValid capacity s.next s.recency s.entries v

  pub start_lookup-IsValid :
      (capacity : ℕ) (key : K) (s : State K)
      → HasRoom dec s
      → IsValid dec s
      → IsValid dec (start_lookup dec capacity key s)
  unfolding start_lookup
  start_lookup-IsValid capacity key s room v =
      evict_over-IsValid capacity _ (bump-insert-IsValid key _ s room v refl (omega arith))

  -- a call makes at most one new number: an expired entry is removed before the lookup starts
  pub next-fresh_entry-none :
      (key : K) (now : ℕ) (s : State K)
      → (fresh_entry dec key now s).0 ≡ none
      → (fresh_entry dec key now s).1.next ≡ s.next
  unfolding fresh_entry
  next-fresh_entry-none key now s h = ground (arith, next-remove_key dec key s)

  pub next-fresh_entry :
      (key : K) (now : ℕ) (s : State K)
      → HasRoom dec s
      → (s.next ≤ (fresh_entry dec key now s).1.next)
        × ((fresh_entry dec key now s).1.next ≤ s.next + 1)
  unfolding fresh_entry touch bump
  next-fresh_entry key now s room = ground (arith, next-remove_key dec key s)

  share_or_start-IsValid :
      (capacity : ℕ) (key : K) (fresh : Option ℕ) (s : State K)
      → (fresh ≡ none → HasRoom dec s)
      → IsValid dec s
      → IsValid dec (share_or_start dec capacity key fresh s).2
  unfolding share_or_start
  share_or_start-IsValid capacity key none s room v =
      start_lookup-IsValid capacity key s (room refl) v
  share_or_start-IsValid capacity key (some shared) s room v = v

  -- A call keeps the cache valid: its entries and its recency numbers agree, no number stands twice,
  -- and all are at most the counter. The counter has room for a new number.
  pub get_with-IsValid :
      (capacity : ℕ) (key : K) (now : ℕ) (s : State K)
      → HasRoom dec s
      → IsValid dec s
      → IsValid dec (get_with dec capacity key now s).2
  unfolding get_with
  get_with-IsValid capacity key now s room v =
      share_or_start-IsValid capacity key _ _
        (λ (h : (fresh_entry dec key now s).0 ≡ none).
          omega (arith, next-fresh_entry-none key now s h))
        (fresh_entry-IsValid key now s room v)

  -- an entry with another expiry
  replace-IsValid :
      (key : K) (e : Entry) (at : Option ℕ) (s : State K)
      → get dec key s.entries ≡ some e
      → IsValid dec s
      → IsValid dec (record s { entries = insert dec key (record e { expires_at = at }) s.entries })
  replace-IsValid key e at s found v =
      let e' : Entry = record e { expires_at = at } in
      record {
        distinct = insert-Distinct dec key e' s.entries v.distinct;
        ascending = v.ascending;
        used_bound = v.used_bound;
        id_bound = λ k f p.
            ground (arith, get-insert dec key k e' s.entries, v.id_bound key e, v.id_bound k f);
        agree = record {
          ranked = λ k f p.
              ground (
                arith,
                get-insert dec key k e' s.entries,
                v.agree.ranked key e,
                v.agree.ranked k f,
              );
          stored = λ u k p.
              let q : (f : Entry) × (get dec k s.entries ≡ some f) × (f.used ≡ u) =
                v.agree.stored u k p in
              elim (dec key k) [
                | yes here ↦ (e', ground (arith, get-insert dec key k e' s.entries), ground arith)
                | no other ↦ (q.0, ground (arith, get-insert dec key k e' s.entries), q.2)
              ];
        };
      }

  set_expiry-IsValid :
      (key : K) (id : ℕ) (at : Option ℕ) (s : State K)
      → IsValid dec s
      → IsValid dec (set_expiry dec key id at s)
  unfolding set_expiry
  set_expiry-IsValid key id at s v = elim (Option-cases (get dec key s.entries)) [
    | inl absent ↦ rw (absent, set_expiry) v
    | inr (e, found) ↦ elim (Bool-cases (e.id == id)) [
      | inl same ↦ rw (found, set_expiry, same) (replace-IsValid key e at s found v)
      | inr other ↦ rw (found, set_expiry, other) v
    ]
  ]

  -- The end of a lookup keeps the cache valid, whatever the time to live of its outcome.
  pub complete-IsValid :
      (latest : ℕ) (key : K) (id ttl now : ℕ) (s : State K)
      → IsValid dec s
      → IsValid dec (complete dec latest key id ttl now s)
  unfolding complete
  complete-IsValid latest key id ttl now s v = ground (
    arith,
    remove_lookup-IsValid key id s v,
    set_expiry-IsValid key id (checked_add latest now ttl) s v,
  )

  pub next-remove_lookup :
      (key : K) (id : ℕ) (s : State K) → (remove_lookup dec key id s).next ≡ s.next
  unfolding remove_lookup
  next-remove_lookup key id s = ground (arith, next-remove_key dec key s)

  pub next-complete :
      (latest : ℕ) (key : K) (id ttl now : ℕ) (s : State K)
      → (complete dec latest key id ttl now s).next ≡ s.next
  unfolding complete set_expiry
  next-complete latest key id ttl now s = ground (arith, next-remove_lookup key id s)
