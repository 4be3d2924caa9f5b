-- ===== src/Cache/System/Origin.antt =====
-- Where an entry comes from: what each operation on the state leaves of it, or adds to it.
use psstore.Prelude.{
  ℕ, ◌≡◌, refl, sym, ◌⊎◌, inl, inr, ite, Option, none, some, ◌==◌, arith, Option-cases, Bool-cases,
  ◌≢◌,
}
use psstore.Prelude.Maps.{get, insert, get-insert}
use psstore.Cache.{
  Entry, State, bump, expired, checked_add, remove_key, touch, fresh_entry, insert_entry,
  remove_lookup, evict_over, start_lookup, set_expiry, complete,
}
use psstore.Cache.Invariant.{get-remove_key, next-remove_key}
use psstore.Cache.Eviction.{get-evict_over}
use psstore.Cache.Preserves.{touch_insert}

module _ {K : Type 0} (dec : Discrete K) where
  -- the key had this entry before, but for its recency number
  abbrev pub Kept : K → Entry → State K → Type 0
  Kept k e s =
      (f : Entry) × (get dec k s.entries ≡ some f)
      × (e.id ≡ f.id)
      × (e.lookup ≡ f.lookup)
      × (e.expires_at ≡ f.expires_at)

  -- the pending entry of the lookup `id`
  abbrev pub IsPending : ℕ → Entry → Type 0
  IsPending id e = (e.id ≡ id) × (e.lookup ≡ id) × (e.expires_at ≡ none)

  -- an entry after `insert_entry` is the new one or an old one
  pub get-insert_entry :
      (key k : K) (e : Entry) (s : State K)
      → get dec k (insert_entry dec key e s).entries
        ≡ ite (dec key k) (some e) (get dec k s.entries)
  unfolding insert_entry
  get-insert_entry key k e s =
      ground
        (arith, get-insert dec key k e (remove_key dec key s).entries, get-remove_key dec key k s)

  pub next-start_lookup :
      (capacity : ℕ) (key : K) (s : State K)
      → (start_lookup dec capacity key s).next ≡ (bump s).next
  unfolding start_lookup evict_over insert_entry
  next-start_lookup capacity key s = next-remove_key dec key (bump s)

  pub get-start_lookup :
      (capacity : ℕ) (key k : K) (e : Entry) (s : State K)
      → get dec k (start_lookup dec capacity key s).entries ≡ some e
      → Kept k e s ⊎ ((k ≡ key) × IsPending (bump s).next e)
  unfolding start_lookup bump
  get-start_lookup capacity key k e s h =
      let new : Entry = record {
        id = (bump s).next;
        used = (bump s).next;
        lookup = (bump s).next;
        expires_at = none;
      } in
      let stored : get dec k (insert_entry dec key new (bump s)).entries ≡ some e =
        get-evict_over dec capacity (insert_entry dec key new (bump s)) k e h in
      elim (dec key k) [
        | yes same ↦ inr (ground (arith, get-insert_entry key k new (bump s)))
        | no other ↦ inl (e, ground (arith, get-insert_entry key k new (bump s)), refl, refl, refl)
      ]

  touch-Kept :
      (key k : K) (f e : Entry) (s : State K)
      → get dec key s.entries ≡ some f
      → get dec k (touch dec key f s).entries ≡ some e
      → Kept k e s
  unfolding bump
  touch-Kept key k f e s h p =
      let f' : Entry = record f { used = (bump s).next } in
      let stored : get dec k (insert_entry dec key f' (bump s)).entries ≡ some e =
        (rw (touch_insert dec key f s h) at p) in
      elim (dec key k) [
        | yes same ↦ (
          f,
          ground arith,
          ground (arith, get-insert_entry key k f' (bump s)),
          ground (arith, get-insert_entry key k f' (bump s)),
          ground (arith, get-insert_entry key k f' (bump s)),
        )
        | no other ↦ (e, ground (arith, get-insert_entry key k f' (bump s)), refl, refl, refl)
      ]

  pub get-fresh_entry :
      (key k : K) (now : ℕ) (e : Entry) (s : State K)
      → get dec k (fresh_entry dec key now s).1.entries ≡ some e
      → Kept k e s
  unfolding fresh_entry
  get-fresh_entry key k now e s h = elim (Option-cases (get dec key s.entries)) [
    | inl absent ↦ (e, ground arith, refl, refl, refl)
    | inr (f, found) ↦ elim (Bool-cases (expired f now)) [
      | inl old ↦ (e, ground (arith, get-remove_key dec key k s), refl, refl, refl)
      | inr usable ↦ touch-Kept key k f e s found (ground arith)
    ]
  ]

  pub get-remove_lookup :
      (key k : K) (id : ℕ) (e : Entry) (s : State K)
      → get dec k (remove_lookup dec key id s).entries ≡ some e
      → (get dec k s.entries ≡ some e) × ((k ≡ key) → e.id ≢ id)
  unfolding remove_lookup
  get-remove_lookup key k id e s h = ground (arith, get-remove_key dec key k s)

  -- the entry of the lookup `id` with its expiry set
  abbrev pub Completed : K → ℕ → Option ℕ → Entry → State K → Type 0
  Completed k id at e s =
      (f : Entry) × (get dec k s.entries ≡ some f)
      × (f.id ≡ id)
      × (e.id ≡ id)
      × (e.lookup ≡ f.lookup)
      × (e.expires_at ≡ at)

  get-set_expiry :
      (key k : K) (id : ℕ) (at : Option ℕ) (e : Entry) (s : State K)
      → get dec k (set_expiry dec key id at s).entries ≡ some e
      → ((get dec k s.entries ≡ some e) × ((k ≡ key) → e.id ≢ id))
        ⊎ ((k ≡ key) × Completed k id at e s)
  unfolding set_expiry
  get-set_expiry key k id at e s h = elim (Option-cases (get dec key s.entries)) [
    | inl absent ↦ inl (ground arith, λ q. ground arith)
    | inr (f, found) ↦ elim (Bool-cases (f.id == id)) [
      | inr other ↦ inl (ground arith, λ q. ground arith)
      | inl mine ↦
          let f' : Entry = record f { expires_at = at } in
          let law : get dec k (insert dec key f' s.entries)
              ≡ ite (dec key k) (some f') (get dec k s.entries) =
            get-insert dec key k f' s.entries in
          elim (dec key k) [
            | no different ↦ inl (ground arith, λ q. absurd (different (sym q)))
            | yes same ↦ inr (
              sym same,
              (f, ground arith, ground arith, ground arith, ground arith, ground arith),
            )
          ]
    ]
  ]

  -- an entry after a lookup's end is untouched, or it is the entry of this lookup with its expiry
  pub get-complete :
      (latest : ℕ) (key k : K) (id ttl now : ℕ) (e : Entry) (s : State K)
      → get dec k (complete dec latest key id ttl now s).entries ≡ some e
      → ((get dec k s.entries ≡ some e) × ((k ≡ key) → e.id ≢ id))
        ⊎ ((k ≡ key) × (ttl ≢ 0) × Completed k id (checked_add latest now ttl) e s)
  unfolding complete
  get-complete latest key k id ttl now e s h = elim (Bool-cases (ttl == 0)) [
    | inl zero_ttl ↦ inl (get-remove_lookup key k id e s (rw zero_ttl at h))
    | inr positive ↦
        elim (get-set_expiry key k id (checked_add latest now ttl) e s (rw positive at h)) [
          | inl old ↦ inl old
          | inr (same, completed) ↦ inr (same, ground arith, completed)
        ]
  ]
