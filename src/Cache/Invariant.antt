-- ===== src/Cache/Invariant.antt =====
-- The invariant of the cache state: `entries` and `recency` are two views of the same entries,
-- and no number is above the counter. Every operation on the state preserves it.
use psstore.Prelude.{◌+◌, ◌^◌, ◌≤◌, ◌<◌, ◌≡◌, inl, inr, ite, none, some, arith, Option-cases}
use psstore.Prelude.Maps.{
  get, remove, insert, Distinct, get-remove, get-insert, remove-Distinct, insert-Distinct,
}
use psstore.Cache.{
  Entry, State, recency_insert, recency_remove, empty, bump, remove_key, insert_entry,
}
use psstore.Cache.Agree.{Agree, Agree-remove, Agree-insert}
use psstore.Cache.Ordered.{
  recency_get, Ascending, AtMost, AtMost-mono, insert-Ascending, remove-Ascending, insert-AtMost,
  remove-AtMost,
}

module _ {K : Type 0} (dec : Discrete K) where
  pub record IsValid (s : State K) : Type 0 where
    pub distinct : Distinct dec s.entries
    pub ascending : Ascending s.recency
    pub used_bound : AtMost s.next s.recency
    pub id_bound : (k : K) (e : Entry) → get dec k s.entries ≡ some e → e.id ≤ s.next
    pub agree : Agree dec s.entries s.recency

  pub empty-IsValid : IsValid empty
  unfolding get recency_get
  empty-IsValid = record {
    distinct = tt;
    ascending = tt;
    used_bound = tt;
    id_bound = λ k e h. cc;
    agree = record { ranked = λ k e h. cc; stored = λ u k h. cc };
  }

  -- the counter has not reached the last `u64`
  abbrev pub HasRoom : State K → Type 0
  HasRoom s = s.next + 1 < 2 ^ 64

  pub next-bump : (s : State K) → HasRoom s → (bump s).next ≡ s.next + 1
  unfolding bump
  next-bump s room = omega arith

  pub bump-IsValid : (s : State K) → HasRoom s → IsValid s → IsValid (bump s)
  unfolding bump
  bump-IsValid s room v = record {
    distinct = v.distinct;
    ascending = v.ascending;
    used_bound = AtMost-mono s.next _ s.recency (omega arith) v.used_bound;
    id_bound = λ k e h. omega (arith, v.id_bound k e h);
    agree = v.agree;
  }

  pub get-remove_key :
      (key k : K) (s : State K)
      → get dec k (remove_key dec key s).entries ≡ ite (dec key k) none (get dec k s.entries)
  unfolding remove_key
  get-remove_key key k s = ground (arith, get-remove dec key k s.entries)

  pub next-remove_key : (key : K) (s : State K) → (remove_key dec key s).next ≡ s.next
  unfolding remove_key
  next-remove_key key s = ground arith

  pub remove_key-some :
      (key : K) (e : Entry) (s : State K)
      → get dec key s.entries ≡ some e
      → remove_key dec key s
        ≡ record s { entries = remove dec key s.entries; recency = recency_remove e.used s.recency }
  unfolding remove_key
  remove_key-some key e s h = rw (h, remove_key)

  pub remove_key-none :
      (key : K) (s : State K) → get dec key s.entries ≡ none → remove_key dec key s ≡ s
  unfolding remove_key
  remove_key-none key s h = rw (h, remove_key)

  pub remove_key-IsValid : (key : K) (s : State K) → IsValid s → IsValid (remove_key dec key s)
  remove_key-IsValid key s v = elim (Option-cases (get dec key s.entries)) [
    | inl absent ↦ rw (remove_key-none key s absent) v
    | inr (e, h) ↦ rw (remove_key-some key e s h) (record {
      distinct = remove-Distinct dec key s.entries v.distinct;
      ascending = remove-Ascending e.used s.recency v.ascending;
      used_bound = remove-AtMost s.next e.used s.recency v.used_bound;
      id_bound = λ k f p. ground (arith, get-remove dec key k s.entries, v.id_bound k f);
      agree = Agree-remove dec key e s.entries s.recency v.ascending h v.agree;
    })
  ]

  -- a new entry of an absent key
  add-IsValid :
      (key : K) (e : Entry) (s : State K)
      → IsValid s
      → get dec key s.entries ≡ none
      → recency_get e.used s.recency ≡ none
      → e.used ≤ s.next
      → e.id ≤ s.next
      → IsValid (record s {
        entries = insert dec key e s.entries;
        recency = recency_insert e.used key s.recency;
      })
  add-IsValid key e s v absent unused used_le id_le = record {
    distinct = insert-Distinct dec key e s.entries v.distinct;
    ascending = insert-Ascending e.used key s.recency v.ascending;
    used_bound = insert-AtMost s.next e.used key s.recency used_le v.used_bound;
    id_bound = λ k f p. ground (arith, get-insert dec key k e s.entries, v.id_bound k f);
    agree = Agree-insert dec key e s.entries s.recency absent unused v.agree;
  }

  pub insert_entry-IsValid :
      (key : K) (e : Entry) (s : State K)
      → IsValid s
      → recency_get e.used (remove_key dec key s).recency ≡ none
      → e.used ≤ s.next
      → e.id ≤ s.next
      → IsValid (insert_entry dec key e s)
  unfolding insert_entry
  insert_entry-IsValid key e s v unused used_le id_le =
      add-IsValid key e (remove_key dec key s) (remove_key-IsValid key s v)
        (ground (arith, get-remove_key key key s)) unused (ground (arith, next-remove_key key s))
        (ground (arith, next-remove_key key s))
