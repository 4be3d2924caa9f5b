-- ===== src/Cache/Eviction.antt =====
-- `evict_over`: what leaves the cache, and what a new lookup leaves in it.
use psstore.Prelude.{
  ℕ, ◌≤◌, ◌<◌, ◌≡◌, ap, none, some, List, [], ◌∷◌, arith, Option-cases, Bool-cases, inl, inr, ltb,
  length, min,
}
use psstore.Prelude.Maps.{get, remove, get-remove, length-remove, nil_of_get}
use psstore.Cache.{Entry, State, evict_loop, evict_over}
use psstore.Cache.Ordered.{recency_get, Above-of_get, le_of_get}
use psstore.Cache.Invariant.{IsValid}
use psstore.Cache.Preserves.{front_entry, evict_step}

module _ {K : Type 0} (dec : Discrete K) where
  no_entries :
      (n : ℕ) (m : List (K × Entry))
      → IsValid dec (record { entries = m; recency = []; next = n })
      → m ≡ []
  unfolding recency_get
  no_entries n m v = nil_of_get dec m λ k. elim (Option-cases (get dec k m)) [
    | inl absent ↦ absent
    | inr (e, found) ↦ absurd (ground (arith, v.agree.ranked k e found))
  ]

  evict_loop-length :
      (capacity n : ℕ) (r : List (ℕ × K)) (m : List (K × Entry))
      → IsValid dec (record { entries = m; recency = r; next = n })
      → length (evict_loop dec capacity r m).1 ≡ min capacity (length m)
  unfolding evict_loop
  evict_loop-length capacity n [] m v =
      omega (arith, ap (length {A = K × Entry}) (no_entries n m v))
  evict_loop-length capacity n ((u, key) ∷ r) m v =
      let (e, found, used_eq) = front_entry dec u n key r m v in
      ground (
        arith,
        length-remove dec key e m v.distinct found,
        evict_loop-length capacity n r (remove dec key m) (evict_step dec u n key r m v),
      )

  -- what is left was there before
  evict_loop-get :
      (capacity : ℕ) (r : List (ℕ × K)) (m : List (K × Entry)) (k : K) (e : Entry)
      → get dec k (evict_loop dec capacity r m).1 ≡ some e
      → get dec k m ≡ some e
  unfolding evict_loop
  evict_loop-get capacity [] m k e h = h
  evict_loop-get capacity ((u, key) ∷ r) m k e h =
      ground (arith, evict_loop-get capacity r (remove dec key m) k e, get-remove dec key k m)

  above_front :
      (u n : ℕ) (key : K) (r : List (ℕ × K)) (m : List (K × Entry)) (k : K) (e : Entry)
      → IsValid dec (record { entries = m; recency = (u, key) ∷ r; next = n })
      → get dec k (remove dec key m) ≡ some e
      → u < e.used
  above_front u n key r m k e v h =
      Above-of_get u e.used k r v.ascending.0 ((evict_step dec u n key r m v).agree.ranked k e h)

  -- an entry that leaves was used before every entry that stays
  evict_loop-lru :
      (capacity n : ℕ) (r : List (ℕ × K)) (m : List (K × Entry)) (j k : K) (old kept : Entry)
      → IsValid dec (record { entries = m; recency = r; next = n })
      → get dec j m ≡ some old
      → get dec j (evict_loop dec capacity r m).1 ≡ none
      → get dec k (evict_loop dec capacity r m).1 ≡ some kept
      → old.used < kept.used
  unfolding evict_loop
  evict_loop-lru capacity n [] m j k old kept v hold gone hkept = cc
  evict_loop-lru capacity n ((u, key) ∷ r) m j k old kept v hold gone hkept =
      elim (Bool-cases (ltb capacity (length m))) [
        | inl over ↦
            let (e, found, used_eq) = front_entry dec u n key r m v in
            let left : get dec k (evict_loop dec capacity r (remove dec key m)).1 ≡ some kept =
              ground arith in
            ground (
              arith,
              get-remove dec key j m,
              above_front u n key r m k kept v (evict_loop-get capacity r _ k kept left),
              evict_loop-lru capacity n r (remove dec key m) j k old kept
                  (evict_step dec u n key r m v),
            )
        | inr fits ↦ absurd (ground arith)
      ]

  -- On a valid state, `evict_over` leaves as many entries as fit: all of them, or `capacity` of them.
  pub length-evict_over :
      (capacity : ℕ) (s : State K)
      → IsValid dec s
      → length (evict_over dec capacity s).entries ≡ min capacity (length s.entries)
  unfolding evict_over
  length-evict_over capacity s v = evict_loop-length capacity s.next s.recency s.entries v

  pub get-evict_over :
      (capacity : ℕ) (s : State K) (k : K) (e : Entry)
      → get dec k (evict_over dec capacity s).entries ≡ some e
      → get dec k s.entries ≡ some e
  unfolding evict_over
  get-evict_over capacity s k e h = evict_loop-get capacity s.recency s.entries k e h

  -- On a valid state, an entry that `evict_over` drops was used before every entry that it keeps.
  pub evict_over-lru :
      (capacity : ℕ) (s : State K) (j k : K) (old kept : Entry)
      → IsValid dec s
      → get dec j s.entries ≡ some old
      → get dec j (evict_over dec capacity s).entries ≡ none
      → get dec k (evict_over dec capacity s).entries ≡ some kept
      → old.used < kept.used
  unfolding evict_over
  evict_over-lru capacity s = evict_loop-lru capacity s.next s.recency s.entries

  used_le :
      (s : State K) (k : K) (e : Entry)
      → IsValid dec s
      → get dec k s.entries ≡ some e
      → e.used ≤ s.next
  used_le s k e v h = le_of_get s.next e.used k s.recency v.used_bound (v.agree.ranked k e h)

  first_entry :
      (m : List (K × Entry)) → 0 < length m → (k : K) × (e : Entry) × (get dec k m ≡ some e)
  unfolding get
  first_entry [] h = absurd (omega arith)
  first_entry ((k, e) ∷ m) h = (k, e, ground arith)

  nonempty_of_get : (m : List (K × Entry)) (k : K) (e : Entry) → get dec k m ≡ some e → 0 < length m
  unfolding get
  nonempty_of_get [] k e h = cc
  nonempty_of_get (p ∷ m) k e h = omega arith

  -- the entry that was used last stays, if the cache holds any
  pub newest_kept :
      (capacity : ℕ) (s : State K) (k : K) (e : Entry)
      → 0 < capacity
      → IsValid dec s
      → get dec k s.entries ≡ some e
      → e.used ≡ s.next
      → get dec k (evict_over dec capacity s).entries ≡ some e
  newest_kept capacity s k e room v h newest =
      elim (Option-cases (get dec k (evict_over dec capacity s).entries)) [
        | inr (f, kept) ↦ ground (arith, get-evict_over capacity s k f kept)
        | inl gone ↦
            let (j, f, first) =
              first_entry (evict_over dec capacity s).entries
                (omega (arith, length-evict_over capacity s v, nonempty_of_get s.entries k e h)) in
            absurd (
              omega (
                arith,
                evict_over-lru capacity s k j e f v h gone first,
                used_le s j f v (get-evict_over capacity s j f first),
              ))
      ]
