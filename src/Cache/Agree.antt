-- ===== src/Cache/Agree.antt =====
-- The two maps of the cache state as views of the same entries.
use psstore.Prelude.{ℕ, ◌≡◌, inl, inr, none, some, List, ◌==◌, arith, Bool-cases}
use psstore.Prelude.Maps.{get, remove, insert, get-remove, get-insert}
use psstore.Cache.{Entry, recency_insert, recency_remove}
use psstore.Cache.Ordered.{recency_get, Ascending, get-recency_insert, get-recency_remove}

module _ {K : Type 0} (dec : Discrete K) where
  -- the two views, as a statement about the two maps
  pub record Agree (entries : List (K × Entry)) (recency : List (ℕ × K)) : Type 0 where
    pub ranked :
        (k : K) (e : Entry) → get dec k entries ≡ some e → recency_get e.used recency ≡ some k
    pub stored :
        (u : ℕ) (k : K)
        → recency_get u recency ≡ some k
        → (e : Entry) × (get dec k entries ≡ some e) × (e.used ≡ u)

  -- the pair of an entry is taken out of both maps
  pub Agree-remove :
      (k : K) (e : Entry) (m : List (K × Entry)) (r : List (ℕ × K))
      → Ascending r
      → get dec k m ≡ some e
      → Agree m r
      → Agree (remove dec k m) (recency_remove e.used r)
  Agree-remove k e m r a h g = record {
    ranked = λ j f p. ground (
      arith,
      get-remove dec k j m,
      get-recency_remove e.used f.used r a,
      g.ranked j f,
      g.ranked k e h,
    );
    stored = λ u j p.
        let q : (f : Entry) × (get dec j m ≡ some f) × (f.used ≡ u) =
          g.stored u j (ground (arith, get-recency_remove e.used u r a)) in
        (q.0, ground (arith, get-remove dec k j m, get-recency_remove e.used u r a), q.2);
  }

  -- a pair for an absent key, under a number that is not in use
  pub Agree-insert :
      (k : K) (e : Entry) (m : List (K × Entry)) (r : List (ℕ × K))
      → get dec k m ≡ none
      → recency_get e.used r ≡ none
      → Agree m r
      → Agree (insert dec k e m) (recency_insert e.used k r)
  Agree-insert k e m r absent unused g = record {
    ranked = λ j f p.
        ground (arith, get-insert dec k j e m, get-recency_insert e.used f.used k r, g.ranked j f);
    stored = λ u j p. elim (Bool-cases (e.used == u)) [
      | inl here ↦
          (e, ground (arith, get-recency_insert e.used u k r, get-insert dec k j e m), ground arith)
      | inr other ↦
          let q : (f : Entry) × (get dec j m ≡ some f) × (f.used ≡ u) =
            g.stored u j (ground (arith, get-recency_insert e.used u k r)) in
          (q.0, ground (arith, get-insert dec k j e m), q.2)
    ];
  }
