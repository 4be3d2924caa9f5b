-- ===== src/Bounded.antt =====
-- crates/server/src/application/bounded.rs: bounded lookups that keep the order of their items. A
-- pair is the index of an item and the output of its lookup.
pub mod Order
use psstore.Prelude.{ℕ, zero, suc, ◌+◌, ◌<◌, Bool, List, [], ◌∷◌, ◌++◌, map, ltb, length}
use psstore.Prelude.Sort.{sort_by}

-- `Iterator::enumerate`
abbrev pub enumerate_from {ℓ} : {B : Type ℓ} → ℕ → List B → List (ℕ × B)
enumerate_from i [] = []
enumerate_from i (b ∷ bs) = (i, b) ∷ enumerate_from (i + 1) bs

abbrev pub index_after {ℓ} : {B : Type ℓ} → ℕ × B → ℕ × B → Bool
index_after p q = ltb q.0 p.0

-- What `buffer_unordered(limit)` may yield, from the futures that it has not yielded: the first
-- `limit` of them run, and any of these may be the next to complete.
pub data Completes {B : Type 0} (limit : ℕ) : List (ℕ × B) → List (ℕ × B) → Type 0 where
  done : Completes limit [] []
  next :
      (before : List (ℕ × B)) (p : ℕ × B) (after completed : List (ℕ × B))
      → length before < limit
      → Completes limit (before ++ after) completed
      → Completes limit (before ++ p ∷ after) (p ∷ completed)

-- `in_order_bounded` on what the stream has yielded
unfoldable pub in_order_bounded {ℓ} : {B : Type ℓ} → List (ℕ × B) → List B
in_order_bounded completed = map (λ p. p.1) (sort_by index_after completed)
