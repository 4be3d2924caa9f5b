-- ===== src/Bounded/Order.antt =====
-- The outputs stand in the order of the items, whatever the order in which the lookups end.
use psstore.Prelude.{ℕ, ◌+◌, ◌≤◌, ◌≡◌, refl, ap, ◌∙◌, List, [], ◌∷◌, ◌++◌, map, arith}
use psstore.Prelude.Sort.{sort_by, sort_insert}
use psstore.Bounded.{enumerate_from, index_after, Completes, done, next, in_order_bounded}

module _ {B : Type 0} where
  -- the indices rise from at least `i`
  abbrev pub RisesFrom : ℕ → List (ℕ × B) → Type 0
  RisesFrom i [] = Unit
  RisesFrom i (p ∷ ps) = (i ≤ p.0) × RisesFrom (p.0 + 1) ps

  RisesFrom-enumerate_from : (i : ℕ) (bs : List B) → RisesFrom i (enumerate_from i bs)
  RisesFrom-enumerate_from i [] = tt
  RisesFrom-enumerate_from i (b ∷ bs) = (omega arith, RisesFrom-enumerate_from (i + 1) bs)

  RisesFrom-mono : (i k : ℕ) (ps : List (ℕ × B)) → i ≤ k → RisesFrom k ps → RisesFrom i ps
  RisesFrom-mono i k [] h r = tt
  RisesFrom-mono i k (p ∷ ps) h r = (omega arith, r.1)

  RisesFrom-without :
      (i : ℕ) (before : List (ℕ × B)) (p : ℕ × B) (after : List (ℕ × B))
      → RisesFrom i (before ++ p ∷ after)
      → RisesFrom i (before ++ after)
  RisesFrom-without i [] p after r = RisesFrom-mono i (p.0 + 1) after (omega arith) r.1
  RisesFrom-without i (q ∷ before) p after r = (r.0, RisesFrom-without (q.0 + 1) before p after r.1)

  insert_first :
      (p : ℕ × B) (after : List (ℕ × B))
      → RisesFrom (p.0 + 1) after
      → sort_insert index_after p after ≡ p ∷ after
  unfolding sort_insert
  insert_first p [] r = refl
  insert_first p (q ∷ after) r = ground arith

  rises_above :
      (i : ℕ) (before : List (ℕ × B)) (p : ℕ × B) (after : List (ℕ × B))
      → RisesFrom i (before ++ p ∷ after)
      → i ≤ p.0
  rises_above i [] p after r = r.0
  rises_above i (q ∷ before) p after r =
      omega (arith, rises_above (q.0 + 1) before p after r.1, r.0)

  insert_between :
      (i : ℕ) (before : List (ℕ × B)) (p : ℕ × B) (after : List (ℕ × B))
      → RisesFrom i (before ++ p ∷ after)
      → sort_insert index_after p (before ++ after) ≡ before ++ p ∷ after
  unfolding sort_insert
  insert_between i [] p after r = insert_first p after r.1
  insert_between i (q ∷ before) p after r =
      ground (
        arith,
        rises_above (q.0 + 1) before p after r.1,
        insert_between (q.0 + 1) before p after r.1,
      )

  sort_by-Completes :
      (i limit : ℕ) {pending completed : List (ℕ × B)}
      → Completes limit pending completed
      → RisesFrom i pending
      → sort_by index_after completed ≡ pending
  unfolding sort_by
  sort_by-Completes i limit done r = refl
  sort_by-Completes i limit (next before p after completed running rest) r =
      ap (sort_insert index_after p)
        (sort_by-Completes i limit rest (RisesFrom-without i before p after r))
      ∙ insert_between i before p after r

  map-enumerate_from : (i : ℕ) (bs : List B) → map (λ (p : ℕ × B). p.1) (enumerate_from i bs) ≡ bs
  map-enumerate_from i [] = refl
  map-enumerate_from i (b ∷ bs) = ap (λ (r : List B). b ∷ r) (map-enumerate_from (i + 1) bs)

  -- Under every limit and for every order in which the running lookups end, the result is the list
  -- of the outputs in the order of their items.
  pub in_order_bounded_lem :
      (limit : ℕ) (outputs : List B) (completed : List (ℕ × B))
      → Completes limit (enumerate_from 0 outputs) completed
      → in_order_bounded completed ≡ outputs
  unfolding in_order_bounded
  in_order_bounded_lem limit outputs completed ran =
      ap (map (λ (p : ℕ × B). p.1))
        (sort_by-Completes 0 limit ran (RisesFrom-enumerate_from 0 outputs))
      ∙ map-enumerate_from 0 outputs
