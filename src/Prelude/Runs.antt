-- ===== src/Prelude/Runs.antt =====
-- A run over appended items, and the length of a run.
use mathlib.Core.Path.{◌≡◌, refl, ap}
use mathlib.Core.List.{List, [], ◌∷◌, ◌++◌}
use native.Mathlib.Omega.{arith}
use psstore.Prelude.Lists.{length, take, drop}
use psstore.Prelude.Actions.{Action, for_each}
use Prim.Native.Nat.{ℕ}

module _ {W A B : Type 0} (f : A → Action W B) where
  pub for_each_append :
      (xs ys : List A) (w : W)
      → for_each f (xs ++ ys) w ≡ (
        (for_each f xs w).0 ++ (for_each f ys (for_each f xs w).1).0,
        (for_each f ys (for_each f xs w).1).1,
      )
  unfolding for_each
  for_each_append [] ys w = refl
  for_each_append (x ∷ xs) ys w = ap (λ p. ((f x w).0 ∷ p.0, p.1)) (for_each_append xs ys (f x w).1)

  pub length-for_each : (xs : List A) (w : W) → length (for_each f xs w).0 ≡ length xs
  unfolding for_each
  length-for_each [] w = refl
  length-for_each (x ∷ xs) w = omega (arith, length-for_each xs (f x w).1)

pub take-prefix : {A : Type 0} (n : ℕ) (xs ys : List A) → length xs ≡ n → take n (xs ++ ys) ≡ xs
take-prefix n [] ys h = rw (← h) refl
take-prefix n (x ∷ xs) ys h = rw (← h) (ap (λ zs. x ∷ zs) (take-prefix (length xs) xs ys refl))

pub drop-prefix : {A : Type 0} (n : ℕ) (xs ys : List A) → length xs ≡ n → drop n (xs ++ ys) ≡ ys
drop-prefix n [] ys h = rw (← h) refl
drop-prefix n (x ∷ xs) ys h = rw (← h) (drop-prefix (length xs) xs ys refl)
