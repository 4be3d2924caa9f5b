-- ===== src/Prelude/Selects.antt =====
-- A list of what a relation picks from the elements of another list, in their order.
use mathlib.Core.List.{List, [], ◌∷◌, ◌++◌}

pub data Selects {A B : Type 0} (P : A → B → Type 0) : List A → List B → Type 0 where
  nothing : Selects P [] []
  pick :
      (a : A) (b : B) (xs : List A) (ys : List B)
      → P a b
      → Selects P xs ys
      → Selects P (a ∷ xs) (b ∷ ys)
  skip :
      (a : A) (xs : List A) (ys : List B)
      → ((b : B) → P a b → ⊥)
      → Selects P xs ys
      → Selects P (a ∷ xs) ys

pub Selects-append :
    {A B : Type 0} (P : A → B → Type 0) (xs us : List A) (ys vs : List B)
    → Selects P xs ys
    → Selects P us vs
    → Selects P (xs ++ us) (ys ++ vs)
Selects-append P _ us _ vs nothing k = k
Selects-append P _ us _ vs (pick a b xs ys h s) k =
    pick a b (xs ++ us) (ys ++ vs) h (Selects-append P xs us ys vs s k)
Selects-append P _ us _ vs (skip a xs ys h s) k =
    skip a (xs ++ us) (ys ++ vs) h (Selects-append P xs us ys vs s k)
