-- ===== src/Prelude/Sort.antt =====
-- `slice::sort_by`, which is stable: over a total order its result is unique, and this insertion
-- sort computes it. `after x y` says that the comparison of `x` with `y` is `Greater`.
use mathlib.Core.List.Perm
use mathlib.Core.Path.{◌≡◌, refl}
use mathlib.Core.List.{List, [], ◌∷◌, Perm}
use mathlib.Core.Bool.{Bool, true, false}
use native.Mathlib.Omega.{arith}
use psstore.Prelude.Tests.{if◌then◌else◌, Bool-cases}
use psstore.Prelude.Lists.{filter, All}
use mathlib.Core.Logic.{inl, inr}

module _ {ℓ} {A : Type ℓ} (after : A → A → Bool) where
  unfoldable pub sort_insert : A → List A → List A
  sort_insert x [] = x ∷ []
  sort_insert x (y ∷ ys) = let rest = sort_insert x ys in if after x y then y ∷ rest else x ∷ y ∷ ys

  unfoldable pub sort_by : List A → List A
  unfolding sort_insert
  sort_by [] = []
  sort_by (x ∷ xs) = sort_insert x (sort_by xs)

  -- every element may stand before those behind it
  abbrev pub InOrder : List A → Type 0
  InOrder [] = Unit
  InOrder (x ∷ xs) = All (λ y. after x y ≡ false) xs × InOrder xs

  sort_insert-perm : (x : A) (xs : List A) → Perm (sort_insert x xs) (x ∷ xs)
  unfolding sort_insert
  sort_insert-perm x [] = Perm.refl (x ∷ [])
  sort_insert-perm x (y ∷ ys) = elim (Bool-cases (after x y)) [
    | inl later ↦ rw later (Perm.trans (Perm.cons y (sort_insert-perm x ys)) (Perm.swap x y ys))
    | inr before ↦ rw before (Perm.refl (x ∷ y ∷ ys))
  ]

  pub sort_by-perm : (xs : List A) → Perm (sort_by xs) xs
  unfolding sort_by
  sort_by-perm [] = Perm.refl []
  sort_by-perm (x ∷ xs) =
      Perm.trans (sort_insert-perm x (sort_by xs)) (Perm.cons x (sort_by-perm xs))

  sort_insert-All :
      (P : A → Type 0) (x : A) (xs : List A) → P x → All P xs → All P (sort_insert x xs)
  unfolding sort_insert
  sort_insert-All P x [] px h = (px, tt)
  sort_insert-All P x (y ∷ ys) px h = elim (Bool-cases (after x y)) [
    | inl later ↦ rw later (h.0, sort_insert-All P x ys px h.1)
    | inr before ↦ rw before (px, h)
  ]

  pub sort_by-All : (P : A → Type 0) (xs : List A) → All P xs → All P (sort_by xs)
  unfolding sort_by
  sort_by-All P [] h = tt
  sort_by-All P (x ∷ xs) h = sort_insert-All P x (sort_by xs) h.0 (sort_by-All P xs h.1)

  module _ (asym : (x y : A) → after x y ≡ true → after y x ≡ false)
      (trans : (x y z : A) → after x y ≡ false → after y z ≡ false → after x z ≡ false) where
    All-before :
        (x y : A) (ys : List A)
        → after x y ≡ false
        → All (λ z. after y z ≡ false) ys
        → All (λ z. after x z ≡ false) ys
    All-before x y [] h a = tt
    All-before x y (z ∷ zs) h a = (trans x y z h a.0, All-before x y zs h a.1)

    sort_insert-InOrder : (x : A) (xs : List A) → InOrder xs → InOrder (sort_insert x xs)
    unfolding sort_insert
    sort_insert-InOrder x [] h = (tt, tt)
    sort_insert-InOrder x (y ∷ ys) h = elim (Bool-cases (after x y)) [
      | inl later ↦ rw later (
        sort_insert-All (λ z. after y z ≡ false) x ys (asym x y later) h.0,
        sort_insert-InOrder x ys h.1,
      )
      | inr before ↦ rw before ((before, All-before x y ys before h.0), h)
    ]

    pub sort_by-InOrder : (xs : List A) → InOrder (sort_by xs)
    unfolding sort_by
    sort_by-InOrder [] = tt
    sort_by-InOrder (x ∷ xs) = sort_insert-InOrder x (sort_by xs) (sort_by-InOrder xs)

  -- elements that compare equal keep their order
  module _ (p : A → Bool) (tied : (x y : A) → p x ≡ true → p y ≡ true → after x y ≡ false) where
    filter-sort_insert : (x : A) (xs : List A) → filter p (sort_insert x xs) ≡ filter p (x ∷ xs)
    unfolding sort_insert
    filter-sort_insert x [] = refl
    filter-sort_insert x (y ∷ ys) = ground (arith, filter-sort_insert x ys, tied x y)

    pub filter-sort_by : (xs : List A) → filter p (sort_by xs) ≡ filter p xs
    unfolding sort_by
    filter-sort_by [] = refl
    filter-sort_by (x ∷ xs) = ground (arith, filter-sort_insert x (sort_by xs), filter-sort_by xs)
