-- ===== src/Prelude/Distinct.antt =====
-- Lists without a repeated key stay so under a filter and under a sort.
use mathlib.Core.Path.{◌≡◌}
use mathlib.Core.Logic.{inl, inr}
use mathlib.Core.Bool.{Bool, false}
use mathlib.Core.List.{List, [], ◌∷◌}
use native.Mathlib.Omega.{arith}
use psstore.Prelude.Tests.{Bool-cases}
use psstore.Prelude.Lists.{filter}
use psstore.Prelude.Sort.{sort_by, sort_insert}
use psstore.Prelude.Dedupe.{has_key, Absent, DistinctKeys}

module _ {A K : Type 0} (dec : Discrete K) (key : A → K) where
  has_key_sym : (x y : A) → has_key dec key (key x) y ≡ false → has_key dec key (key y) x ≡ false
  has_key_sym x y h = ground arith

  filter-Absent :
      (k : K) (p : A → Bool) (xs : List A) → Absent dec key k xs → Absent dec key k (filter p xs)
  filter-Absent k p [] h = tt
  filter-Absent k p (x ∷ xs) h = ground (arith, filter-Absent k p xs)

  pub filter-DistinctKeys :
      (p : A → Bool) (xs : List A) → DistinctKeys dec key xs → DistinctKeys dec key (filter p xs)
  filter-DistinctKeys p [] h = tt
  filter-DistinctKeys p (x ∷ xs) h =
      ground (arith, filter-DistinctKeys p xs, filter-Absent (key x) p xs)

  module _ (after : A → A → Bool) where
    sort_insert-Absent :
        (k : K) (x : A) (xs : List A)
        → has_key dec key k x ≡ false
        → Absent dec key k xs
        → Absent dec key k (sort_insert after x xs)
    unfolding sort_insert
    sort_insert-Absent k x [] hx h = (hx, tt)
    sort_insert-Absent k x (y ∷ ys) hx h = elim (Bool-cases (after x y)) [
      | inl later ↦ rw later (h.0, sort_insert-Absent k x ys hx h.1)
      | inr before ↦ rw before (hx, h)
    ]

    sort_insert-DistinctKeys :
        (x : A) (xs : List A)
        → Absent dec key (key x) xs
        → DistinctKeys dec key xs
        → DistinctKeys dec key (sort_insert after x xs)
    unfolding sort_insert
    sort_insert-DistinctKeys x [] absent h = (tt, tt)
    sort_insert-DistinctKeys x (y ∷ ys) absent h = elim (Bool-cases (after x y)) [
      | inl later ↦ rw later (
        sort_insert-Absent (key y) x ys (has_key_sym x y absent.0) h.0,
        sort_insert-DistinctKeys x ys absent.1 h.1,
      )
      | inr before ↦ rw before (absent, h)
    ]

    sort_by-Absent :
        (k : K) (xs : List A) → Absent dec key k xs → Absent dec key k (sort_by after xs)
    unfolding sort_by
    sort_by-Absent k [] h = tt
    sort_by-Absent k (x ∷ xs) h =
        sort_insert-Absent k x (sort_by after xs) h.0 (sort_by-Absent k xs h.1)

    pub sort_by-DistinctKeys :
        (xs : List A) → DistinctKeys dec key xs → DistinctKeys dec key (sort_by after xs)
    unfolding sort_by
    sort_by-DistinctKeys [] h = tt
    sort_by-DistinctKeys (x ∷ xs) h =
        sort_insert-DistinctKeys x (sort_by after xs) (sort_by-Absent (key x) xs h.0)
          (sort_by-DistinctKeys xs h.1)
