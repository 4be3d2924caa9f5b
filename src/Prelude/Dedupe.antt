-- ===== src/Prelude/Dedupe.antt =====
-- The idiom `filter(|x| seen.insert(key(x)))` over a `HashSet`: the first element of each key.
use mathlib.Core.Path.{◌≡◌, refl}
use mathlib.Core.List.{List, [], ◌∷◌, Sublist, nil-sublist}
use mathlib.Core.List.Sublist
use mathlib.Core.Bool.{Bool, true, false, ◌||◌}
use mathlib.Core.Logic.{ite, inl, inr}
use native.Mathlib.Omega.{arith}
use psstore.Prelude.Tests.{Bool-cases}
use Prim.Native.Nat.{◌≤◌}
use psstore.Prelude.Lists.{find?, All, length}

module _ {K A : Type 0} (dec : Discrete K) (key : A → K) where
  abbrev pub has_key : K → A → Bool
  has_key k x = ite (dec (key x) k) true false

  -- `HashSet::contains`
  unfoldable pub seen_before : K → List K → Bool
  seen_before k [] = false
  seen_before k (s ∷ seen) = ite (dec s k) true false || seen_before k seen

  unfoldable pub dedupe_from : List K → List A → List A
  unfolding seen_before
  dedupe_from seen [] = []
  dedupe_from seen (x ∷ xs) = elim (seen_before (key x) seen) [
    | true ↦ dedupe_from seen xs
    | false ↦ x ∷ dedupe_from (key x ∷ seen) xs
  ]

  unfoldable pub dedupe : List A → List A
  unfolding dedupe_from
  dedupe xs = dedupe_from [] xs

  -- no two elements with one key
  abbrev pub Absent : K → List A → Type 0
  Absent k [] = Unit
  Absent k (x ∷ xs) = (has_key k x ≡ false) × Absent k xs

  abbrev pub DistinctKeys : List A → Type 0
  DistinctKeys [] = Unit
  DistinctKeys (x ∷ xs) = Absent (key x) xs × DistinctKeys xs

  dedupe_from-Absent :
      (k : K) (seen : List K) (xs : List A)
      → seen_before k seen ≡ true
      → Absent k (dedupe_from seen xs)
  unfolding dedupe_from
  dedupe_from-Absent k seen [] h = tt
  dedupe_from-Absent k seen (x ∷ xs) h =
      ground (arith, dedupe_from-Absent k seen xs, dedupe_from-Absent k (key x ∷ seen) xs)

  dedupe_from-DistinctKeys : (seen : List K) (xs : List A) → DistinctKeys (dedupe_from seen xs)
  unfolding dedupe_from
  dedupe_from-DistinctKeys seen [] = tt
  dedupe_from-DistinctKeys seen (x ∷ xs) = ground (
    arith,
    dedupe_from-DistinctKeys seen xs,
    dedupe_from-DistinctKeys (key x ∷ seen) xs,
    dedupe_from-Absent (key x) (key x ∷ seen) xs,
  )

  find-dedupe_from :
      (k : K) (seen : List K) (xs : List A)
      → seen_before k seen ≡ false
      → find? (has_key k) (dedupe_from seen xs) ≡ find? (has_key k) xs
  unfolding dedupe_from
  find-dedupe_from k seen [] h = refl
  find-dedupe_from k seen (x ∷ xs) h =
      ground (arith, find-dedupe_from k seen xs, find-dedupe_from k (key x ∷ seen) xs)

  pub dedupe-DistinctKeys : (xs : List A) → DistinctKeys (dedupe xs)
  unfolding dedupe
  dedupe-DistinctKeys xs = dedupe_from-DistinctKeys [] xs

  -- each key keeps its first element, and none is lost
  pub find-dedupe : (k : K) (xs : List A) → find? (has_key k) (dedupe xs) ≡ find? (has_key k) xs
  unfolding dedupe
  find-dedupe k xs = find-dedupe_from k [] xs refl

  dedupe_from-sublist : (seen : List K) (xs : List A) → Sublist (dedupe_from seen xs) xs
  unfolding dedupe_from
  dedupe_from-sublist seen [] = nil-sublist []
  dedupe_from-sublist seen (x ∷ xs) = elim (Bool-cases (seen_before (key x) seen)) [
    | inl old ↦ rw (old, dedupe_from) (Sublist.cons x (dedupe_from-sublist seen xs))
    | inr new ↦ rw (new, dedupe_from) (Sublist.cons-cons x (dedupe_from-sublist (key x ∷ seen) xs))
  ]

  -- the order stays
  pub dedupe-sublist : (xs : List A) → Sublist (dedupe xs) xs
  unfolding dedupe
  dedupe-sublist xs = dedupe_from-sublist [] xs

  dedupe_from-All :
      (P : A → Type 0) (seen : List K) (xs : List A) → All P xs → All P (dedupe_from seen xs)
  unfolding dedupe_from
  dedupe_from-All P seen [] h = tt
  dedupe_from-All P seen (x ∷ xs) h = elim (Bool-cases (seen_before (key x) seen)) [
    | inl old ↦ rw (old, dedupe_from) (dedupe_from-All P seen xs h.1)
    | inr new ↦ rw (new, dedupe_from) (h.0, dedupe_from-All P (key x ∷ seen) xs h.1)
  ]

  pub dedupe-All : (P : A → Type 0) (xs : List A) → All P xs → All P (dedupe xs)
  unfolding dedupe
  dedupe-All P xs h = dedupe_from-All P [] xs h

  length-dedupe_from : (seen : List K) (xs : List A) → length (dedupe_from seen xs) ≤ length xs
  unfolding dedupe_from
  length-dedupe_from seen [] = omega arith
  length-dedupe_from seen (x ∷ xs) =
      ground (arith, length-dedupe_from seen xs, length-dedupe_from (key x ∷ seen) xs)

  pub length-dedupe : (xs : List A) → length (dedupe xs) ≤ length xs
  unfolding dedupe
  length-dedupe xs = length-dedupe_from [] xs
