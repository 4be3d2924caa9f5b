-- ===== src/Prelude/Maps.antt =====
-- `HashMap` as an association list over keys with a decidable equality. A key is stored once:
-- `insert` removes the old pair. The order of the pairs is not observed by the program.
use Prim.Native.Nat.{◌+◌, ◌≤◌}
use mathlib.Core.Path.{◌≡◌, refl, ap}
use mathlib.Core.Logic.{ite}
use mathlib.Core.List.{List, [], ◌∷◌}
use mathlib.Core.Option.{Option, none, some}
use native.Mathlib.Omega.{arith}
use psstore.Prelude.Lists.{length}

module _ {K V : Type 0} (dec : Discrete K) where
  unfoldable pub get : K → List (K × V) → Option V
  get k [] = none
  get k ((j, v) ∷ m) = let rest = get k m in ite (dec j k) (some v) rest

  unfoldable pub remove : K → List (K × V) → List (K × V)
  remove k [] = []
  remove k ((j, v) ∷ m) = let rest = remove k m in ite (dec j k) rest ((j, v) ∷ rest)

  unfoldable pub insert : K → V → List (K × V) → List (K × V)
  unfolding remove
  insert k v m = (k, v) ∷ remove k m

  -- no key twice
  abbrev pub Distinct : List (K × V) → Type 0
  Distinct [] = Unit
  Distinct ((k, v) ∷ m) = (get k m ≡ none) × Distinct m

  pub get-remove : (k j : K) (m : List (K × V)) → get j (remove k m) ≡ ite (dec k j) none (get j m)
  unfolding get remove
  get-remove k j [] = ground arith
  get-remove k j ((i, v) ∷ m) = ground (arith, get-remove k j m)

  pub get-insert :
      (k j : K) (v : V) (m : List (K × V)) → get j (insert k v m) ≡ ite (dec k j) (some v) (get j m)
  unfolding get insert
  get-insert k j v m = ground (arith, get-remove k j m)

  pub remove-Distinct : (k : K) (m : List (K × V)) → Distinct m → Distinct (remove k m)
  unfolding get remove
  remove-Distinct k [] d = tt
  remove-Distinct k ((j, v) ∷ m) d = ground (arith, get-remove k j m, remove-Distinct k m d.1)

  pub insert-Distinct : (k : K) (v : V) (m : List (K × V)) → Distinct m → Distinct (insert k v m)
  unfolding insert
  insert-Distinct k v m d = ground (arith, get-remove k k m, remove-Distinct k m d)

  pub length-remove-le : (k : K) (m : List (K × V)) → length (remove k m) ≤ length m
  unfolding remove
  length-remove-le k [] = omega arith
  length-remove-le k ((j, v) ∷ m) = ground (arith, length-remove-le k m)

  -- a map whose every lookup fails is empty
  pub nil_of_get : (m : List (K × V)) → ((k : K) → get k m ≡ none) → m ≡ []
  unfolding get
  nil_of_get [] h = refl
  nil_of_get ((k, v) ∷ m) h = ground (arith, h k)

  pub remove-remove : (k : K) (m : List (K × V)) → remove k (remove k m) ≡ remove k m
  unfolding remove
  remove-remove k [] = refl
  remove-remove k ((j, v) ∷ m) = ground (arith, remove-remove k m)

  pub insert-remove : (k : K) (v : V) (m : List (K × V)) → insert k v (remove k m) ≡ insert k v m
  unfolding insert
  insert-remove k v m = ap (λ (r : List (K × V)). (k, v) ∷ r) (remove-remove k m)

  pub remove_absent : (k : K) (m : List (K × V)) → get k m ≡ none → remove k m ≡ m
  unfolding get remove
  remove_absent k [] h = refl
  remove_absent k ((j, v) ∷ m) h = ground (arith, remove_absent k m)

  pub length-remove :
      (k : K) (v : V) (m : List (K × V))
      → Distinct m
      → get k m ≡ some v
      → length (remove k m) + 1 ≡ length m
  unfolding get remove
  length-remove k v [] d h = cc
  length-remove k v ((j, w) ∷ m) d h = ground (arith, length-remove k v m d.1, remove_absent k m)
