-- ===== src/Prelude/Actions.antt =====
-- Asynchronous code: a call takes the state before it and gives its answer with the state after it.
use mathlib.Core.Bool.{Bool}
use mathlib.Core.List.{List, [], ◌∷◌}
use psstore.Prelude.Tests.{if◌then◌else◌}
use psstore.Prelude.Results.{Result, ok, err}

-- an asynchronous call, with the state before and after it
abbrev pub Action : Type 0 → Type 0 → Type 0
Action W A = W → A × W

infixl 5 ◌>>=◌
abbrev pub ◌>>=◌ : {W A B : Type 0} → Action W A → (A → Action W B) → Action W B
◌>>=◌ m f w = let (a, w') = m w in f a w'

abbrev pub pure : {W A : Type 0} → A → Action W A
pure a w = (a, w)

-- a call that may fail
abbrev pub Attempt : Type 0 → Type 0 → Type 0 → Type 0
Attempt W A E = Action W (Result A E)

-- the `?` after an `await`
infixl 5 ◌>=?◌
abbrev pub ◌>=?◌ : {W A B E : Type 0} → Attempt W A E → (A → Attempt W B E) → Attempt W B E
◌>=?◌ m f w = let (r, w') = m w in elim r [ ok a ↦ f a w' | err e ↦ (err e, w') ]

-- the items of a bounded run, each with its call
unfoldable pub for_each : {W A B : Type 0} → (A → Action W B) → List A → Action W (List B)
for_each f [] w = ([], w)
for_each f (a ∷ xs) w = let (b, w') = f a w in let (bs, w'') = for_each f xs w' in (b ∷ bs, w'')

-- `try_join`
unfoldable pub try_join :
    {W A B E : Type 0} → (W → Bool) → Attempt W A E → Attempt W B E → Attempt W (A × B) E
try_join second_first m k w =
    let (r, w') = m w in
    let (q, w'') = k w' in
    elim r [
      | ok a ↦ elim q [ ok b ↦ (ok (a, b), w'') | err f ↦ (err f, w'') ]
      | err e ↦ elim q [
        | ok b ↦ (err e, w'')
        | err f ↦ (err (if second_first w'' then f else e), w'')
      ]
    ]
