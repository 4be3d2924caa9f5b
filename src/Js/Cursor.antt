-- ===== src/Js/Cursor.antt =====
-- crates/domain/src/js.rs: `Cursor`, over the bytes of a date string. A method that can fail
-- returns no cursor with its failure: `parse_date_ms` ends there.
use psstore.Prelude.{
  ℕ, zero, suc, ◌+◌, ◌-◌, ◌*◌, Bool, true, false, ◌||◌, Option, none, some, List, [], ◌∷◌, ◌==◌,
  ltb, length, any, drop, get_elem?, if◌then◌else◌,
}
use psstore.Prelude.Int.{ℤ, pos, sub_ℕ}
use psstore.Ids.Bytes.{is_digit}

pub record Cursor : Type 0 where
  pub bytes : List ℕ
  pub at : ℕ

-- a method with `&mut self` that returns an `Option`
abbrev pub M : Type 0 → Type 0
M A = Cursor → Option (A × Cursor)

infixl 5 ◌>>=◌
abbrev pub ◌>>=◌ : {A B : Type 0} → M A → (A → M B) → M B
◌>>=◌ m f c = elim (m c) [ none ↦ none | some (a, c') ↦ f a c' ]

unfoldable pub pure {ℓ} : {A : Type ℓ} → A → Cursor → Option (A × Cursor)
pure a c = some (a, c)

unfoldable pub fail : {A : Type 0} → M A
fail c = none

unfoldable pub peek : Cursor → Option ℕ
peek c = get_elem? c.bytes c.at

abbrev pub forward : Cursor → Cursor
forward c = record c { at = c.at + 1 }

-- `eat_any`, which never fails: it tells whether it read a byte
unfoldable pub eat_any : List ℕ → M Bool
unfolding peek
eat_any options c = elim (peek c) [
  | none ↦ some (false, c)
  | some byte ↦ if any (λ o. o == byte) options then some (true, forward c) else some (false, c)
]

unfoldable pub eat : ℕ → M Bool
unfolding eat_any
eat byte = eat_any (byte ∷ [])

unfoldable pub expect : ℕ → M Unit
unfolding eat pure fail
expect byte = do eaten ← eat byte; if eaten then pure tt else fail

unfoldable pub done : Cursor → Bool
done c = c.at == length c.bytes

-- the loop of `digits`
unfoldable pub digits_from : ℕ → ℕ → M ℕ
unfolding peek
digits_from value zero c = some (value, c)
digits_from value (suc count) c = elim (peek c) [
  | none ↦ none
  | some byte ↦
      if is_digit byte then digits_from (value * 10 + (byte - b'0')) count (forward c) else none
]

unfoldable pub digits : ℕ → M ℕ
unfolding digits_from
digits count = digits_from 0 count

-- -n, for a positive n
abbrev pub negative : ℕ → ℤ
negative n = sub_ℕ 0 n

unfoldable pub year_after : Option ℕ → M ℤ
unfolding digits pure fail
year_after (some byte) =
    if byte == b'+'
    then (λ c. (do value ← digits 6; pure (pos value)) (forward c))
    else if byte == b'-'
    then (λ c.
        (do value ← digits 6; if value == 0 then fail else pure (negative value)) (forward c))
    else do value ← digits 4; pure (pos value)
year_after none = do value ← digits 4; pure (pos value)

unfoldable pub year : M ℤ
unfolding year_after peek
year c = year_after (peek c) c

-- the loop of `fraction_ms` over the bytes from `at` on: the value and the count at its end
unfoldable pub fraction_loop : ℕ → ℕ → List ℕ → ℕ × ℕ
fraction_loop value count [] = (value, count)
fraction_loop value count (byte ∷ rest) = elim (is_digit byte) [
  | true ↦
      fraction_loop (if ltb count 3 then value * 10 + (byte - b'0') else value) (count + 1) rest
  | false ↦ (value, count)
]

-- the final `match count`
unfoldable pub scale : ℕ → ℕ → Option ℕ
scale value count =
    if count == 0
    then none
    else if count == 1
    then some (value * 100)
    else if count == 2
    then some (value * 10)
    else some value

unfoldable pub fraction_ms : M ℕ
unfolding fraction_loop scale
fraction_ms c =
    let (value, count) = fraction_loop 0 0 (drop c.at c.bytes) in
    elim (scale value count) [ none ↦ none | some ms ↦ some (ms, record c { at = c.at + count }) ]

-- the rest of `offset` after its sign; `negated` for `-`
unfoldable pub offset_value : Bool → M ℤ
unfolding digits eat pure fail
offset_value negated = do
  hours ← digits 2
  colon ← eat b':'
  minutes ← digits 2
  if ltb 23 hours || ltb 59 minutes
      then fail
      else pure (
          if negated
          then negative (hours * 3600 + minutes * 60)
          else pos (hours * 3600 + minutes * 60))

unfoldable pub offset_sign : Option ℕ → M ℤ
unfolding offset_value pure
offset_sign none = pure (pos 0)
offset_sign (some byte) =
    if byte == b'+'
    then (λ c. offset_value false (forward c))
    else if byte == b'-'
    then (λ c. offset_value true (forward c))
    else pure (pos 0)

unfoldable pub offset : M ℤ
unfolding eat_any offset_sign peek pure
offset = do
  zulu ← eat_any (b'Z' ∷ b'z' ∷ [])
  if zulu then pure (pos 0) else (λ c. offset_sign (peek c) c)
