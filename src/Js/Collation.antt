-- ===== src/Js/Collation.antt =====
-- crates/domain/src/js.rs: `locale_compare_en`.
use Prim.Native.Nat.{compare, Ordering}
use psstore.Prelude.{
  ℕ, ◌+◌, ◌-◌, ◌≡◌, refl, Bool, true, false, ◌&&◌, ◌||◌, Option, none, some, List, [], ◌∷◌, map,
  ◌==◌, leb, filter_map, arith, if◌then◌else◌,
}
use psstore.Prelude.Texts.{Text, text}

pub record CollationKey : Type 0 where
  pub primary : ℕ
  pub secondary : ℕ
  pub tertiary : ℕ

-- `ASCII_SYMBOL_ORDER`
abbrev pub ascii_symbol_order : Text
ascii_symbol_order = text " _-,;:!?.'\"()[]{}@*/\\&#%`^+<=>|~$"

abbrev pub digit_base : ℕ
digit_base = 100

abbrev pub letter_base : ℕ
letter_base = 200

abbrev pub other_base : ℕ
other_base = 1000

-- `chars().position(|s| s == c)`
unfoldable pub position : ℕ → ℕ → Text → Option ℕ
position i c [] = none
position i c (s ∷ rest) = let next = position (i + 1) c rest in if s == c then some i else next

-- `char::is_control`
abbrev pub is_control : ℕ → Bool
is_control c = leb c 0x1f || leb 0x7f c && leb c 0x9f

-- A row of the table of `latin_base`: the letters of a text, in ascending order, with their base
-- letter and accent.
abbrev pub latin_table : List (ℕ × ℕ × ℕ)
latin_table =
    (0xc0, b'A', 2)
    ∷ (0xc1, b'A', 1)
    ∷ (0xc2, b'A', 4)
    ∷ (0xc3, b'A', 9)
    ∷ (0xc4, b'A', 7)
    ∷ (0xc5, b'A', 6)
    ∷ (0xc7, b'C', 11)
    ∷ (0xc8, b'E', 2)
    ∷ (0xc9, b'E', 1)
    ∷ (0xca, b'E', 4)
    ∷ (0xcb, b'E', 7)
    ∷ (0xcc, b'I', 2)
    ∷ (0xcd, b'I', 1)
    ∷ (0xce, b'I', 4)
    ∷ (0xcf, b'I', 7)
    ∷ (0xd1, b'N', 9)
    ∷ (0xd2, b'O', 2)
    ∷ (0xd3, b'O', 1)
    ∷ (0xd4, b'O', 4)
    ∷ (0xd5, b'O', 9)
    ∷ (0xd6, b'O', 7)
    ∷ (0xd9, b'U', 2)
    ∷ (0xda, b'U', 1)
    ∷ (0xdb, b'U', 4)
    ∷ (0xdc, b'U', 7)
    ∷ (0xdd, b'Y', 1)
    ∷ (0xe0, b'a', 2)
    ∷ (0xe1, b'a', 1)
    ∷ (0xe2, b'a', 4)
    ∷ (0xe3, b'a', 9)
    ∷ (0xe4, b'a', 7)
    ∷ (0xe5, b'a', 6)
    ∷ (0xe7, b'c', 11)
    ∷ (0xe8, b'e', 2)
    ∷ (0xe9, b'e', 1)
    ∷ (0xea, b'e', 4)
    ∷ (0xeb, b'e', 7)
    ∷ (0xec, b'i', 2)
    ∷ (0xed, b'i', 1)
    ∷ (0xee, b'i', 4)
    ∷ (0xef, b'i', 7)
    ∷ (0xf1, b'n', 9)
    ∷ (0xf2, b'o', 2)
    ∷ (0xf3, b'o', 1)
    ∷ (0xf4, b'o', 4)
    ∷ (0xf5, b'o', 9)
    ∷ (0xf6, b'o', 7)
    ∷ (0xf9, b'u', 2)
    ∷ (0xfa, b'u', 1)
    ∷ (0xfb, b'u', 4)
    ∷ (0xfc, b'u', 7)
    ∷ (0xfd, b'y', 1)
    ∷ (0xff, b'y', 7)
    ∷ []

unfoldable pub find_latin : ℕ → List (ℕ × ℕ × ℕ) → ℕ × ℕ
find_latin c [] = (c, 0)
find_latin c ((letter, base, accent) ∷ rest) =
    let next = find_latin c rest in if letter == c then (base, accent) else next

unfoldable pub latin_base : ℕ → ℕ × ℕ
unfolding find_latin
latin_base c = find_latin c latin_table

abbrev pub is_lower : ℕ → Bool
is_lower c = leb b'a' c && leb c b'z'

abbrev pub is_upper : ℕ → Bool
is_upper c = leb b'A' c && leb c b'Z'

-- the key of a letter by its base and accent, else of another character
unfoldable pub letter_key : ℕ → ℕ × ℕ → CollationKey
letter_key c (base, accent) =
    if is_lower base
    then record { primary = letter_base + (base - b'a'); secondary = accent; tertiary = 0 }
    else if is_upper base
    then record { primary = letter_base + (base - b'A'); secondary = accent; tertiary = 1 }
    else record { primary = other_base + c; secondary = 0; tertiary = 0 }

abbrev pub plain_key : ℕ → CollationKey
plain_key primary = record { primary = primary; secondary = 0; tertiary = 0 }

unfoldable pub collation_key : ℕ → Option CollationKey
unfolding position latin_base letter_key
collation_key c = if is_control c then none else elim (position 0 c ascii_symbol_order) [
  | some index ↦ some (plain_key index)
  | none ↦
      if leb b'0' c && leb c b'9'
      then some (plain_key (digit_base + (c - b'0')))
      else some (letter_key c (latin_base c))
]

-- `Vec<u32>::cmp`
unfoldable pub list_cmp : List ℕ → List ℕ → Ordering
list_cmp [] [] = Ordering.eq
list_cmp [] (b ∷ bs) = Ordering.lt
list_cmp (a ∷ as') [] = Ordering.gt
list_cmp (a ∷ as') (b ∷ bs) =
    let rest = list_cmp as' bs in
    elim (compare a b) [
      | Ordering.lt ↦ Ordering.lt
      | Ordering.eq ↦ rest
      | Ordering.gt ↦ Ordering.gt
    ]

-- `Ordering::then_with`
abbrev pub then_with : Ordering → Ordering → Ordering
then_with Ordering.lt o = Ordering.lt
then_with Ordering.eq o = o
then_with Ordering.gt o = Ordering.gt

unfoldable pub compare_keys : List CollationKey → List CollationKey → Ordering
unfolding list_cmp
compare_keys a b =
    then_with
      (then_with
        (list_cmp (map (λ (k : CollationKey). k.primary) a)
          (map (λ (k : CollationKey). k.primary) b))
        (list_cmp (map (λ (k : CollationKey). k.secondary) a)
          (map (λ (k : CollationKey). k.secondary) b)))
      (list_cmp (map (λ (k : CollationKey). k.tertiary) a)
        (map (λ (k : CollationKey). k.tertiary) b))

unfoldable pub locale_compare_en : Text → Text → Ordering
unfolding compare_keys collation_key
locale_compare_en a b = compare_keys (filter_map collation_key a) (filter_map collation_key b)

-- `Greater`, and the laws by which it sorts

abbrev pub is_greater : Ordering → Bool
is_greater Ordering.gt = true
is_greater Ordering.eq = false
is_greater Ordering.lt = false

-- the order turned round
abbrev pub flip : Ordering → Ordering
flip Ordering.lt = Ordering.gt
flip Ordering.eq = Ordering.eq
flip Ordering.gt = Ordering.lt

list_cmp-flip : (a b : List ℕ) → list_cmp b a ≡ flip (list_cmp a b)
unfolding list_cmp
list_cmp-flip [] [] = refl
list_cmp-flip [] (b ∷ bs) = refl
list_cmp-flip (a ∷ as') [] = refl
list_cmp-flip (a ∷ as') (b ∷ bs) = ground (arith, list_cmp-flip as' bs)

-- a composite of two comparisons in a row: `eq` is neutral, and `lt` and `gt` are kept
abbrev pub Composes : Ordering → Ordering → Ordering → Type 0
Composes Ordering.eq o p = p ≡ o
Composes Ordering.lt Ordering.eq p = p ≡ Ordering.lt
Composes Ordering.lt Ordering.lt p = p ≡ Ordering.lt
Composes Ordering.lt Ordering.gt p = Unit
Composes Ordering.gt Ordering.eq p = p ≡ Ordering.gt
Composes Ordering.gt Ordering.gt p = p ≡ Ordering.gt
Composes Ordering.gt Ordering.lt p = Unit

lt_first : (o : Ordering) → Composes Ordering.lt o Ordering.lt
lt_first Ordering.lt = refl
lt_first Ordering.eq = refl
lt_first Ordering.gt = tt

gt_last : (o : Ordering) → Composes o Ordering.gt Ordering.gt
gt_last Ordering.lt = tt
gt_last Ordering.eq = refl
gt_last Ordering.gt = refl

list_cmp-Composes : (a b c : List ℕ) → Composes (list_cmp a b) (list_cmp b c) (list_cmp a c)
unfolding list_cmp
list_cmp-Composes [] [] [] = refl
list_cmp-Composes [] [] (z ∷ c) = refl
list_cmp-Composes [] (y ∷ b) [] = tt
list_cmp-Composes [] (y ∷ b) (z ∷ c) = lt_first _
list_cmp-Composes (x ∷ a) [] [] = refl
list_cmp-Composes (x ∷ a) [] (z ∷ c) = tt
list_cmp-Composes (x ∷ a) (y ∷ b) [] = gt_last _
list_cmp-Composes (x ∷ a) (y ∷ b) (z ∷ c) = ground (arith, list_cmp-Composes a b c)

then_with-Composes :
    (o o' p p' q q' : Ordering)
    → Composes o p q
    → Composes o' p' q'
    → Composes (then_with o o') (then_with p p') (then_with q q')
then_with-Composes o o' p p' q q' h h' = ground arith

compare_keys-Composes :
    (a b c : List CollationKey) → Composes (compare_keys a b) (compare_keys b c) (compare_keys a c)
unfolding compare_keys
compare_keys-Composes a b c = search (then_with-Composes, list_cmp-Composes)

then_with-flip :
    (o o' p p' : Ordering) → o ≡ flip p → o' ≡ flip p' → then_with o o' ≡ flip (then_with p p')
then_with-flip o o' p p' h h' = ground arith

compare_keys-flip : (a b : List CollationKey) → compare_keys b a ≡ flip (compare_keys a b)
unfolding compare_keys
compare_keys-flip a b = search (then_with-flip, list_cmp-flip)

-- Turning the two texts round turns the result of the comparison round.
pub locale_compare_en-flip : (a b : Text) → locale_compare_en b a ≡ flip (locale_compare_en a b)
unfolding locale_compare_en
locale_compare_en-flip a b =
    compare_keys-flip (filter_map collation_key a) (filter_map collation_key b)

not_greater_trans :
    (o p q : Ordering)
    → Composes o p q
    → is_greater o ≡ false
    → is_greater p ≡ false
    → is_greater q ≡ false
not_greater_trans o p q h ho hp = ground arith

-- A text that is not greater than a second one, which is not greater than a third one, is not
-- greater than the third one.
pub locale_compare_en_trans :
    (a b c : Text)
    → is_greater (locale_compare_en a b) ≡ false
    → is_greater (locale_compare_en b c) ≡ false
    → is_greater (locale_compare_en a c) ≡ false
unfolding locale_compare_en
locale_compare_en_trans a b c = not_greater_trans _ _ _ (
    compare_keys-Composes (filter_map collation_key a) (filter_map collation_key b)
      (filter_map collation_key c))
