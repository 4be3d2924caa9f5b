-- ===== src/Js/Trim.antt =====
-- crates/domain/src/js.rs: `js_trim`.
use psstore.Prelude.{
  ℕ, ◌≡◌, refl, Bool, false, ◌&&◌, ◌||◌, not, [], ◌∷◌, ◌==◌, leb, is_empty, arith, if◌then◌else◌,
}
use psstore.Prelude.Texts.{Text}

-- `char::is_whitespace`: the property `White_Space`
abbrev pub is_whitespace : ℕ → Bool
is_whitespace c =
    leb 0x9 c && leb c 0xd
    || c == 0x20
    || c == 0x85
    || c == 0xa0
    || c == 0x1680
    || leb 0x2000 c && leb c 0x200a
    || c == 0x2028
    || c == 0x2029
    || c == 0x202f
    || c == 0x205f
    || c == 0x3000

-- the closure of `js_trim`
unfoldable pub is_js_space : ℕ → Bool
is_js_space c = is_whitespace c && not (c == 0x85) || c == 0xfeff

-- `str::trim_matches`, from the front and from the back
unfoldable pub trim_start : (ℕ → Bool) → Text → Text
trim_start p [] = []
trim_start p (c ∷ s) = let rest = trim_start p s in if p c then rest else c ∷ s

unfoldable pub trim_end : (ℕ → Bool) → Text → Text
trim_end p [] = []
trim_end p (c ∷ s) = let rest = trim_end p s in if is_empty rest && p c then [] else c ∷ rest

unfoldable pub js_trim : Text → Text
unfolding trim_start trim_end
js_trim s = trim_end is_js_space (trim_start is_js_space s)

-- the first character is not trimmed
abbrev pub StartsPlain : (ℕ → Bool) → Text → Type 0
StartsPlain p [] = Unit
StartsPlain p (c ∷ s) = p c ≡ false

trim_start-StartsPlain : (p : ℕ → Bool) (s : Text) → StartsPlain p (trim_start p s)
unfolding trim_start
trim_start-StartsPlain p [] = tt
trim_start-StartsPlain p (c ∷ s) = ground (arith, trim_start-StartsPlain p s)

trim_end-StartsPlain : (p : ℕ → Bool) (s : Text) → StartsPlain p s → StartsPlain p (trim_end p s)
unfolding trim_end
trim_end-StartsPlain p [] h = tt
trim_end-StartsPlain p (c ∷ s) h = ground arith

trim_start_plain : (p : ℕ → Bool) (s : Text) → StartsPlain p s → trim_start p s ≡ s
unfolding trim_start
trim_start_plain p [] h = refl
trim_start_plain p (c ∷ s) h = ground arith

trim_end-trim_end : (p : ℕ → Bool) (s : Text) → trim_end p (trim_end p s) ≡ trim_end p s
unfolding trim_end
trim_end-trim_end p [] = refl
trim_end-trim_end p (c ∷ s) = ground (arith, trim_end-trim_end p s)

-- A trimmed text has nothing left to trim.
pub js_trim-js_trim : (s : Text) → js_trim (js_trim s) ≡ js_trim s
unfolding js_trim
js_trim-js_trim s =
    let p = is_js_space in
    rw (
      trim_start_plain p (trim_end p (trim_start p s))
          (trim_end-StartsPlain p (trim_start p s) (trim_start-StartsPlain p s)),
      trim_end-trim_end p (trim_start p s),
    )
