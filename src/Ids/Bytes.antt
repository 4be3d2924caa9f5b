-- ===== src/Ids/Bytes.antt =====
-- crates/domain/src/product_id.rs: the tests on one byte, those of `u8` and the three literals.
use psstore.Prelude.{ℕ, Bool, ◌&&◌, ◌==◌, leb}

-- `u8::is_ascii_uppercase`, `u8::is_ascii_digit` and the three literals
abbrev pub is_upper : ℕ → Bool
is_upper b = leb b'A' b && leb b b'Z'

abbrev pub is_digit : ℕ → Bool
is_digit b = leb b'0' b && leb b b'9'

abbrev pub is_dash : ℕ → Bool
is_dash b = b == b'-'

abbrev pub is_underscore : ℕ → Bool
is_underscore b = b == b'_'

abbrev pub is_zero : ℕ → Bool
is_zero b = b == b'0'
