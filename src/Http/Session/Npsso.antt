-- ===== src/Http/Session/Npsso.antt =====
-- Which texts are an NPSSO: 16 to 512 bytes, each of them safe in a cookie.
use psstore.Prelude.{ℕ, ◌≡◌, ◌≤◌, ◌↔◌, ◌⊎◌, refl, true, List, [], ◌∷◌, arith, all, All, length}
use psstore.Prelude.Texts.{Text, bytes}
use psstore.Http.Session.{is_npsso_byte, is_valid_npsso}

-- a digit, a letter, or one of `-._~`
abbrev pub IsSafeByte : ℕ → Type 0
IsSafeByte b =
    ((48 ≤ b) × (b ≤ 57))
    ⊎ ((65 ≤ b) × (b ≤ 90))
    ⊎ ((97 ≤ b) × (b ≤ 122))
    ⊎ (b ≡ 45)
    ⊎ (b ≡ 46)
    ⊎ (b ≡ 95)
    ⊎ (b ≡ 126)

abbrev pub IsNpsso : Text → Type 0
IsNpsso s = (16 ≤ length (bytes s)) × (length (bytes s) ≤ 512) × All IsSafeByte (bytes s)

is_npsso_byte-IsSafeByte : (b : ℕ) → (is_npsso_byte b ≡ true) ↔ IsSafeByte b
is_npsso_byte-IsSafeByte b = (λ h. ground (arith, h), λ h. ground (arith, h))

safe_bytes_of : (bs : List ℕ) → all is_npsso_byte bs ≡ true → All IsSafeByte bs
safe_bytes_of [] h = tt
safe_bytes_of (b ∷ bs) h =
    ((is_npsso_byte-IsSafeByte b).0 (ground (arith, h)), safe_bytes_of bs (ground (arith, h)))

all_of_safe : (bs : List ℕ) → All IsSafeByte bs → all is_npsso_byte bs ≡ true
all_of_safe [] h = refl
all_of_safe (b ∷ bs) h = ground (arith, (is_npsso_byte-IsSafeByte b).1 h.0, all_of_safe bs h.1)

pub is_valid_npsso-IsNpsso : (s : Text) → (is_valid_npsso s ≡ true) ↔ IsNpsso s
unfolding is_valid_npsso
is_valid_npsso-IsNpsso s = (
  λ h. (ground (arith, h), ground (arith, h), safe_bytes_of (bytes s) (ground (arith, h))),
  λ h. ground (arith, h.0, h.1, all_of_safe (bytes s) h.2),
)
