-- ===== src/Transport/Body.antt =====
-- What an attempt reads: its body is bounded, and so is the delay of its `Retry-After`.
use psstore.Prelude.{
  ℕ, ◌+◌, ◌-◌, ◌*◌, ◌^◌, ◌≤◌, min, ◌≡◌, refl, not, ◌||◌, none, some, List, [], ◌∷◌, ◌++◌, arith,
  map, length, length-append, leb, all, is_empty, if◌then◌else◌, ap,
}
use psstore.Prelude.Texts.{Text, bytes}
use psstore.Js.Trim.{is_whitespace, trim_start, trim_end}
use psstore.Ids.Bytes.{is_digit}
use psstore.Transport.{
  max_body_bytes, read_chunks, number_of, parse_u64_or_max, parse_retry_after_value,
}

-- the chunks of a stream that ends without a failure, joined
abbrev pub joined : List (List ℕ) → List ℕ
joined [] = []
joined (chunk ∷ chunks) = chunk ++ joined chunks

append_assoc : (xs ys zs : List ℕ) → (xs ++ ys) ++ zs ≡ xs ++ (ys ++ zs)
append_assoc [] ys zs = refl
append_assoc (x ∷ xs) ys zs = ap (λ rest. x ∷ rest) (append_assoc xs ys zs)

append_nil : (xs : List ℕ) → xs ++ [] ≡ xs
append_nil [] = refl
append_nil (x ∷ xs) = ap (λ rest. x ∷ rest) (append_nil xs)

-- A stream of chunks that does not fail gives its joined chunks if they have at most 16 MiB with
-- what was read before, and nothing otherwise; what was read before has at most 16 MiB.
pub read_chunks_lem :
    (body : List ℕ) (chunks : List (List ℕ))
    → length body ≤ max_body_bytes
    → read_chunks body (map some chunks) ≡ (
        if leb (length (body ++ joined chunks)) max_body_bytes
        then some (body ++ joined chunks)
        else none)
unfolding read_chunks
read_chunks_lem body [] h = rw (append_nil body) (ground (arith, h))
read_chunks_lem body (chunk ∷ chunks) h = ground (
  arith,
  length-append body chunk,
  length-append body (chunk ++ joined chunks),
  length-append chunk (joined chunks),
  append_assoc body chunk (joined chunks),
  read_chunks_lem (body ++ chunk) chunks,
)

number_of-step : (value : ℕ) (bs : List ℕ) → value ≤ number_of value bs
unfolding number_of
number_of-step value [] = omega arith
number_of-step value (b ∷ bs) = omega (arith, number_of-step (value * 10 + (b - 48)) bs)

-- A `Retry-After` gives a delay only when its trimmed text is a non-empty run of digits, and then the
-- delay is that many seconds or the maximum, whichever is less, however long the run: for a
-- maximum that a `u64` of seconds can reach.
pub parse_retry_after_value_lem :
    (value : Text) (max : ℕ)
    → max ≤ (2 ^ 64 - 1) * 1000000000
    → parse_retry_after_value value max ≡ (
        let trimmed = bytes (trim_end is_whitespace (trim_start is_whitespace value)) in
        if is_empty trimmed || not (all is_digit trimmed)
        then none
        else some (min (number_of 0 trimmed * 1000000000) max))
unfolding parse_retry_after_value parse_u64_or_max
parse_retry_after_value_lem value max h = ground arith
