-- ===== src/Http/Params/Bounds.antt =====
-- What a request that is accepted can ask for.
use psstore.Prelude.{
  ℕ, ◌≤◌, ◌≡◌, ◌⊎◌, refl, inl, inr, not, ◌||◌, Option, none, some, List, [], ◌∷◌, Result, ok, err,
  ◌>>=◌, arith, filter, length, ltb, ◌==◌, Bool-cases,
}
use psstore.Prelude.Texts.{Text, text, text_eq}
use psstore.Js.Trim.{js_trim, js_trim-js_trim}
use psstore.Sony.Json.{ok_or}
use psstore.Http.Params.{
  InvalidRequest, invalid, Page, Float, only_value, single, utf16_len, js_number, checked_integer,
  integer_in, integer_or, offset_of, size_of, page_of, parse_query, pagination, search_term, search,
  default_page_size, max_page_size, search_max_page_size, search_max_term_length,
}

-- an accepted result satisfies a predicate
abbrev pub Accepted {ℓ} : {A : Type ℓ} → (A → Type 0) → Result A InvalidRequest → Type 0
Accepted P (ok a) = P a
Accepted P (err e) = Unit

Accepted-bind :
    {A B : Type 0} (P : A → Type 0) (Q : B → Type 0) (f : A → Result B InvalidRequest)
    → ((a : A) → P a → Accepted Q (f a))
    → (r : Result A InvalidRequest) → Accepted P r
    → Accepted Q (r >>= f)
Accepted-bind P Q f h (ok a) k = h a k
Accepted-bind P Q f h (err e) k = tt

Accepted-any : {A : Type 0} (r : Result A InvalidRequest) → Accepted (λ a. Unit) r
Accepted-any (ok a) = tt
Accepted-any (err e) = tt

only_value_repeated :
    (pairs : List (Text × Text)) → 2 ≤ length pairs → only_value pairs ≡ err invalid
unfolding only_value
only_value_repeated [] h = absurd (omega arith)
only_value_repeated (pair ∷ []) h = absurd (omega arith)
only_value_repeated (pair ∷ again ∷ more) h = refl

single_repeated :
    (pairs : List (Text × Text)) (key : Text)
    → 2 ≤ length (filter (λ (pair : Text × Text). text_eq pair.0 key) pairs)
    → single pairs key ≡ err invalid
unfolding single
single_repeated pairs key h =
    only_value_repeated (filter (λ (pair : Text × Text). text_eq pair.0 key) pairs) h

module _ (float : Float) where
  -- from the least value to the greatest
  abbrev pub InRange : ℕ → ℕ → ℕ → Type 0
  InRange min max value = (min ≤ value) × (value ≤ max)

  checked_integer-InRange :
      (min max : ℕ) (value : float.F)
      → Accepted (InRange min max) (checked_integer float min (some max) value)
  unfolding checked_integer
  checked_integer-InRange min max value =
      elim (Bool-cases (
        not (float.is_finite value) || not (float.is_integral value) || float.exceeds_safe value)) [
          | inl unsafe ↦ rw unsafe tt
          | inr safe ↦ elim (Bool-cases (float.is_negative value)) [
            | inl negative ↦ rw (safe, negative) tt
            | inr natural ↦
                elim (Bool-cases (ltb (float.to_u64 value) min || ltb max (float.to_u64 value))) [
                  | inl outside ↦ rw (safe, natural, outside) tt
                  | inr inside ↦
                      rw (safe, natural, inside) (ground (arith, inside), ground (arith, inside))
                ]
          ]
        ]

  size_of-InRange :
      (pairs : List (Text × Text)) (default max : ℕ)
      → 1 ≤ default
      → default ≤ max
      → Accepted (InRange 1 max) (size_of float pairs default max)
  unfolding size_of integer_in
  size_of-InRange pairs default max low high =
      Accepted-bind (λ found. Unit) (InRange 1 max) (integer_or float default 1 (some max)) given
        (single pairs (text "size")) (Accepted-any (single pairs (text "size")))
    where
      given :
          (found : Option Text)
          → Unit {0}
          → Accepted (InRange 1 max) (integer_or float default 1 (some max) found)
      given none k = (low, high)
      given (some s) k =
          Accepted-bind (λ value. Unit) (InRange 1 max) (checked_integer float 1 (some max))
            (λ value u. checked_integer-InRange 1 max value) (ok_or invalid (js_number float s))
            (Accepted-any (ok_or invalid (js_number float s)))

  page_of-InRange :
      (pairs : List (Text × Text)) (default max : ℕ)
      → 1 ≤ default
      → default ≤ max
      → Accepted (λ page. InRange 1 max page.size) (page_of float pairs default max)
  unfolding page_of
  page_of-InRange pairs default max low high =
      Accepted-bind (λ offset. Unit) (λ (page : Page). InRange 1 max page.size)
        (λ offset.
          size_of float pairs default max >>= λ size. ok (record { offset = offset; size = size }))
        (λ offset u.
          Accepted-bind (InRange 1 max) (λ (page : Page). InRange 1 max page.size)
            (λ size. ok (record { offset = offset; size = size })) (λ size k. k)
            (size_of float pairs default max) (size_of-InRange pairs default max low high))
        (offset_of float pairs) (Accepted-any (offset_of float pairs))

  offset_of_repeated :
      (pairs : List (Text × Text))
      → 2 ≤ length (filter (λ (pair : Text × Text). text_eq pair.0 (text "offset")) pairs)
      → offset_of float pairs ≡ err invalid
  unfolding offset_of
  offset_of_repeated pairs h = rw (single_repeated pairs (text "offset") h) refl

  size_of_repeated :
      (pairs : List (Text × Text))
      → 2 ≤ length (filter (λ (pair : Text × Text). text_eq pair.0 (text "size")) pairs)
      → size_of float pairs default_page_size max_page_size ≡ err invalid
  unfolding size_of
  size_of_repeated pairs h = rw (single_repeated pairs (text "size") h) refl

  module _ (decode : Text → List (Text × Text)) where
    -- A list request that is accepted asks for a page of 1 to 120 cards.
    pub pagination-InRange :
        (raw : Option Text)
        → Accepted (λ page. InRange 1 max_page_size page.size) (pagination float decode raw)
    unfolding pagination
    pagination-InRange raw =
        page_of-InRange (parse_query float decode raw) default_page_size max_page_size (omega arith)
          (omega arith)

    -- a trimmed term of 1 to 100 code units, and a page of 1 to 50 entries
    pub record IsSearch (term : Text) (page : Page) : Type 0 where
      pub trimmed : js_trim term ≡ term
      pub length : InRange 1 search_max_term_length (utf16_len term)
      pub size : InRange 1 search_max_page_size page.size

    search_term-IsSearch :
        (pairs : List (Text × Text)) (term : Text)
        → js_trim term ≡ term
        → Accepted (λ found. IsSearch found.0 found.1) (search_term float decode pairs term)
    unfolding search_term
    search_term-IsSearch pairs term trimmed =
        elim (Bool-cases (utf16_len term == 0 || ltb search_max_term_length (utf16_len term))) [
          | inl outside ↦ rw outside tt
          | inr inside ↦ rw inside (
              Accepted-bind (λ (page : Page). InRange 1 search_max_page_size page.size)
                (λ (found : Text × Page). IsSearch found.0 found.1) (λ page. ok (term, page))
                (λ page size. record {
                  trimmed = trimmed;
                  length = (ground (arith, inside), ground (arith, inside));
                  size = size;
                })
                (page_of float pairs search_max_page_size search_max_page_size)
                (page_of-InRange pairs search_max_page_size search_max_page_size (omega arith)
                  (omega arith)))
        ]

    -- A search request that is accepted has a trimmed term of 1 to 100 UTF-16 code units and asks for a
    -- page of 1 to 50 entries, the most that Sony accepts.
    pub search-IsSearch :
        (raw : Option Text) → Accepted (λ found. IsSearch found.0 found.1) (search float decode raw)
    unfolding search
    search-IsSearch raw =
        Accepted-bind (λ found. Unit) (λ (found : Text × Page). IsSearch found.0 found.1) _
          (λ found u.
            Accepted-bind (λ q. Unit) (λ (found : Text × Page). IsSearch found.0 found.1) _
              (λ q v.
                search_term-IsSearch (parse_query float decode raw) (js_trim q) (js_trim-js_trim q))
              (ok_or invalid found) (Accepted-any (ok_or invalid found)))
          (single (parse_query float decode raw) (text "q"))
          (Accepted-any (single (parse_query float decode raw) (text "q")))

    -- A list request with a repeated `offset` or `size` is not accepted.
    pub pagination_repeated :
        (raw : Text) (key : Text)
        → (key ≡ text "offset") ⊎ (key ≡ text "size")
        → 2 ≤ length (filter (λ (pair : Text × Text). text_eq pair.0 key) (decode raw))
        → pagination float decode (some raw) ≡ err invalid
    unfolding pagination page_of
    pagination_repeated raw key (inl is_offset) h =
        rw (offset_of_repeated (decode raw) (rw (← is_offset) h), pagination, page_of, parse_query)
          refl
    pagination_repeated raw key (inr is_size) h = go (offset_of float (decode raw))
      where
        go :
            (r : Result ℕ InvalidRequest)
            → ◌>>=◌ {B = Page} r (λ offset.
              size_of float (decode raw) default_page_size max_page_size >>= λ size.
              ok (record { offset = offset; size = size }))
              ≡ err invalid
        go (ok offset) = rw (size_of_repeated (decode raw) (rw (← is_size) h)) refl
        go (err invalid) = refl
