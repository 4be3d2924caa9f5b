-- ===== src/Listing/Pages.antt =====
-- The pages of a list: following `next_offset` reads the whole list once.
use Prim.Native.Nat.add
use psstore.Prelude.{
  take-append-drop, ℕ, zero, suc, ◌+◌, ◌-◌, ◌^◌, ◌≤◌, ◌<◌, ◌≡◌, refl, ap, sym, ◌∙◌, inl, inr, none,
  some, List, [], ◌∷◌, ◌++◌, arith, ltb, ltb→lt, length, take, drop, Bool-cases, length-take,
  length-drop, if◌then◌else◌,
}
use mathlib.Core.List.{append-nil}
use psstore.Game.{Game}
use psstore.Listing.{paginate}

module _ {ℓ} {A : Type ℓ} where
  drop_nil : (m : ℕ) → drop {A = A} m [] ≡ []
  drop_nil zero = refl
  drop_nil (suc m) = refl

  drop-drop : (m n : ℕ) (xs : List A) → drop m (drop n xs) ≡ drop (n + m) xs
  drop-drop m zero xs = rw (add.zero m)
  drop-drop m (suc n) [] = rw (add.suc n m) (drop_nil m)
  drop-drop m (suc n) (x ∷ xs) = rw (add.suc n m) (drop-drop m n xs)

  take_of_length-le : (n : ℕ) (xs : List A) → length xs ≤ n → take n xs ≡ xs
  take_of_length-le zero [] h = refl
  take_of_length-le zero (x ∷ xs) h = absurd (omega arith)
  take_of_length-le (suc n) [] h = refl
  take_of_length-le (suc n) (x ∷ xs) h =
      ap (λ (r : List A). x ∷ r) (take_of_length-le n xs (omega arith))

-- A client that follows `next_offset` for at most `fuel` pages.
unfoldable pub read_pages : List Game → ℕ → ℕ → ℕ → List Game
read_pages games size zero offset = []
read_pages games size (suc fuel) offset =
    let page = paginate games offset size in
    page.games ++ elim page.next_offset [ none ↦ [] | some next ↦ read_pages games size fuel next ]

-- a page before the last one
paginate_inner :
    (games : List Game) (offset size : ℕ)
    → length games < 2 ^ 64
    → offset + size < length games
    → (paginate games offset size).next_offset ≡ some (offset + size)
unfolding paginate
paginate_inner games offset size fits inner = ground arith

-- the last page
paginate_last :
    (games : List Game) (offset size : ℕ)
    → length games < 2 ^ 64
    → length games ≤ offset + size
    → (paginate games offset size).next_offset ≡ none
unfolding paginate
paginate_last games offset size fits last = ground arith

games-paginate :
    (games : List Game) (offset size : ℕ)
    → (paginate games offset size).games ≡ take size (drop offset games)
unfolding paginate
games-paginate games offset size = refl

-- From any offset, the pages of a size above zero that a client reads by following `next_offset`,
-- at most one more than the cards that are left, are the rest of a list of fewer than 2 ^ 64 cards,
-- each card once and in order.
pub read_pages-drop :
    (games : List Game) (size fuel offset : ℕ)
    → length games < 2 ^ 64
    → 0 < size
    → length games - offset < fuel
    → read_pages games size fuel offset ≡ drop offset games
unfolding read_pages
read_pages-drop games size zero offset fits positive enough = absurd (omega arith)
read_pages-drop games size (suc fuel) offset fits positive enough =
    elim (Bool-cases (ltb (offset + size) (length games))) [
      | inl inner ↦
          rw
            (
              paginate_inner games offset size fits (ltb→lt _ _ inner),
              games-paginate games offset size,
            )
            (ap (λ (r : List Game). take size (drop offset games) ++ r)
                (read_pages-drop games size fuel (offset + size) fits positive
                    (omega (arith, ltb→lt (offset + size) (length games) inner))
                  ∙ sym (drop-drop size offset games))
              ∙ take-append-drop size (drop offset games))
      | inr last ↦
          let short : length games ≤ offset + size = ground arith in
          rw (paginate_last games offset size fits short, games-paginate games offset size)
            (append-nil (take size (drop offset games))
              ∙ take_of_length-le size (drop offset games)
                  (omega (arith, length-drop offset games)))
    ]

-- The page of an offset in a list of fewer than 2 ^ 64 cards: at most `size` cards, the number of all cards, and the next offset exactly
-- when cards are left behind the page.
pub paginate_lem :
    (games : List Game) (offset size : ℕ)
    → length games < 2 ^ 64
    → (length (paginate games offset size).games ≤ size)
      × ((paginate games offset size).total_count ≡ length games)
      × ((paginate games offset size).next_offset
          ≡ (if ltb (offset + size) (length games) then some (offset + size) else none))
unfolding paginate
paginate_lem games offset size fits =
    (omega (arith, length-take size (drop offset games)), refl, ground arith)
