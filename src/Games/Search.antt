-- ===== src/Games/Search.antt =====
-- The search reads on over pages without a game, and skips no game.
use psstore.Prelude.{
  ℕ, zero, suc, ◌≡◌, refl, ◌⊎◌, inl, inr, true, false, Option, none, some, arith, Result, ok, err,
  is_empty, Bool-cases,
}
use psstore.Prelude.Int.{ℤ}
use psstore.Prelude.Texts.{Text}
use psstore.Js.Jiff.{Jiff}
use psstore.Ids.{ProductId}
use psstore.Game.{ProductDetail, SearchPage, PageResult}
use psstore.Listing.{saturating_add}
use psstore.Errors.{UpstreamError}
use psstore.Games.{games_at, next_of, search_answer, read_on, search_from, search_games}

module _ (j : Jiff) (details : ℕ → ProductId → ProductDetail) (clock : ℕ → ℤ)
    (search_page : Text → ℕ → ℕ → Result SearchPage UpstreamError) (term : Text) (size : ℕ) where
  -- Reading on from one raw offset to a later one, over pages that have no game and are not the
  -- last: each page takes one off the pages that may still be read.
  pub data Skips : ℕ → ℕ → ℕ → ℕ → Type 0 where
    stay : (more offset : ℕ) → Skips more offset more offset
    skip :
        (more offset more' offset' : ℕ) (found : SearchPage)
        → search_page term offset size ≡ ok found
        → is_empty (games_at j details clock search_page term size (suc more) found) ≡ true
        → found.is_last ≡ false
        → Skips more (saturating_add offset size) more' offset'
        → Skips (suc more) offset more' offset'

  -- the answer is that of the page where the reading ends
  pub record Answers (more offset : ℕ) (page : PageResult) : Type 0 where
    pub left : ℕ
    pub at : ℕ
    pub found : SearchPage
    pub skips : Skips more offset left at
    pub read : search_page term at size ≡ ok found
    pub answer : page ≡ search_answer j details clock search_page term size left found at
    pub ends :
        (left ≡ 0)
        ⊎ (found.is_last ≡ true)
        ⊎ (is_empty (games_at j details clock search_page term size left found) ≡ false)

  pub record Fails (more offset : ℕ) (error : UpstreamError) : Type 0 where
    pub left : ℕ
    pub at : ℕ
    pub skips : Skips more offset left at
    pub read : search_page term at size ≡ err error

  abbrev pub IsOutcome : ℕ → ℕ → Result PageResult UpstreamError → Type 0
  IsOutcome more offset (ok page) = Answers more offset page
  IsOutcome more offset (err error) = Fails more offset error

  Result-cases :
      (r : Result SearchPage UpstreamError)
      → ((found : SearchPage) × (r ≡ ok found)) ⊎ ((error : UpstreamError) × (r ≡ err error))
  Result-cases (ok found) = inl (found, refl)
  Result-cases (err error) = inr (error, refl)

  read_on-IsOutcome :
      (more offset : ℕ) (found : SearchPage) (r : Result PageResult UpstreamError)
      → search_page term offset size ≡ ok found
      → is_empty (games_at j details clock search_page term size (suc more) found) ≡ true
      → found.is_last ≡ false
      → IsOutcome more (saturating_add offset size) r
      → IsOutcome (suc more) offset r
  read_on-IsOutcome more offset found (ok page) read none_left inner h = record {
    left = h.left;
    at = h.at;
    found = h.found;
    skips = skip more offset h.left h.at found read none_left inner h.skips;
    read = h.read;
    answer = h.answer;
    ends = h.ends;
  }
  read_on-IsOutcome more offset found (err error) read none_left inner h = record {
    left = h.left;
    at = h.at;
    skips = skip more offset h.left h.at found read none_left inner h.skips;
    read = h.read;
  }

  Answers-here :
      (more offset : ℕ) (found : SearchPage)
      → search_page term offset size ≡ ok found
      → (more ≡ 0)
        ⊎ (found.is_last ≡ true)
        ⊎ (is_empty (games_at j details clock search_page term size more found) ≡ false)
      → Answers more offset (search_answer j details clock search_page term size more found offset)
  Answers-here more offset found read ends = record {
    left = more;
    at = offset;
    found = found;
    skips = stay more offset;
    read = read;
    answer = refl;
    ends = ends;
  }

  read_on_games :
      (more offset : ℕ) (found : SearchPage)
      → is_empty (games_at j details clock search_page term size more found) ≡ false
      → read_on j details clock search_page term size more found offset ≡ none
  unfolding read_on
  read_on_games more offset found h = ground (arith, h)

  read_on_last :
      (more offset : ℕ) (found : SearchPage)
      → found.is_last ≡ true
      → read_on j details clock search_page term size more found offset ≡ none
  unfolding read_on next_of
  read_on_last more offset found h = ground (arith, h)

  read_on_next :
      (more offset : ℕ) (found : SearchPage)
      → is_empty (games_at j details clock search_page term size more found) ≡ true
      → found.is_last ≡ false
      → read_on j details clock search_page term size more found offset
        ≡ some (saturating_add offset size)
  unfolding read_on next_of
  read_on_next more offset found h inner = ground (arith, h)

  after_page :
      (more offset : ℕ) (found : SearchPage) (o : Option ℕ)
      → search_page term offset size ≡ ok found
      → read_on j details clock search_page term size (suc more) found offset ≡ o
      → search_from j details clock search_page term size (suc more) offset ≡ elim o [
        | none ↦ ok (search_answer j details clock search_page term size (suc more) found offset)
        | some next ↦ search_from j details clock search_page term size more next
      ]
  unfolding search_from
  after_page more offset found o read h = rw (← h, read, search_from) refl

  search_from-IsOutcome :
      (more offset : ℕ)
      → IsOutcome more offset (search_from j details clock search_page term size more offset)
  unfolding search_from
  search_from-IsOutcome zero offset = elim (Result-cases (search_page term offset size)) [
    | inr (error, failed) ↦
        rw (failed, search_from)
          (record { left = zero; at = offset; skips = stay zero offset; read = failed })
    | inl (found, read) ↦ rw (read, search_from) (Answers-here zero offset found read (inl refl))
  ]
  search_from-IsOutcome (suc more) offset = elim (Result-cases (search_page term offset size)) [
    | inr (error, failed) ↦
        rw (failed, search_from)
          (record { left = suc more; at = offset; skips = stay (suc more) offset; read = failed })
    | inl (found, read) ↦
        elim (Bool-cases
          (is_empty (games_at j details clock search_page term size (suc more) found))) [
            | inr some_games ↦
                rw
                  (after_page more offset found _ read
                    (read_on_games (suc more) offset found some_games))
                  (Answers-here (suc more) offset found read (inr (inr some_games)))
            | inl no_games ↦ elim (Bool-cases found.is_last) [
              | inl last ↦
                  rw
                    (after_page more offset found _ read
                      (read_on_last (suc more) offset found last))
                    (Answers-here (suc more) offset found read (inr (inl last)))
              | inr inner ↦
                  rw
                    (after_page more offset found _ read
                      (read_on_next (suc more) offset found no_games inner))
                    (read_on-IsOutcome more offset found _ read no_games inner
                      (search_from-IsOutcome more (saturating_add offset size)))
            ]
          ]
  ]

  -- A search ends with the answer of one raw page, or with the failure of reading one: every raw page
  -- before it has no game and is not the last, and at most two are skipped. The page that answers has
  -- games, is the last, or is the third.
  pub search_games_lem :
      (offset : ℕ) → IsOutcome 2 offset (search_games j details clock search_page term size offset)
  unfolding search_games
  search_games_lem offset = search_from-IsOutcome 2 offset
