-- ===== src/Games/Browse/Outcome.antt =====
-- A BROWSE page never shows an outage as an empty genre, and skips no page that has a game.
use mathlib.Core.List.{Sublist}
use psstore.Prelude.{
  [], ◌∷◌, filter_map, find?, ℕ, zero, suc, ◌≡◌, refl, ◌⊎◌, inl, inr, true, false, not, ◌&&◌,
  Option, none, some, List, arith, Result, ok, err, any, is_empty, length, Bool-cases,
  if◌then◌else◌,
}
use psstore.Prelude.Texts.{Text, text, Text-discrete}
use psstore.Prelude.Dedupe.{
  has_key, DistinctKeys, dedupe, dedupe-DistinctKeys, find-dedupe, dedupe-sublist,
}
use psstore.Ids.{then_some}
use psstore.Js.Jiff.{Jiff}
use psstore.Game.{Game, BrowsePage, BrowseRequest, PageResult}
use psstore.Listing.{saturating_add}
use psstore.Errors.{UpstreamError, unavailable}
use psstore.Prelude.Actions.{Attempt, ◌>>=◌, ◌>=?◌, pure, for_each}
use psstore.Games.Port.{Port, clock}
use psstore.Games.Browse.{
  BrowseResolution, card_of_resolution, is_failed, resolved_games, browse_answer, next_if_empty,
  resolve_browse_concept, read_browse, read_browse_page,
}

-- the cards that the lookups of a raw page give
abbrev pub cards_of : List BrowseResolution → List Game
cards_of entries = filter_map card_of_resolution entries

-- the first card of each id, in order
pub record AreFirst (cards games : List Game) : Type 0 where
  pub part : Sublist games cards
  pub distinct : DistinctKeys Text-discrete (λ (game : Game). game.id.as_str) games
  pub first_of_id :
      (id : Text)
      → find? (has_key Text-discrete (λ (game : Game). game.id.as_str) id) games
        ≡ find? (has_key Text-discrete (λ (game : Game). game.id.as_str) id) cards

resolved_games-AreFirst :
    (entries : List BrowseResolution) → AreFirst (cards_of entries) (resolved_games entries)
unfolding resolved_games
resolved_games-AreFirst entries =
    let key : Game → Text = λ (game : Game). game.id.as_str in
    record {
      part = dedupe-sublist Text-discrete key (cards_of entries);
      distinct = dedupe-DistinctKeys Text-discrete key (cards_of entries);
      first_of_id = λ id. find-dedupe Text-discrete key id (cards_of entries);
    }

dedupe-empty :
    (cards : List Game)
    → is_empty (dedupe Text-discrete (λ (game : Game). game.id.as_str) cards) ≡ is_empty cards
unfolding dedupe psstore.Prelude.Dedupe.dedupe_from psstore.Prelude.Dedupe.seen_before
dedupe-empty [] = refl
dedupe-empty (card ∷ cards) = refl

resolved_games-empty :
    (entries : List BrowseResolution)
    → is_empty (resolved_games entries) ≡ is_empty (cards_of entries)
unfolding resolved_games
resolved_games-empty entries = dedupe-empty (cards_of entries)

-- a raw page has an answer unless a lookup failed and no concept became a card
browse_answer_cases :
    (request : BrowseRequest) (page : BrowsePage) (entries : List BrowseResolution)
    → ((answer : PageResult) × (browse_answer request page entries ≡ ok answer)
        × AreFirst (cards_of entries) answer.games
        × (is_empty answer.games ≡ is_empty (cards_of entries))
        × (answer.next_offset
            ≡ (if page.is_last then none else some (saturating_add request.offset request.size)))
        × (is_empty (cards_of entries) ≡ true → any is_failed entries ≡ false))
      ⊎ ((browse_answer request page entries
            ≡ err (unavailable (text "Sony product lookups failed for a browse page")))
          × (any is_failed entries ≡ true)
          × (is_empty (cards_of entries) ≡ true))
unfolding browse_answer
browse_answer_cases request page entries =
    let same = resolved_games-empty entries in
    elim (Bool-cases (any is_failed entries && is_empty (resolved_games entries))) [
      | inl outage ↦ inr (ground (arith, same, outage))
      | inr usable ↦ inl (
        record {
          games = resolved_games entries;
          total_count = length (resolved_games entries);
          next_offset = then_some (not page.is_last) (saturating_add request.offset request.size);
        },
        rw usable refl,
        resolved_games-AreFirst entries,
        same,
        ground arith,
        λ h. ground (arith, same, usable, h),
      )
    ]

module _ {W : Type 0} (j : Jiff) (port : Port W) where
  -- One raw page is read: its concepts, and what their lookups give.
  pub record Reads (request : BrowseRequest) (w w' : W) (page : BrowsePage)
      (entries : List BrowseResolution) : Type 0 where
    pub between : W
    pub read : port.browse_page request w ≡ (ok page, between)
    pub looked_up :
        for_each (resolve_browse_concept j port (port.now_ms between)) page.concepts between
        ≡ (entries, w')

  -- Reading on over raw pages without a card: no lookup of theirs failed, and none is the last page.
  pub data Passes : ℕ → BrowseRequest → W → ℕ → BrowseRequest → W → Type 0 where
    stay : (more : ℕ) (request : BrowseRequest) (w : W) → Passes more request w more request w
    pass :
        (more : ℕ) (request : BrowseRequest) (w w' : W) (page : BrowsePage)
        (entries : List BrowseResolution) (more' : ℕ) (request' : BrowseRequest) (v : W)
        → Reads request w w' page entries
        → is_empty (cards_of entries) ≡ true
        → any is_failed entries ≡ false
        → page.is_last ≡ false
        → Passes more
            (record request { offset = saturating_add request.offset request.size })
            w'
            more'
            request'
            v
        → Passes (suc more) request w more' request' v

  pub record Answers (more : ℕ) (request : BrowseRequest) (w : W) (answer : PageResult)
      : Type 0 where
    pub left : ℕ
    pub last : BrowseRequest
    pub before : W
    pub after : W
    pub page : BrowsePage
    pub entries : List BrowseResolution
    pub passes : Passes more request w left last before
    pub reads : Reads last before after page entries
    pub games : AreFirst (cards_of entries) answer.games
    pub next :
        answer.next_offset
        ≡ (if page.is_last then none else some (saturating_add last.offset last.size))
    pub empty_only : is_empty answer.games ≡ is_empty (cards_of entries)
    pub sound : is_empty answer.games ≡ true → any is_failed entries ≡ false
    pub ends : (left ≡ 0) ⊎ (page.is_last ≡ true) ⊎ (is_empty answer.games ≡ false)

  pub data Fails (more : ℕ) (request : BrowseRequest) (w : W) : UpstreamError → Type 0 where
    page_failed :
        (left : ℕ) (last : BrowseRequest) (before after : W) (error : UpstreamError)
        → Passes more request w left last before
        → port.browse_page last before ≡ (err error, after)
        → Fails more request w error
    lookups_failed :
        (left : ℕ) (last : BrowseRequest) (before after : W) (page : BrowsePage)
        (entries : List BrowseResolution)
        → Passes more request w left last before
        → Reads last before after page entries
        → any is_failed entries ≡ true
        → is_empty (cards_of entries) ≡ true
        → Fails more request w (unavailable (text "Sony product lookups failed for a browse page"))

  abbrev pub IsOutcome : ℕ → BrowseRequest → W → Result PageResult UpstreamError × W → Type 0
  IsOutcome more request w (ok answer, w') = Answers more request w answer
  IsOutcome more request w (err error, w') = Fails more request w error

  -- where the reading ends
  last_page :
      (more : ℕ) (request : BrowseRequest) (w w' : W) (page : BrowsePage)
      (entries : List BrowseResolution) (answer : PageResult)
      → Reads request w w' page entries
      → AreFirst (cards_of entries) answer.games
      → answer.next_offset
        ≡ (if page.is_last then none else some (saturating_add request.offset request.size))
      → is_empty answer.games ≡ is_empty (cards_of entries)
      → (is_empty (cards_of entries) ≡ true → any is_failed entries ≡ false)
      → (more ≡ 0) ⊎ (page.is_last ≡ true) ⊎ (is_empty answer.games ≡ false)
      → Answers more request w answer
  last_page more request w w' page entries answer reads games next same sound ends = record {
    left = more;
    last = request;
    before = w;
    after = w';
    page = page;
    entries = entries;
    passes = stay more request w;
    reads = reads;
    games = games;
    next = next;
    empty_only = same;
    sound = λ h. sound (rw (← same) h);
    ends = ends;
  }

  Fails-after :
      (more : ℕ) (request : BrowseRequest) (w w' : W) (page : BrowsePage)
      (entries : List BrowseResolution) {error : UpstreamError}
      → Reads request w w' page entries
      → is_empty (cards_of entries) ≡ true
      → any is_failed entries ≡ false
      → page.is_last ≡ false
      → Fails more (record request { offset = saturating_add request.offset request.size }) w' error
      → Fails (suc more) request w error
  Fails-after more request w w' page entries reads none_left clean inner
        (page_failed left last before after error passes failed) =
      page_failed left last before after error
        (pass more request w w' page entries left last before reads none_left clean inner passes)
        failed
  Fails-after more request w w' page entries reads none_left clean inner
        (lookups_failed left last before after p es passes rs some_failed none_kept) =
      lookups_failed left last before after p es
        (pass more request w w' page entries left last before reads none_left clean inner passes) rs
        some_failed none_kept

  -- a page that is passed comes before what follows it
  after_pass :
      (more : ℕ) (request : BrowseRequest) (w w' : W) (page : BrowsePage)
      (entries : List BrowseResolution) (r : Result PageResult UpstreamError × W)
      → Reads request w w' page entries
      → is_empty (cards_of entries) ≡ true
      → any is_failed entries ≡ false
      → page.is_last ≡ false
      → IsOutcome more (record request { offset = saturating_add request.offset request.size }) w' r
      → IsOutcome (suc more) request w r
  after_pass more request w w' page entries (ok answer, v) reads none_left clean inner h = record {
    left = h.left;
    last = h.last;
    before = h.before;
    after = h.after;
    page = h.page;
    entries = h.entries;
    passes =
        pass more request w w' page entries h.left h.last h.before reads none_left clean inner
          h.passes;
    reads = h.reads;
    games = h.games;
    next = h.next;
    empty_only = h.empty_only;
    sound = h.sound;
    ends = h.ends;
  }
  after_pass more request w w' page entries (err error, v) reads none_left clean inner h =
      Fails-after more request w w' page entries reads none_left clean inner h

  final_answer :
      (more : ℕ) (request : BrowseRequest) (w w' : W) (page : BrowsePage)
      (entries : List BrowseResolution)
      → Reads request w w' page entries
      → more ≡ 0
      → IsOutcome more request w (browse_answer request page entries, w')
  final_answer more request w w' page entries reads last =
      elim (browse_answer_cases request page entries) [
        | inl (answer, is_ok, games, same, next_offset, sound) ↦ rw is_ok (
            last_page more request w w' page entries answer reads games next_offset same sound
              (inl last))
        | inr (is_err, some_failed, none_kept) ↦ rw is_err (
            lookups_failed more request w w' page entries (stay more request w) reads some_failed
              none_kept)
      ]

  next_games : (answer : PageResult) → is_empty answer.games ≡ false → next_if_empty answer ≡ none
  next_games answer h = rw h refl

  next_last :
      (answer : PageResult) (page : BrowsePage) (next : ℕ)
      → answer.next_offset ≡ (if page.is_last then none else some next)
      → page.is_last ≡ true
      → next_if_empty answer ≡ none
  next_last answer page next offset last = ground (arith, offset, last)

  next_inner :
      (answer : PageResult) (page : BrowsePage) (next : ℕ)
      → answer.next_offset ≡ (if page.is_last then none else some next)
      → page.is_last ≡ false
      → is_empty answer.games ≡ true
      → next_if_empty answer ≡ some next
  next_inner answer page next offset inner empty = ground (arith, offset, inner, empty)

  -- what follows the answer of a raw page
  abbrev after_answer :
      ℕ → BrowseRequest → PageResult → Option ℕ → Attempt W PageResult UpstreamError
  after_answer more request answer none = pure (ok answer)
  after_answer more request answer (some next) =
      read_browse j port more (record request { offset = next })

  unfoldable after_result :
      ℕ → BrowseRequest → Result PageResult UpstreamError → Attempt W PageResult UpstreamError
  after_result more request r = pure r >=? λ answer. elim (next_if_empty answer) [
    | none ↦ pure (ok answer)
    | some next ↦ read_browse j port more (record request { offset = next })
  ]

  after_result-ok :
      (more : ℕ) (request : BrowseRequest) (w : W) (r : Result PageResult UpstreamError)
      (answer : PageResult) (o : Option ℕ)
      → r ≡ ok answer
      → next_if_empty answer ≡ o
      → after_result more request r w ≡ after_answer more request answer o w
  unfolding after_result
  after_result-ok more request w r answer none is_ok next = rw (is_ok, next) refl
  after_result-ok more request w r answer (some offset) is_ok next = rw (is_ok, next) refl

  after_result-err :
      (more : ℕ) (request : BrowseRequest) (w : W) (r : Result PageResult UpstreamError)
      (error : UpstreamError)
      → r ≡ err error
      → after_result more request r w ≡ (err error, w)
  unfolding after_result
  after_result-err more request w r error is_err = rw is_err refl

  read_on-IsOutcome :
      (more : ℕ) (request : BrowseRequest) (w w' : W) (page : BrowsePage)
      (entries : List BrowseResolution)
      → Reads request w w' page entries
      → ((r : BrowseRequest) (v : W) → IsOutcome more r v (read_browse j port more r v))
      → IsOutcome
          (suc more)
          request
          w
          (after_result more request (browse_answer request page entries) w')
  read_on-IsOutcome more request w w' page entries reads rest =
      elim (browse_answer_cases request page entries) [
        | inr (is_err, some_failed, none_kept) ↦ rw (after_result-err more request w' _ _ is_err) (
            lookups_failed (suc more) request w w' page entries (stay (suc more) request w) reads
              some_failed none_kept)
        | inl (answer, is_ok, games, same, next_offset, sound) ↦
            elim (Bool-cases (is_empty answer.games)) [
              | inr some_games ↦
                  rw
                    (after_result-ok more request w' _ answer _ is_ok
                      (next_games answer some_games))
                    (last_page (suc more) request w w' page entries answer reads games next_offset
                      same sound (inr (inr some_games)))
              | inl no_games ↦ elim (Bool-cases page.is_last) [
                | inl last ↦
                    rw
                      (after_result-ok more request w' _ answer _ is_ok
                        (next_last answer page _ next_offset last))
                      (last_page (suc more) request w w' page entries answer reads games next_offset
                        same sound (inr (inl last)))
                | inr inner ↦
                    rw
                      (after_result-ok more request w' _ answer _ is_ok
                        (next_inner answer page _ next_offset inner no_games))
                      (after_pass more request w w' page entries _ reads (rw (← same) no_games)
                        (sound (rw (← same) no_games)) inner
                        (rest
                          (record request { offset = saturating_add request.offset request.size })
                          w'))
              ]
            ]
      ]

  read_browse-IsOutcome :
      (more : ℕ) (request : BrowseRequest) (w : W)
      → IsOutcome more request w (read_browse j port more request w)
  unfolding read_browse after_result
  read_browse-IsOutcome zero request w = go (port.browse_page request w) refl
    where
      go :
          (p : Result BrowsePage UpstreamError × W)
          → port.browse_page request w ≡ p
          → IsOutcome zero request w (
              ((λ v. p) >=? λ page. clock port >>= λ now_ms.
              for_each (resolve_browse_concept j port now_ms) page.concepts >>= λ entries.
              pure (browse_answer request page entries))
                w)
      go (ok page, w') h =
          let (entries, w'') =
            for_each (resolve_browse_concept j port (port.now_ms w')) page.concepts w' in
          final_answer zero request w w'' page entries
            (record { between = w'; read = h; looked_up = refl }) refl
      go (err error, w') h = page_failed zero request w w' error (stay zero request w) h
  read_browse-IsOutcome (suc more) request w =
      go (λ r v. read_browse-IsOutcome more r v) (port.browse_page request w) refl
    where
      go :
          ((r : BrowseRequest) (v : W) → IsOutcome more r v (read_browse j port more r v))
          → (p : Result BrowsePage UpstreamError × W) → port.browse_page request w ≡ p
          → IsOutcome (suc more) request w (
              ((λ v. p) >=? λ page. clock port >>= λ now_ms.
              for_each (resolve_browse_concept j port now_ms) page.concepts >>= λ entries.
              pure (browse_answer request page entries) >=? λ answer. elim (next_if_empty answer) [
                | none ↦ pure (ok answer)
                | some next ↦ read_browse j port more (record request { offset = next })
              ])
                w)
      go rest (ok page, w') h =
          let (entries, w'') =
            for_each (resolve_browse_concept j port (port.now_ms w')) page.concepts w' in
          read_on-IsOutcome more request w w'' page entries
            (record { between = w'; read = h; looked_up = refl }) rest
      go rest (err error, w') h =
          page_failed (suc more) request w w' error (stay (suc more) request w) h

  -- BROWSE answers with the first card of each id of one raw page, in order, and only if it has a card or none of
  -- its lookups failed. Every raw page before it has no card, had no failed lookup and is not the
  -- last; at most two are passed, and the page that answers has a card, is the last, or is the third. The
  -- next offset is that of the raw page after it, unless it is the last.
  -- It fails only if a raw page cannot be read, or has failed lookups and no card.
  pub read_browse_page-IsOutcome :
      (request : BrowseRequest) (w : W) → IsOutcome 2 request w (read_browse_page j port request w)
  unfolding read_browse_page
  read_browse_page-IsOutcome request w = read_browse-IsOutcome 2 request w
