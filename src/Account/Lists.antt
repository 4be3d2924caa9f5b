-- ===== src/Account/Lists.antt =====
-- The signed-in lists keep every entry of Sony, whatever the lookups answer.
use psstore.Prelude.{
  suc, ◌≡◌, refl, ap, Option, none, some, List, [], ◌∷◌, Result, ok, err, map, length,
}
use psstore.Prelude.Texts.{Text}
use psstore.Prelude.Actions.{◌>>=◌, ◌>=?◌, pure, for_each}
use psstore.Game.{Game, PageResult}
use psstore.Library.{WishlistEntry, wish_text, wishlist_cards, merge_wishlist_entry}
use psstore.Library.Cards.{merge_wishlist_entry_lem}
use psstore.Errors.{AccountError}
use psstore.Account.{Port, whole_page, find_entry, enrich_entry, enrich_wishlist, wishlist}

abbrev pub card_ids : List Game → List Text
card_ids games = map (λ (game : Game). game.id.as_str) games

abbrev pub wish_ids : List WishlistEntry → List Text
wish_ids entries = map (λ (entry : WishlistEntry). wish_text entry.id) entries

minimal_ids : (entries : List WishlistEntry) → card_ids (wishlist_cards entries) ≡ wish_ids entries
unfolding wishlist_cards merge_wishlist_entry
minimal_ids [] = refl
minimal_ids (entry ∷ entries) = cc ((merge_wishlist_entry_lem entry none).0, minimal_ids entries)

length-card_ids : (games : List Game) → length (card_ids games) ≡ length games
length-card_ids [] = refl
length-card_ids (game ∷ games) = ap (λ n. suc n) (length-card_ids games)

length-wish_ids : (entries : List WishlistEntry) → length (wish_ids entries) ≡ length entries
length-wish_ids [] = refl
length-wish_ids (entry ∷ entries) = ap (λ n. suc n) (length-wish_ids entries)

page_count :
    (games : List Game) (entries : List WishlistEntry)
    → card_ids games ≡ wish_ids entries
    → length games ≡ length entries
page_count games entries h = cc (length-card_ids games, length-wish_ids entries, h)

module _ {W : Type 0} (port : Port W) where
  enrich_entry_id :
      (entry : WishlistEntry) (w : W) → (enrich_entry port entry w).0.id.as_str ≡ wish_text entry.id
  unfolding enrich_entry
  enrich_entry_id entry w = (merge_wishlist_entry_lem entry (find_entry port entry.id w).0).0

  for_each_ids :
      (entries : List WishlistEntry) (w : W)
      → card_ids (for_each (enrich_entry port) entries w).0 ≡ wish_ids entries
  unfolding for_each
  for_each_ids [] w = refl
  for_each_ids (entry ∷ entries) w =
      cc (enrich_entry_id entry w, for_each_ids entries (enrich_entry port entry w).1)

  enrich_wishlist_ids :
      (entries : List WishlistEntry) (w : W)
      → card_ids (enrich_wishlist port entries w).0 ≡ wish_ids entries
  unfolding enrich_wishlist
  enrich_wishlist_ids entries w = go (port.time_up entries w)
    where
      go :
          (o : Option W)
          → card_ids
              (elim o as (λ x. List Game × W) [
                | some w' ↦ (wishlist_cards entries, w')
                | none ↦ for_each (enrich_entry port) entries w
              ]).0
            ≡ wish_ids entries
      go none = for_each_ids entries w
      go (some w') = minimal_ids entries

  -- the page of a wishlist that Sony listed
  pub record IsWishlist (npsso : Text) (w : W) (page : PageResult) : Type 0 where
    pub token : Text
    pub entries : List WishlistEntry
    pub exchanged : W
    pub listed : W
    pub exchange : port.exchange npsso w ≡ (ok token, exchanged)
    pub list : port.wishlist_games token exchanged ≡ (ok entries, listed)
    pub ids : card_ids page.games ≡ wish_ids entries
    pub count : page.total_count ≡ length entries
    pub whole : page.next_offset ≡ none

  -- a failure of the exchange, or of the list after it
  pub data Fails (npsso : Text) (w : W) (error : AccountError) : Type 0 where
    exchange_failed : (w' : W) → port.exchange npsso w ≡ (err error, w') → Fails npsso w error
    list_failed :
        (token : Text) (w' w'' : W)
        → port.exchange npsso w ≡ (ok token, w')
        → port.wishlist_games token w' ≡ (err error, w'')
        → Fails npsso w error

  abbrev pub IsOutcome : Text → W → Result PageResult AccountError × W → Type 0
  IsOutcome npsso w (ok page, w') = IsWishlist npsso w page
  IsOutcome npsso w (err error, w') = Fails npsso w error

  -- A wishlist request answers with one card for each entry that Sony lists, with its id and in
  -- Sony's order, on one page, whatever the store lookups answer and also when their time is up. It
  -- fails only when the exchange or the list fails, with that failure.
  pub wishlist-IsOutcome : (npsso : Text) (w : W) → IsOutcome npsso w (wishlist port npsso w)
  unfolding wishlist whole_page
  wishlist-IsOutcome npsso w = exchanged (port.exchange npsso w) refl
    where
      listed :
          (token : Text) (w' : W)
          → port.exchange npsso w ≡ (ok token, w')
          → (q : Result (List WishlistEntry) AccountError × W) → port.wishlist_games token w' ≡ q
          → IsOutcome npsso w (
              ((λ v. q) >=? λ entries.
              enrich_wishlist port entries >>= λ cards. pure (ok (whole_page cards)))
                w')
      listed token w' h (ok entries, w'') k = record {
        token = token;
        entries = entries;
        exchanged = w';
        listed = w'';
        exchange = h;
        list = k;
        ids = enrich_wishlist_ids entries w'';
        count =
            page_count (enrich_wishlist port entries w'').0 entries
              (enrich_wishlist_ids entries w'');
        whole = refl;
      }
      listed token w' h (err error, w'') k = list_failed token w' w'' h k

      exchanged :
          (p : Result Text AccountError × W)
          → port.exchange npsso w ≡ p
          → IsOutcome npsso w (
              ((λ v. p) >=? λ token. port.wishlist_games token >=? λ entries.
              enrich_wishlist port entries >>= λ cards. pure (ok (whole_page cards)))
                w)
      exchanged (ok token, w') h = listed token w' h (port.wishlist_games token w') refl
      exchanged (err error, w') h = exchange_failed w' h
