-- ===== src/Account.antt =====
-- crates/server/src/application/account.rs: the signed-in lists. The calls to Sony, the shared exchange
-- (`InFlight`) and the anonymous lookups with their deadlines are a port over an unknown state.
pub mod Lists
use psstore.Prelude.{ℕ, Option, none, some, List, Result, ok, err, length}
use psstore.Prelude.Texts.{Text}
use psstore.Prelude.Actions.{Action, Attempt, ◌>>=◌, ◌>=?◌, pure, for_each}
use psstore.Ids.{GameId, product_game_id}
use psstore.Game.{Game, PageResult}
use psstore.Library.{
  PurchasedEntry, WishlistId, product_wish, concept_wish, WishlistEntry, merge_wishlist_entry,
  purchased_cards, wishlist_cards,
}
use psstore.Errors.{AccountError, GameLookupError}

pub record Port (W : Type 0) : Type 0 where
  -- `exchange`: the access token of the NPSSO
  pub exchange : Text → Attempt W Text AccountError
  pub purchased_games : Text → Attempt W (List PurchasedEntry) AccountError
  pub wishlist_games : Text → Attempt W (List WishlistEntry) AccountError
  -- `game_by_id` within `WISHLIST_ENRICH_ENTRY_TIMEOUT`: nothing when the time is up
  pub game_in_time : GameId → Action W (Option (Result Game GameLookupError))
  -- the state after `WISHLIST_ENRICH_TOTAL_TIMEOUT`, when the lookups of all entries need longer
  pub time_up : List WishlistEntry → W → Option W

-- `whole_page`
unfoldable pub whole_page : List Game → PageResult
whole_page games = record { games = games; total_count = length games; next_offset = none }

-- the match on the outcome of a lookup
abbrev pub found_game : Option (Result Game GameLookupError) → Option Game
found_game (some (ok game)) = some game
found_game (some (err error)) = none
found_game none = none

module _ {W : Type 0} (port : Port W) where
  unfoldable pub find_entry : WishlistId → Action W (Option Game)
  find_entry (product_wish id) =
      port.game_in_time (product_game_id id) >>= λ outcome. pure (found_game outcome)
  find_entry (concept_wish id) = pure none

  unfoldable pub enrich_entry : WishlistEntry → Action W Game
  unfolding find_entry merge_wishlist_entry
  enrich_entry entry = find_entry entry.id >>= λ found. pure (merge_wishlist_entry entry found)

  unfoldable pub enrich_wishlist : List WishlistEntry → Action W (List Game)
  unfolding for_each enrich_entry
  enrich_wishlist entries w = elim (port.time_up entries w) [
    | some w' ↦ (wishlist_cards entries, w')
    | none ↦ for_each enrich_entry entries w
  ]

  unfoldable pub purchased : Text → Attempt W PageResult AccountError
  unfolding whole_page
  purchased npsso = port.exchange npsso >=? λ token.
      port.purchased_games token >=? λ entries. pure (ok (whole_page (purchased_cards entries)))

  unfoldable pub wishlist : Text → Attempt W PageResult AccountError
  unfolding enrich_wishlist whole_page
  wishlist npsso = port.exchange npsso >=? λ token. port.wishlist_games token >=? λ entries.
      enrich_wishlist entries >>= λ cards. pure (ok (whole_page cards))

  unfoldable pub verify_npsso : Text → Attempt W Unit AccountError
  verify_npsso npsso = port.exchange npsso >=? λ token. pure (ok tt)
