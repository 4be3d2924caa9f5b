-- ===== src/Games/Port.antt =====
-- What the games service asks of its caches, of Sony's store and of the clock. Each call reads and
-- changes an unknown state, `W`, so nothing is assumed of its answer. A bounded run asks for its
-- items one after the other here: as every answer is unknown, this allows the answers of every
-- interleaving, and `Bounded` shows that the outputs keep the order of the items.
use psstore.Prelude.Actions.{Action, Attempt}
use psstore.Prelude.{Bool, List}
use psstore.Prelude.Int.{ℤ}
use psstore.Ids.{ProductId}
use psstore.Game.{
  Game, Concept, ProductDetail, ProductPrice, SonyFeature, BrowsePage, BrowseRequest, Genre,
}
use psstore.Errors.{UpstreamError}

pub record Port (W : Type 0) : Type 0 where
  -- `Inner::now_ms`: reading the clock changes nothing
  pub now_ms : W → ℤ
  -- the caches `concepts`, `details`, `strict_details`, `prices`, `monthly` and `genres`
  pub concepts : SonyFeature → Attempt W (List Concept) UpstreamError
  pub details : ProductId → Attempt W ProductDetail UpstreamError
  pub strict_details : ProductId → Attempt W ProductDetail UpstreamError
  pub prices : ProductId → Attempt W ProductPrice UpstreamError
  pub monthly : Attempt W (List Game) UpstreamError
  pub genres : Attempt W (List Genre) UpstreamError
  -- `SonyCatalog::browse_page`
  pub browse_page : BrowseRequest → Attempt W BrowsePage UpstreamError
  -- of two calls of a `try_join` that both fail, whether the second one fails first
  pub second_fails_first : W → Bool

abbrev pub clock : {W : Type 0} → Port W → Action W ℤ
clock port w = (port.now_ms w, w)
