-- ===== src/Lib.antt =====
-- Verification of psstore, the server of a game store client (crates/domain and crates/server).
--
-- The server reads Sony's store, keeps the answers in caches, and turns Sony's concepts and
-- products into game cards that a client pages through. The parts modelled here are the rules of
-- the domain crate, the shared structures and the services of the application layer, the retries and
-- the decoders at the boundary to Sony, and the parameters and failures of the HTTP layer. A request
-- flows from Http.Params through Games or Account to a port, which stands for the caches over the
-- Sony adapter; the adapter sends by Transport and decodes by Sony, and a failure ends in Http.Problem.
--
-- - Cache (crates/server/src/application/cache.rs): the state under the lock, with `entries`,
--   `recency` and `next`; `fresh_entry`, `insert` (`insert_entry`), `remove_key`, `remove_lookup`,
--   `evict_over`, `start_lookup`, `complete` and `get_with` up to its await. Cache/System adds the
--   tasks, the clock and the outcomes: a schedule is a list of calls, ends, panics and advances of
--   the clock, each atomic as the lock makes it. A shared lookup is the number of its task.
-- - InFlight (crates/server/src/application/in_flight.rs): `run`, `remove` and the drop of the
--   entry guard, as steps on the entries and the running tasks.
-- - Js (crates/domain/src/js.rs): `Cursor` and the date parser of `parse_date_ms`, `to_iso_string`,
--   `utc_full_year`, `js_trim`, and `locale_compare_en` with its keys.
-- - Ids (crates/domain/src/id.rs, product_id.rs, browse.rs): the id newtypes, their checks and
--   conversions, the genre keys and the browse orders.
-- - Game (crates/domain/src/game.rs, catalog.rs): the cards and Sony's data after the decode.
-- - Mapper (crates/domain/src/mapper.rs): `concept_to_game` and its parts, the detail and monthly
--   cards, and the merge of a card with its detail.
-- - Listing (crates/domain/src/listing.rs): sorting, pages, the NEW and UPCOMING windows, the scope
--   filters and the lists of cards.
-- - Library (crates/domain/src/library.rs): the purchased games and the wishlist.
-- - CriticMatch (crates/domain/src/critic_match.rs): the normalised titles and the match of a score.
-- - CriticScores (crates/server/src/application/critic_scores.rs): `lookup` (`score_for`), its cached part
--   (`budgeted_lookup`), the times to live and the errors. CriticScores/Shown runs this lookup on the
--   schedules of Cache/System.
-- - Errors (crates/domain/src/errors.rs): the failures of the lookups.
-- - Bounded (crates/server/src/application/bounded.rs): `in_order_bounded`. Completes lists the orders in
--   which `buffer_unordered` may yield.
-- - Games (crates/server/src/application/games.rs): `search_games` and `resolve_search_candidate`, whose
--   raw pages, product details and clock are parameters; the loop runs on the pages it may still
--   read, three in all. Games/Port: what the other operations ask of the caches, the catalog and the
--   clock, as calls that read and change an unknown state. Games/Meta: the details and prices.
--   Games/Page: `game_by_id`. Games/Browse: `read_browse_page`, a loop on the raw pages that are left.
--   Games/Lists: `release_listing`, `discounted_games` and `monthly_games`.
-- - Account (crates/server/src/application/account.rs): `purchased`, `wishlist` and `verify_npsso`. A lookup
--   that runs out of time answers nothing, and the deadline of the whole list is a choice of the port.
-- - Transport (crates/server/src/sources/transport.rs): `send_retrying` (`round` is the body of its
--   loop, which runs on the retries that are left), `read` and `parse_retry_after`.
-- - Sony (crates/server/src/sources/sony): Json, Grid, Search, Product and Monthly (catalog/*.rs), Graphql
--   (graphql_errors.rs), Fields, Purchased and Wishlist (account/*.rs), Catalog (catalog.rs) and Library
--   (account.rs), the clients. The crawl of the library runs on the pages that it may still read. Loops that push what they keep
--   are recursions that give the list and the counts of the rest first.
-- - Http: Problem (crates/server/src/http/errors.rs), Params (crates/server/src/http/params.rs) and Session
--   (crates/server/src/http/session.rs).
-- - Prelude: lists, texts, integers, association lists, sorting and deduplication that the parts
--   share. Examples: the theorems at concrete inputs, and tests.
--
-- Texts are lists of characters, and `bytes` is their UTF-8 form. A `u64` counter is a number with
-- its wrap-around written out; `i64` sums are wrapped to their range. A map is an association list.
-- `Vec::sort_by` is a stable insertion sort. Instants and times to live are numbers of one unit, and
-- `latest` is the last instant that the clock can represent. The loop of `strip_edition_suffixes` runs
-- on the length of the title as fuel, which every round lowers. Theorems about schedules bound their
-- length by 2 ^ 64, so that no counter wraps around.
--
-- Parameters, as their code is not in this repository: the `jiff` crate (`Jiff`), the Unicode
-- data of the `icu` crates and of the lower case (`Unicode`), an attempt of the HTTP client, the JSON
-- parser, the check of a header value, the decoder of form pairs, and the operations on floating point
-- numbers (`Float`). A JSON value is the one that `serde_json` gives, with each key of an object once. The
-- URL of a request and one call of the account client are parameters too, as the text of the requests
-- is not modelled. The time to live of an outcome, the keys and the outcomes of a cache are parameters
-- as in the generic code.
--
-- Not modelled: the routes and the serialisation of the HTTP layer, the text of the requests to Sony and
-- the exchange of a sign-in, the IGDB source, the keys and times to live
-- of the caches of games.rs, the process set-up, and the web client. Logging, Debug and serialisation
-- have no part in the rules above.
pub mod Prelude
pub mod Cache
pub mod InFlight
pub mod Bounded
pub mod Js
pub mod Ids
pub mod Game
pub mod Mapper
pub mod Listing
pub mod Library
pub mod CriticMatch
pub mod CriticScores
pub mod Errors
pub mod Games
pub mod Account
pub mod Transport
pub mod Sony
pub mod Http
pub mod Examples
