-- ===== src/Sony.antt =====
-- crates/server/src/sources/sony: the decoders at the boundary to Sony's answers, over a parsed JSON
-- value. The requests themselves are input and output.
pub mod Json
pub mod Grid
pub mod Search
pub mod Product
pub mod Monthly
pub mod Graphql
pub mod Fields
pub mod Purchased
pub mod Wishlist
pub mod Catalog
pub mod Library
