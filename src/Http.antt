-- ===== src/Http.antt =====
-- crates/server/src/http: the failures of the routes, and the parameters of a request.
pub mod Problem
pub mod Params
pub mod Session
