-- ===== src/Js.antt =====
-- crates/domain/src/js.rs: the JavaScript semantics that the lists rely on. The calendar of the
-- `jiff` crate is a parameter, `Js.Jiff.Jiff`.
pub mod Trim
pub mod Jiff
pub mod Cursor
pub mod Date
pub mod Collation
