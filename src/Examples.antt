-- ===== src/Examples.antt =====
-- The theorems at concrete inputs, and tests of the definitions.
mod Calls
mod Searches
mod Lists
mod Cards
mod Texts
mod Services
mod Decoders
mod Calendar
mod Clients
mod Scores
