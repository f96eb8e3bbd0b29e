-- ===== src/Lookup.antt =====
-- The lookup of callers in the cache and in the web (lookup.c).
pub mod Escapes
pub mod Url
pub mod Match
pub mod Sources
pub mod Caller
