-- ===== src/Cache.antt =====
-- The tag array of a cache: Caches/cache.c, with the structures of Caches/cache.h.
mod Tests
pub mod Line
pub mod Search
pub mod Lookup
pub mod Age
pub mod Recency
pub mod Refresh
pub mod Victim
pub mod Best
pub mod Scan
pub mod Replace
