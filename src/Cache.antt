-- ===== src/Cache.antt =====
-- The caches of the program, app/cache/.
pub mod Entry
pub mod QueryCache
