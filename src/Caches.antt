-- ===== src/Caches.antt =====
-- The two bounded caches of the program, each over a `Map` whose order is the order of use.
pub mod LruCache
pub mod TapeCache
pub mod Sizes
pub mod Bounds
pub mod Tests
