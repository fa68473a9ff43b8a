-- ===== src/Cache.antt =====
-- src/cache.c: the permanent cache.
pub mod Stdio
pub mod Words
pub mod State
pub mod Meta
pub mod Seg
pub mod Segments
pub mod Data
pub mod Reading
pub mod Downloads
pub mod Files
pub mod Lifecycle
