-- ===== src/Network.antt =====
-- src/memcache.c.
pub mod Memcache
