-- ===== src/Util.antt =====
-- src/util.c: the helpers on strings.
pub mod Paths
