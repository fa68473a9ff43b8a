-- ===== src/Main.antt =====
-- src/main.c: the options.
pub mod Config
