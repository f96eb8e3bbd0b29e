-- ===== src/Main.antt =====
-- The main program (main.c).
pub mod Handle
