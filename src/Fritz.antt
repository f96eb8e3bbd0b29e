-- ===== src/Fritz.antt =====
-- The connection to the call monitor of the FRITZ!Box (fritz.c): its notifications, and the states
-- of the connection.
pub mod Notify
pub mod Link
