-- ===== src/Servers.antt =====
-- The servers of cpp/server.
pub mod Dyad
pub mod Hello
