-- ===== src/Async.antt =====
-- The programs of cpp/async: the echo server and the two clients, over one interface to asio.
pub mod Net
pub mod Server
pub mod Client
pub mod Posting
mod Script
pub mod Loopback
pub mod Programs
