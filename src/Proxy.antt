-- ===== src/Proxy.antt =====
-- The DHT proxy servers of cpp/opendht/dhtproxyserver.
pub mod Restinio
pub mod Pistache
pub mod Cpr
mod Tests
