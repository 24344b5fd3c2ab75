-- ===== src/Http.antt =====
-- The HTTP clients of cpp/restinio: the request text, the exchange with the server, the arguments.
pub mod Request
pub mod Exchange
pub mod Arguments
pub mod Methods
pub mod Program
pub mod ByParts
pub mod Fixtures
mod Tests
