-- ===== src/Opendht.antt =====
-- The programs of cpp/opendht that read a proxy's answers and put values.
pub mod BodyLines
pub mod PutGet
pub mod ProxyClient
pub mod FutureGet
pub mod AsyncClient
pub mod Serial
pub mod ProxyRunner
pub mod LoadFile
pub mod Requests
mod Tests
