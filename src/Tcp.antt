-- ===== src/Tcp.antt =====
-- src/muduo_core: connections and the server that accepts them.
pub mod Connection
pub mod Pool
pub mod Server
mod ServerTests
mod Tests
