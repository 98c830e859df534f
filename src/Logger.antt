-- ===== src/Logger.antt =====
-- src/logger: the buffers of the log and the thread that writes them.
pub mod Fixed
pub mod Async
pub mod File
pub mod Stream
mod FileTests
mod Tests
