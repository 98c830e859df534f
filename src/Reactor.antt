-- ===== src/Reactor.antt =====
-- src/muduo_core: channels, the poller and the event loop.
pub mod Channel
pub mod Poller
pub mod Loop
mod Tests
