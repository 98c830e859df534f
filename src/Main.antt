-- ===== src/Main.antt =====
-- src/http/main.cc: the web server's configuration and the routes of its requests.
pub mod Config
pub mod Favicon
pub mod Routes
mod Tests
