-- ===== src/Api.antt =====
-- src/api: the endpoints of the server, and the texts they answer with.
pub mod Json
pub mod Controller
pub mod Management
mod Tests
