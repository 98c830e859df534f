-- ===== src/Http.antt =====
-- src/http: the request parser, the response printer and the server that joins them.
pub mod Chars
pub mod Fields
pub mod Request
pub mod Multipart
pub mod Context
pub mod Response
pub mod Server
mod Tests
