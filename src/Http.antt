-- ===== src/Http.antt =====
-- The HTTP message layer: text helpers, headers, requests, and the incremental parser.
pub mod Text
pub mod Numbers
pub mod Headers
pub mod Url
pub mod Request
pub mod Parser
pub mod Response
pub mod Exchange
pub mod Writer
pub mod BodyStream
pub mod Router
pub mod Context
pub mod Semantics
pub mod Pipeline
pub mod Multipart
mod Tests
