-- ===== src/Web.antt =====
-- runtime/src/web.
pub mod Http
pub mod Websocket
pub mod Handshake
mod Tests
