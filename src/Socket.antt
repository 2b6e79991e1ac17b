-- ===== src/Socket.antt =====
-- src/socket: the managers of one websocket connection.
mod Tests
pub mod Control
pub mod Ping
pub mod Connection
pub mod Message
pub mod System
pub mod Client
