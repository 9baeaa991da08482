-- ===== src/Socket.antt =====
-- The WebSocket client, src/transport/websocketclient.cpp.
pub mod Frame
pub mod State
pub mod Client
