-- ===== src/Server/Ws.antt =====
-- server/ws/ and the WebSocket endpoint of server/app.py: the devices that are connected, their
-- sessions and their calls.
pub mod Hub
pub mod Sessions
pub mod Rpc
pub mod Endpoint
mod Tests
