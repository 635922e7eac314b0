-- ===== src/Network.antt =====
-- network: the WebSocket transport and the Archipelago client on top of it.
pub mod WebSocket
pub mod Client
