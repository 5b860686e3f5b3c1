-- ===== src/ArtNet.antt =====
-- artnet_router.cpp: where each universe is sent, and the packets that are sent.
pub mod Packet
pub mod Router
pub mod Discovery
mod Tests
