-- ===== src/PacketHandler.antt =====
-- packet_handler.rs: the server that owns the socket, encrypts, decrypts and spreads messages.
pub mod State
pub mod RateControl
pub mod Send
pub mod Recv
pub mod Fanout
pub mod Delivery
pub mod Nak
pub mod Arrival
pub mod Congestion
pub mod Stuck
pub mod Buffer
mod Tests
