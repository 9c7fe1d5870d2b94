-- ===== src/Handshaker.antt =====
-- handshake.rs: the server that authenticates other nodes and agrees on keys with them.
pub mod Hmac
pub mod Hashes
pub mod State
pub mod Send
pub mod Handle
pub mod Window
pub mod SharedKey
pub mod Invariant
pub mod Greetings
pub mod Preserve
pub mod LastSent
pub mod Steps
pub mod Agreement
mod Tests
