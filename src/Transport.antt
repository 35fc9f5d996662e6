-- ===== src/Transport.antt =====
-- src/client/transport: what carries packets.
pub mod Window
pub mod Packet
pub mod Quicklz
pub mod Receive
pub mod Cipher
pub mod Send
pub mod Voice
pub mod Dispatch
pub mod Traffic
