-- ===== src/Channels.antt =====
-- src/core: the channels of a server.
pub mod Tree
pub mod Siblings
