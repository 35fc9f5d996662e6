-- ===== src/Client.antt =====
-- src/client: what the voice client keeps of a server.
pub mod View
