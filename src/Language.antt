-- ===== src/Language.antt =====
-- src/core/command: the command language of the voice protocol and of ServerQuery.
pub mod Text
pub mod Escape
pub mod Command
mod Tests
pub mod Rows
