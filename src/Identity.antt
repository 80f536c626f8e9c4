-- ===== src/Identity.antt =====
-- server/internal/identity: the parts beside ticker validity.
pub mod Group
pub mod Coverage
pub mod Resolve
