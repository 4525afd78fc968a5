-- ===== src/Libs.antt =====
-- internal/libs: the pieces that every tunnel shares.
pub mod Server
pub mod Watch
pub mod Fork
pub mod Relay
pub mod Port
