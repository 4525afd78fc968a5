-- ===== src/Ssm.antt =====
-- internal/ssm: the tunnel through AWS Systems Manager.
pub mod Session
pub mod Api
pub mod Tunnel
