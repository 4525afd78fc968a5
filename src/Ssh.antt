-- ===== src/Ssh.antt =====
-- internal/ssh: the tunnel through an SSH bastion.
pub mod Client
pub mod Forward
pub mod Tunnel
pub mod Auth
