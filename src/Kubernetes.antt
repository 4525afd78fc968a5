-- ===== src/Kubernetes.antt =====
-- internal/kubernetes: the port forward to a Kubernetes service.
pub mod Config
pub mod Endpoints
pub mod Forward
pub mod Request
pub mod Tunnel
