-- ===== src/AzureBastion.antt =====
-- internal/azurebastion: the tunnel through an Azure Bastion host.
pub mod Config
pub mod Endpoint
pub mod Server
pub mod Session
pub mod Stream
pub mod Tunnel
