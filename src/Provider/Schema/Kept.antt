-- ===== src/Provider/Schema/Kept.antt =====
-- internal/provider: what each configuration leaves as it is given.
use terraform_provider_tunne.Base.{◌≡◌, arith, ℤ}
use terraform_provider_tunne.Errors.{Result}
use terraform_provider_tunne.Ssm.Session.{AwsConfig, LoadOptions}
use terraform_provider_tunne.Ssm.Session as SsmSession
use terraform_provider_tunne.Ssh.Tunnel as SshTunnel
use terraform_provider_tunne.AzureBastion.Config as BastionConfig
use terraform_provider_tunne.Provider.{done}
use terraform_provider_tunne.Provider.Ssh.{SshModel, Host, ssh_config}
use terraform_provider_tunne.Provider.Ssm.{
  SsmModel, ssm_config, ssm_tunnel_config, resolve_ssm_sdk_config, apply_ssm_sdk_config,
}
use terraform_provider_tunne.Provider.AzureBastion.{AzureBastionModel, azure_bastion_config}

-- What sshConfig leaves alone.
pub ssh_kept :
    (host : Host) (m filled : SshModel) (cfg : SshTunnel.TunnelConfig)
    → ssh_config host m ≡ done (filled, cfg)
    → (m.ssh_host ≡ filled.ssh_host)
      × (m.ssh_key ≡ filled.ssh_key)
      × (m.ssh_key_passphrase ≡ filled.ssh_key_passphrase)
      × (m.ssh_password ≡ filled.ssh_password)
      × (m.target_host ≡ filled.target_host)
      × (m.target_port ≡ filled.target_port)
      × (m.target_socket ≡ filled.target_socket)
unfolding ssh_config
ssh_kept host m filled cfg h = ground arith

pub ssm_kept :
    (free : Result ℤ) (load : LoadOptions → Result AwsConfig) (m filled : SsmModel)
    (cfg : SsmSession.TunnelConfig) (aws : AwsConfig)
    → ssm_config free load m ≡ done (filled, cfg, aws)
    → (m.ssm_instance ≡ filled.ssm_instance)
      × (m.ssm_document ≡ filled.ssm_document)
      × (m.target_host ≡ filled.target_host)
      × (m.target_port ≡ filled.target_port)
unfolding ssm_config ssm_tunnel_config resolve_ssm_sdk_config apply_ssm_sdk_config
ssm_kept free load m filled cfg aws h = ground arith

pub bastion_kept :
    (lib : BastionConfig.Library) (free : Result ℤ) (m filled : AzureBastionModel)
    (cfg : BastionConfig.TunnelConfig)
    → azure_bastion_config lib free m ≡ done (filled, cfg)
    → (m.bastion_host_id ≡ filled.bastion_host_id)
      × (m.target_resource_id ≡ filled.target_resource_id)
      × (m.target_ip_address ≡ filled.target_ip_address)
      × (m.target_port ≡ filled.target_port)
unfolding azure_bastion_config
bastion_kept lib free m filled cfg h = ground arith
