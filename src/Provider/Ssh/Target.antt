-- ===== src/Provider/Ssh/Target.antt =====
-- internal/provider/ssh.go: the target that is validated is the one that the tunnel forwards to.
use terraform_provider_tunne.Base.{◌≡◌, ◌↔◌, ◌⊎◌, true, false, [], arith, ℤ, pos}
use terraform_provider_tunne.Errors.{ok}
use terraform_provider_tunne.GoText.{Text, lit, is_empty, itoa, join_host_port}
use terraform_provider_tunne.Ssh.Tunnel.{TunnelConfig, target_endpoint}
use terraform_provider_tunne.Ssh.Tunnel.Order.{target_endpoint-eq}
use terraform_provider_tunne.Provider.{Attr, is_null, value_string, value_int64, unset, done}
use terraform_provider_tunne.Provider.Ssh.{
  SshModel, Host, target_errors, validate_ssh_target, valid_target, user_or, port_or_22, ssh_config,
}

-- A port with a host and no socket, or a socket and no port.
abbrev pub GoodTarget : Attr Text → Attr Text → Attr ℤ → Type 0
GoodTarget host socket port =
    ((is_null port ≡ false) × (unset socket ≡ true) × (unset host ≡ false))
    ⊎ ((is_null port ≡ true) × (unset socket ≡ false))

-- The target of an SSH tunnel is accepted exactly when it is a port with a host and no socket, or a
-- socket and no port.
pub validate_ssh_target_iff :
    (host socket : Attr Text) (port : Attr ℤ)
    → (validate_ssh_target host socket port ≡ []) ↔ GoodTarget host socket port
unfolding validate_ssh_target target_errors
validate_ssh_target_iff host socket port = ground arith

ssh_config-valid :
    (host : Host) (m filled : SshModel) (cfg : TunnelConfig)
    → ssh_config host m ≡ done (filled, cfg)
    → validate_ssh_target m.target_host m.target_socket m.target_port ≡ []
unfolding ssh_config valid_target
ssh_config-valid host m filled cfg h = ground arith

ssh_config-target :
    (host : Host) (m filled : SshModel) (cfg : TunnelConfig)
    → ssh_config host m ≡ done (filled, cfg)
    → (cfg.target_host ≡ value_string m.target_host)
      × (cfg.target_port ≡ value_int64 m.target_port)
      × (cfg.target_socket ≡ value_string m.target_socket)
unfolding ssh_config
ssh_config-target host m filled cfg h = ground arith

-- What the tunnel records in Terraform's state is what it was configured with: the local address,
-- the user and the bastion's port, defaults included; the local host is never empty.
pub ssh_config-recorded :
    (host : Host) (m filled : SshModel) (cfg : TunnelConfig)
    → ssh_config host m ≡ done (filled, cfg)
    → (value_string filled.local_host ≡ cfg.local_host)
      × (value_int64 filled.local_port ≡ cfg.local_port)
      × (value_int64 filled.ssh_port ≡ cfg.ssh_port)
      × (value_string filled.ssh_user ≡ cfg.ssh_user)
      × (is_empty cfg.local_host ≡ false)
      × (is_null m.ssh_port ≡ true → cfg.ssh_port ≡ pos 22)
      × (host.current_user ≡ ok cfg.ssh_user ⊎ (is_null m.ssh_user ≡ false))
unfolding ssh_config user_or port_or_22
ssh_config-recorded host m filled cfg h = ground arith

endpoint_of :
    (m : SshModel) (cfg : TunnelConfig)
    → cfg.target_host ≡ value_string m.target_host
    → cfg.target_port ≡ value_int64 m.target_port
    → cfg.target_socket ≡ value_string m.target_socket
    → ((is_empty cfg.target_socket ≡ false)
        × (target_endpoint cfg ≡ (lit "unix", cfg.target_socket)))
      ⊎ ((is_empty cfg.target_socket ≡ true)
          × (target_endpoint cfg
              ≡ (lit "tcp", join_host_port cfg.target_host (itoa cfg.target_port))))
    → GoodTarget m.target_host m.target_socket m.target_port
    → ((is_null m.target_port ≡ false)
        × (unset m.target_host ≡ false)
        × (target_endpoint cfg ≡ (
          lit "tcp",
          join_host_port (value_string m.target_host) (itoa (value_int64 m.target_port)),
        )))
      ⊎ ((is_null m.target_port ≡ true)
          × (unset m.target_socket ≡ false)
          × (target_endpoint cfg ≡ (lit "unix", value_string m.target_socket)))
endpoint_of m cfg h p s e good = ground arith

-- The tunnel forwards to the target that Terraform configures: to the host's port over TCP where a
-- port is set, and to the socket where none is.
pub ssh_config-endpoint :
    (host : Host) (m filled : SshModel) (cfg : TunnelConfig)
    → ssh_config host m ≡ done (filled, cfg)
    → ((is_null m.target_port ≡ false)
        × (unset m.target_host ≡ false)
        × (target_endpoint cfg ≡ (
          lit "tcp",
          join_host_port (value_string m.target_host) (itoa (value_int64 m.target_port)),
        )))
      ⊎ ((is_null m.target_port ≡ true)
          × (unset m.target_socket ≡ false)
          × (target_endpoint cfg ≡ (lit "unix", value_string m.target_socket)))
ssh_config-endpoint host m filled cfg h =
    let (host_eq, port_eq, socket_eq) = ssh_config-target host m filled cfg h in
    let good =
      (validate_ssh_target_iff m.target_host m.target_socket m.target_port).0
        (ssh_config-valid host m filled cfg h) in
    endpoint_of m cfg host_eq port_eq socket_eq (target_endpoint-eq cfg) good
