-- ===== src/Provider/Ssh/Tests.antt =====
-- The configuration of internal/provider/ssh_test.go.
use terraform_provider_tunne.Base.{◌≡◌, refl, ◌⊎◌, inr, true, false, [], pos}
use terraform_provider_tunne.Errors.{ok}
use terraform_provider_tunne.GoText.{lit, itoa, join_host_port}
use terraform_provider_tunne.Ssh.Tunnel.{TunnelConfig, target_endpoint}
use terraform_provider_tunne.Provider.{null, value, is_null, value_int64, unset, done}
use terraform_provider_tunne.Provider.Ssh.{SshModel, Host, ssh_config, validate_ssh_target}
use terraform_provider_tunne.Provider.Ssh.Target.{
  validate_ssh_target_iff, ssh_config-recorded, ssh_config-endpoint,
}

abbrev pub model : SshModel
model = record {
  local_host = null;
  local_port = value (pos 15432);
  ssh_host = value (lit "bastion.internal");
  ssh_key = null;
  ssh_key_passphrase = null;
  ssh_password = null;
  ssh_port = null;
  ssh_user = null;
  target_host = value (lit "db.internal");
  target_port = value (pos 5432);
  target_socket = null;
}

abbrev pub host : Host
host = record { free_port = ok (pos 40000); current_user = ok (lit "me") }

abbrev filled : SshModel
filled = record model {
  local_host = value (lit "localhost");
  ssh_user = value (lit "me");
  ssh_port = value (pos 22);
}

abbrev config : TunnelConfig
config = record {
  local_host = lit "localhost";
  local_port = pos 15432;
  ssh_host = lit "bastion.internal";
  ssh_key = [];
  ssh_key_passphrase = [];
  ssh_password = [];
  ssh_port = pos 22;
  ssh_user = lit "me";
  target_host = lit "db.internal";
  target_port = pos 5432;
  target_socket = [];
}

configured : ssh_config host model ≡ done (filled, config)
unfolding ssh_config validate_ssh_target
configured = refl

validate_ssh_target_iff_example : validate_ssh_target null (value (lit "/s")) null ≡ []
validate_ssh_target_iff_example =
    (validate_ssh_target_iff null (value (lit "/s")) null).1 (inr (refl, refl))

ssh_config-recorded_example : value_int64 filled.ssh_port ≡ config.ssh_port
ssh_config-recorded_example = (ssh_config-recorded host model filled config configured).2

ssh_config-endpoint_example :
    ((is_null model.target_port ≡ false)
      × (unset model.target_host ≡ false)
      × (target_endpoint config
          ≡ (lit "tcp", join_host_port (lit "db.internal") (itoa (pos 5432)))))
    ⊎ ((is_null model.target_port ≡ true)
        × (unset model.target_socket ≡ false)
        × (target_endpoint config ≡ (lit "unix", [])))
ssh_config-endpoint_example = ssh_config-endpoint host model filled config configured
