-- ===== src/Provider/Schema/Tests.antt =====
-- A model that does not fit, and the schemas at the models of the configurations' tests.
use terraform_provider_tunne.Base.{◌≡◌, refl, true, false, [], pos}
use terraform_provider_tunne.Errors.{ok}
use terraform_provider_tunne.GoText.{lit}
use terraform_provider_tunne.Ssh.Tunnel.{TunnelConfig}
use terraform_provider_tunne.Provider.{null, value, done}
use terraform_provider_tunne.Provider.Ssh.{SshModel, Host, ssh_config, validate_ssh_target}
use terraform_provider_tunne.Provider.Schema.{
  tag, end_fields, ◌&=◌, string_field, fits, may_compute,
}
use terraform_provider_tunne.Provider.Schema.Ssh.{
  ssh_data_source_schema, ssh_ephemeral_schema, ssh_fields,
}
use terraform_provider_tunne.Provider.Schema.Fit.{models-FitsBoth}
use terraform_provider_tunne.Provider.Schema.Written.{WrittenBoth, configs-WrittenBoth}

-- A port that is read as a text.
misfit :
    fits ssh_data_source_schema (tag (lit "ssh_port") (string_field null) &= end_fields) ≡ false
unfolding fits
misfit = refl

kept_secret : may_compute (lit "ssh_password") ssh_ephemeral_schema ≡ false
unfolding may_compute
kept_secret = refl

abbrev model : SshModel
model = record {
  local_host = null;
  local_port = null;
  ssh_host = value (lit "bastion");
  ssh_key = null;
  ssh_key_passphrase = null;
  ssh_password = null;
  ssh_port = null;
  ssh_user = null;
  target_host = value (lit "db");
  target_port = value (pos 5432);
  target_socket = null;
}

abbrev host : Host
host = record { free_port = ok (pos 40000); current_user = ok (lit "me") }

abbrev filled : SshModel
filled = record model {
  local_host = value (lit "localhost");
  local_port = value (pos 40000);
  ssh_user = value (lit "me");
  ssh_port = value (pos 22);
}

abbrev config : TunnelConfig
config = record {
  local_host = lit "localhost";
  local_port = pos 40000;
  ssh_host = lit "bastion";
  ssh_key = [];
  ssh_key_passphrase = [];
  ssh_password = [];
  ssh_port = pos 22;
  ssh_user = lit "me";
  target_host = lit "db";
  target_port = pos 5432;
  target_socket = [];
}

configured : ssh_config host model ≡ done (filled, config)
unfolding ssh_config validate_ssh_target
configured = refl

models-FitsBoth_example : fits ssh_ephemeral_schema (ssh_fields model) ≡ true
models-FitsBoth_example = (models-FitsBoth.0 model).1

configs-WrittenBoth_example :
    WrittenBoth ssh_data_source_schema ssh_ephemeral_schema (ssh_fields model) (ssh_fields filled)
configs-WrittenBoth_example = configs-WrittenBoth.0 host model filled config configured
