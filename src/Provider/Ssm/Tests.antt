-- ===== src/Provider/Ssm/Tests.antt =====
-- A tunnel with the default document, whose profile the AWS configuration resolves.
use terraform_provider_tunne.Base.{◌≡◌, refl, none, some, [], ◌∷◌, pos}
use terraform_provider_tunne.Errors.{ok}
use terraform_provider_tunne.GoText.{lit, itoa, text_eq}
use terraform_provider_tunne.Ssm.Session.{
  TunnelConfig, AwsConfig, shared_config, other_source, create_session_input,
  get_sdk_config_profile, get_sdk_config_role, get_new_sdk_config,
}
use terraform_provider_tunne.Ssm.Tunnel.Cleanup.{param}
use terraform_provider_tunne.Provider.{null, value, done, host_required, port_required}
use terraform_provider_tunne.Provider.Ssm.{
  SsmModel, ssm_config, ssm_tunnel_config, validate_ssm_tunnel, ssm_target_port_string,
  resolve_ssm_sdk_config, apply_ssm_sdk_config,
}
use terraform_provider_tunne.Provider.Ssm.Session.{ssm_config-session, ssm_config-recorded}

abbrev model : SsmModel
model = record {
  local_host = null;
  local_port = value (pos 9000);
  ssm_instance = value (lit "i-1");
  ssm_document = null;
  ssm_profile = null;
  ssm_role_arn = value (lit "arn:r");
  ssm_region = null;
  target_host = value (lit "db");
  target_port = value (pos 5432);
}

abbrev aws : AwsConfig
aws = record {
  region = lit "eu-west-1";
  config_sources = other_source ∷ shared_config (lit "dev") (lit "arn:shared") ∷ [];
  assumed_role = none;
}

abbrev assumed : AwsConfig
assumed = record aws { assumed_role = some (lit "arn:r") }

abbrev filled : SsmModel
filled = record model {
  local_host = value (lit "localhost");
  ssm_region = value (lit "eu-west-1");
  ssm_profile = value (lit "dev");
}

abbrev config : TunnelConfig
config = record {
  local_port = lit "9000";
  ssm_instance = lit "i-1";
  ssm_document = [];
  ssm_profile = lit "dev";
  ssm_role_arn = lit "arn:r";
  ssm_region = lit "eu-west-1";
  target_host = lit "db";
  target_port = lit "5432";
  session_params = none;
}

configured : ssm_config (ok (pos 40000)) (λ options. ok aws) model ≡ done (filled, config, assumed)
unfolding ssm_config ssm_tunnel_config validate_ssm_tunnel ssm_target_port_string
    resolve_ssm_sdk_config apply_ssm_sdk_config get_sdk_config_profile get_sdk_config_role
    get_new_sdk_config itoa text_eq
configured = refl

-- A tunnel without a host and a port is told of both.
both_reported :
    validate_ssm_tunnel (record model { target_host = null; target_port = null })
    ≡ host_required ∷ port_required ∷ []
unfolding validate_ssm_tunnel
both_reported = refl

ssm_config-session_example :
    param (lit "host") (create_session_input config).parameters ≡ lit "db" ∷ []
ssm_config-session_example =
    (ssm_config-session (ok (pos 40000)) (λ options. ok aws) model filled config assumed configured
      refl).0

ssm_config-recorded_example : config.ssm_profile ≡ get_sdk_config_profile assumed
ssm_config-recorded_example =
    (ssm_config-recorded (ok (pos 40000)) (λ options. ok aws) model filled config assumed
      configured).3
