-- ===== src/Ssm/Session.antt =====
-- internal/ssm/session.go: the input of a session, and what the AWS configuration is read for.
use terraform_provider_tunne.Base.{Option, none, some, List, [], ◌∷◌, ◌++◌}
use terraform_provider_tunne.Errors.{Result, ok, err}
use terraform_provider_tunne.GoText.{Text, lit, or_default}

pub record SessionParams : Type 0 where
  pub session_id : Text
  pub token_value : Text
  pub stream_url : Text

pub record TunnelConfig : Type 0 where
  pub local_port : Text
  pub ssm_instance : Text
  pub ssm_document : Text
  pub ssm_profile : Text
  pub ssm_role_arn : Text
  pub ssm_region : Text
  pub target_host : Text
  pub target_port : Text
  pub session_params : Option SessionParams

abbrev pub default_ssm_document : Text
default_ssm_document = lit "AWS-StartPortForwardingSessionToRemoteHost"

-- ssm.StartSessionInput, with its parameters in the order in which they are set.
pub record StartSessionInput : Type 0 where
  pub target : Text
  pub document_name : Text
  pub parameters : List (Text × List Text)

-- `if value != "" { params[name] = []string{value} }`
unfoldable pub optional_param : Text → Text → List (Text × List Text)
optional_param name [] = []
optional_param name (c ∷ value) = (name, (c ∷ value) ∷ []) ∷ []

unfoldable pub create_session_input : TunnelConfig → StartSessionInput
unfolding optional_param
create_session_input cfg = record {
  target = cfg.ssm_instance;
  document_name = or_default cfg.ssm_document default_ssm_document;
  parameters =
      (lit "localPortNumber", cfg.local_port ∷ [])
      ∷ (optional_param (lit "host") cfg.target_host
          ++ optional_param (lit "portNumber") cfg.target_port);
}

-- An entry of `awsCfg.ConfigSources`: a config.SharedConfig, or of another type.
pub data ConfigSource : Type 0 where
  shared_config : Text → Text → ConfigSource  -- Profile, RoleARN
  other_source : ConfigSource

pub record AwsConfig : Type 0 where
  pub region : Text
  pub config_sources : List ConfigSource
  pub assumed_role : Option Text

profile_from : List ConfigSource → Text
profile_from [] = []
profile_from (shared_config profile role ∷ rest) = profile
profile_from (other_source ∷ rest) = profile_from rest

role_from : List ConfigSource → Text
role_from [] = []
role_from (shared_config profile role ∷ rest) = role
role_from (other_source ∷ rest) = role_from rest

-- `GetSDKConfigProfile` and `GetSDKConfigRole`
unfoldable pub get_sdk_config_profile : AwsConfig → Text
unfolding profile_from
get_sdk_config_profile aws = profile_from aws.config_sources

unfoldable pub get_sdk_config_role : AwsConfig → Text
unfolding role_from
get_sdk_config_role aws = role_from aws.config_sources

-- The options that `GetNewSDKConfig` loads with.
pub record LoadOptions : Type 0 where
  pub with_region : Option Text
  pub with_profile : Option Text

abbrev given : Text → Option Text
given [] = none
given (c ∷ t) = some (c ∷ t)

assume : Text → AwsConfig → AwsConfig
assume [] aws = aws
assume (c ∷ role) aws = record aws { assumed_role = some (c ∷ role) }

with_role : Text → Result AwsConfig → Result AwsConfig
unfolding assume
with_role role (err e) = err e
with_role role (ok aws) = ok (assume role aws)

-- `GetNewSDKConfig`; `load` is config.LoadDefaultConfig of the AWS SDK.
unfoldable pub get_new_sdk_config :
    (LoadOptions → Result AwsConfig) → TunnelConfig → Result AwsConfig
unfolding with_role
get_new_sdk_config load cfg =
    with_role cfg.ssm_role_arn
      (load (record { with_region = given cfg.ssm_region; with_profile = given cfg.ssm_profile }))
