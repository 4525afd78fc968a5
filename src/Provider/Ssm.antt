-- ===== src/Provider/Ssm.antt =====
-- internal/provider/ssm.go: the SSM tunnel's attributes, and its configuration.
pub mod Session
mod Tests
use terraform_provider_tunne.Base.{
  Bool, true, false, not, ◌&&◌, ◌||◌, Option, none, some, List, [], ◌∷◌, ◌++◌, if◌then◌else◌, ℤ,
  pos, eqℤ,
}
use terraform_provider_tunne.Errors.{Error, Result, ok, err}
use terraform_provider_tunne.GoText.{Text, lit, is_empty, itoa, text_eq, or_default}
use terraform_provider_tunne.Ssm.Session.{
  TunnelConfig, AwsConfig, LoadOptions, default_ssm_document, get_sdk_config_profile,
  get_sdk_config_role, get_new_sdk_config,
}
use terraform_provider_tunne.Provider.{
  Attr, null, unknown, value, is_null, value_string, value_int64, unset, Diagnostic, host_required,
  port_required, aws_sdk, Outcome, failed, done, ◌>>=◌, or_fail, local_port_or,
}

pub record SsmModel : Type 0 where
  pub local_host : Attr Text
  pub local_port : Attr ℤ
  pub ssm_instance : Attr Text
  pub ssm_document : Attr Text
  pub ssm_profile : Attr Text
  pub ssm_role_arn : Attr Text
  pub ssm_region : Attr Text
  pub target_host : Attr Text
  pub target_port : Attr ℤ

-- `port.IsNull() || port.ValueInt64() == 0`
abbrev pub no_port : Attr ℤ → Bool
no_port port = is_null port || eqℤ (value_int64 port) (pos 0)

-- `doc != "" && doc != ssm.DefaultSSMDocument`
abbrev pub custom_document : SsmModel → Bool
custom_document m =
    not (is_empty (value_string m.ssm_document))
    && not (text_eq (value_string m.ssm_document) default_ssm_document)

-- `validateSSMTunnel`: both problems are reported.
pub validate_ssm_tunnel : SsmModel → List Diagnostic
validate_ssm_tunnel m =
    if custom_document m
    then []
    else (if unset m.target_host then host_required ∷ [] else [])
      ++ (if no_port m.target_port then port_required ∷ [] else [])

-- `ssmTargetPortString`
pub ssm_target_port_string : Attr ℤ → Text
ssm_target_port_string port = if no_port port then [] else itoa (value_int64 port)

valid_tunnel : List Diagnostic → SsmModel → Outcome SsmModel
valid_tunnel [] model = done model
valid_tunnel (d ∷ ds) model = failed (d ∷ ds)

-- `ssmTunnelConfig`; `free` is what GetFreePort answers.
unfoldable pub ssm_tunnel_config : Result ℤ → SsmModel → Outcome (SsmModel × TunnelConfig)
unfolding valid_tunnel
ssm_tunnel_config free model = do
  checked ← valid_tunnel (validate_ssm_tunnel model) model
  port ← local_port_or free (value_int64 model.local_port)
  done (
    record model { local_host = value (lit "localhost"); local_port = value port },
    record {
      local_port = itoa port;
      ssm_instance = value_string model.ssm_instance;
      ssm_document = value_string model.ssm_document;
      ssm_profile = value_string model.ssm_profile;
      ssm_role_arn = value_string model.ssm_role_arn;
      ssm_region = value_string model.ssm_region;
      target_host = value_string model.target_host;
      target_port = ssm_target_port_string model.target_port;
      session_params = none;
    },
  )

-- `applySSMSDKConfig`
unfoldable pub apply_ssm_sdk_config : AwsConfig → SsmModel × TunnelConfig → SsmModel × TunnelConfig
apply_ssm_sdk_config aws (model, cfg) =
    let resolved = record cfg {
      ssm_region = aws.region;
      ssm_profile = get_sdk_config_profile aws;
      ssm_role_arn = or_default cfg.ssm_role_arn (get_sdk_config_role aws);
    } in
    (
      record model {
        ssm_region = value resolved.ssm_region;
        ssm_profile = value resolved.ssm_profile;
        ssm_role_arn = value resolved.ssm_role_arn;
      },
      resolved,
    )

-- `resolveSSMSDKConfig`; `load` is config.LoadDefaultConfig of the AWS SDK.
unfoldable pub resolve_ssm_sdk_config :
    (LoadOptions → Result AwsConfig)
    → SsmModel × TunnelConfig
    → Outcome (SsmModel × TunnelConfig × AwsConfig)
resolve_ssm_sdk_config load (model, cfg) = do
  aws ← or_fail aws_sdk (get_new_sdk_config load cfg)
  let (applied, resolved) = apply_ssm_sdk_config aws (model, cfg)
  done (applied, resolved, aws)

-- `ssmConfig`
unfoldable pub ssm_config :
    Result ℤ
    → (LoadOptions → Result AwsConfig)
    → SsmModel
    → Outcome (SsmModel × TunnelConfig × AwsConfig)
ssm_config free load model = do
  made ← ssm_tunnel_config free model
  resolve_ssm_sdk_config load made
