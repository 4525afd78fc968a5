-- ===== src/Provider/Ssm/Session.antt =====
-- internal/provider/ssm.go: what a session is asked for, and what Terraform records.
use terraform_provider_tunne.Base.{
  ◌≡◌, ◌≢◌, refl, sym, ap, ◌∙◌, ◌⊎◌, inl, inr, true, false, [], ◌∷◌, arith, ℤ, pos,
}
use terraform_provider_tunne.Errors.{Result}
use terraform_provider_tunne.GoText.{Text, lit, is_empty, itoa, or_default}
use terraform_provider_tunne.GoText.Decimal.{is_empty-itoa}
use terraform_provider_tunne.Ssm.Session.{
  TunnelConfig, AwsConfig, LoadOptions, create_session_input, get_sdk_config_profile,
  get_sdk_config_role,
}
use terraform_provider_tunne.Ssm.Tunnel.Cleanup.{param, given, create_session_input-params}
use terraform_provider_tunne.Provider.{Attr, value, value_string, value_int64, unset, done}
use terraform_provider_tunne.Provider.Ssm.{
  SsmModel, no_port, custom_document, validate_ssm_tunnel, ssm_target_port_string, valid_tunnel,
  ssm_tunnel_config, apply_ssm_sdk_config, resolve_ssm_sdk_config, ssm_config,
}

ssm_config-tunnel :
    (free : Result ℤ) (load : LoadOptions → Result AwsConfig) (m filled : SsmModel)
    (cfg : TunnelConfig) (aws : AwsConfig)
    → ssm_config free load m ≡ done (filled, cfg, aws)
    → (custom_document m ≡ true ⊎ ((unset m.target_host ≡ false) × (no_port m.target_port ≡ false)))
      × (cfg.target_host ≡ value_string m.target_host)
      × (cfg.target_port ≡ ssm_target_port_string m.target_port)
      × (cfg.ssm_document ≡ value_string m.ssm_document)
unfolding ssm_config ssm_tunnel_config resolve_ssm_sdk_config apply_ssm_sdk_config
    validate_ssm_tunnel valid_tunnel
ssm_config-tunnel free load m filled cfg aws h = ground arith

given_set : (t : Text) → is_empty t ≡ false → given t ≡ t ∷ []
given_set [] h = cc
given_set (c ∷ t) h = refl

host_set : (host : Attr Text) → unset host ≡ false → is_empty (value_string host) ≡ false
host_set host h = ground arith

port_set :
    (port : Attr ℤ) → no_port port ≡ false → ssm_target_port_string port ≡ itoa (value_int64 port)
unfolding ssm_target_port_string
port_set port h = rw h

-- With the default document, the session is asked for with the target's host and port, and both are
-- set: the document cannot do without them.
pub ssm_config-session :
    (free : Result ℤ) (load : LoadOptions → Result AwsConfig) (m filled : SsmModel)
    (cfg : TunnelConfig) (aws : AwsConfig)
    → ssm_config free load m ≡ done (filled, cfg, aws)
    → custom_document m ≡ false
    → (param (lit "host") (create_session_input cfg).parameters ≡ value_string m.target_host ∷ [])
      × (param (lit "portNumber") (create_session_input cfg).parameters
          ≡ itoa (value_int64 m.target_port) ∷ [])
      × (is_empty (value_string m.target_host) ≡ false)
      × (value_int64 m.target_port ≢ pos 0)
ssm_config-session free load m filled cfg aws h default =
    let (checked, host_eq, port_eq, doc_eq) = ssm_config-tunnel free load m filled cfg aws h in
    let (local, host_param, port_param, document, rest) = create_session_input-params cfg in
    elim checked [
      | inl custom ↦ elim (differ (sym custom ∙ default)) [ ]
      | inr (host, port) ↦ (
        host_param
            ∙ ap given host_eq
            ∙ given_set (value_string m.target_host) (host_set m.target_host host),
        port_param
            ∙ ap given (port_eq ∙ port_set m.target_port port)
            ∙ given_set (itoa (value_int64 m.target_port))
                (is_empty-itoa (value_int64 m.target_port)),
        host_set m.target_host host,
        λ zero. ground arith,
      )
    ]
  where
    differ : true ≡ false → ⊥
    differ e = cc

-- The child, the session and Terraform's state agree on the region, the profile and the role that
-- the AWS configuration resolved; a role that is configured is kept.
pub ssm_config-recorded :
    (free : Result ℤ) (load : LoadOptions → Result AwsConfig) (m filled : SsmModel)
    (cfg : TunnelConfig) (aws : AwsConfig)
    → ssm_config free load m ≡ done (filled, cfg, aws)
    → (filled.ssm_region ≡ value cfg.ssm_region)
      × (cfg.ssm_region ≡ aws.region)
      × (filled.ssm_profile ≡ value cfg.ssm_profile)
      × (cfg.ssm_profile ≡ get_sdk_config_profile aws)
      × (filled.ssm_role_arn ≡ value cfg.ssm_role_arn)
      × (cfg.ssm_role_arn ≡ or_default (value_string m.ssm_role_arn) (get_sdk_config_role aws))
      × (cfg.local_port ≡ itoa (value_int64 filled.local_port))
unfolding ssm_config ssm_tunnel_config resolve_ssm_sdk_config apply_ssm_sdk_config valid_tunnel
ssm_config-recorded free load m filled cfg aws h = ground arith
