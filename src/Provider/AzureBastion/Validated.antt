-- ===== src/Provider/AzureBastion/Validated.antt =====
-- internal/provider/azure_bastion.go: a tunnel is started for a valid configuration only.
use terraform_provider_tunne.Base.{◌≡◌, sym, ◌∙◌, arith, ℤ}
use terraform_provider_tunne.Errors.{Result, ok}
use terraform_provider_tunne.AzureBastion.Config.{
  TunnelConfig, Library, TunnelPlan, resolve, validate,
}
use terraform_provider_tunne.GoText.{lit, or_default, trim_space}
use terraform_provider_tunne.AzureBastion.Config.Validation.{
  Acceptable, validate-Acceptable, validate-plan, resolve-local_host,
}
use terraform_provider_tunne.Provider.{value_string, value_int64, done}
use terraform_provider_tunne.Provider.AzureBastion.{AzureBastionModel, azure_bastion_config}

pub azure_bastion_config-recorded :
    (lib : Library) (free : Result ℤ) (m filled : AzureBastionModel) (cfg : TunnelConfig)
    → azure_bastion_config lib free m ≡ done (filled, cfg)
    → (validate lib cfg ≡ ok tt)
      × (value_string filled.local_host ≡ cfg.local_host)
      × (value_int64 filled.local_port ≡ cfg.local_port)
unfolding azure_bastion_config
azure_bastion_config-recorded lib free m filled cfg h = ground arith

-- An Azure Bastion tunnel is configured only where its Bastion ID is that of a resource of the type
-- Microsoft.Network/bastionHosts, in capitals or not, with a subscription, a group and a name, exactly one target is set and can be used, and the
-- ports are from 1 to 65535, the target's 22 or 3389 for an IP address. There is a plan for it then,
-- which listens on the local port that Terraform records, and on the local host that it records without
-- the spaces around it, or on localhost if nothing is left.
pub azure_bastion_config-Acceptable :
    (lib : Library) (free : Result ℤ) (m filled : AzureBastionModel) (cfg : TunnelConfig)
    → azure_bastion_config lib free m ≡ done (filled, cfg)
    → Acceptable lib cfg
      × (plan : TunnelPlan) × (resolve lib cfg ≡ ok plan)
      × (plan.plan_local_host
          ≡ or_default (trim_space (value_string filled.local_host)) (lit "localhost"))
      × (plan.plan_local_port ≡ value_int64 filled.local_port)
azure_bastion_config-Acceptable lib free m filled cfg h =
    let (valid, host, port) = azure_bastion_config-recorded lib free m filled cfg h in
    let (plan, resolved) = validate-plan lib cfg valid in
    let (at_host, at_port) = resolve-local_host lib cfg resolved in
    (
      (validate-Acceptable lib cfg).0 valid,
      plan,
      resolved,
      at_host ∙ (λ i. or_default (trim_space (sym host i)) (lit "localhost")),
      at_port ∙ sym port,
    )
