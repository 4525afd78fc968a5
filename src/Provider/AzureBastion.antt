-- ===== src/Provider/AzureBastion.antt =====
-- internal/provider/azure_bastion.go: the Azure Bastion tunnel's attributes, and its configuration.
pub mod Validated
mod Tests
use terraform_provider_tunne.Base.{
  Bool, true, false, ◌||◌, List, [], ◌∷◌, if◌then◌else◌, ℤ, pos, eqℤ,
}
use terraform_provider_tunne.Errors.{Error, Result, ok, err}
use terraform_provider_tunne.GoText.{Text, lit, is_empty}
use terraform_provider_tunne.AzureBastion.Config.{TunnelConfig, Library, validate}
use terraform_provider_tunne.Provider.{
  Attr, null, unknown, value, is_null, value_string, value_int64, unset, Diagnostic,
  invalid_bastion, Outcome, failed, done, ◌>>=◌, or_fail, local_port_or,
}

pub record AzureBastionModel : Type 0 where
  pub bastion_host_id : Attr Text
  pub target_resource_id : Attr Text
  pub target_ip_address : Attr Text
  pub target_port : Attr ℤ
  pub local_host : Attr Text
  pub local_port : Attr ℤ

-- `azureBastionConfig`; `free` is what GetFreePort answers.
unfoldable pub azure_bastion_config :
    Library → Result ℤ → AzureBastionModel → Outcome (AzureBastionModel × TunnelConfig)
azure_bastion_config lib free model = do
  let local = if unset model.local_host then value (lit "localhost") else model.local_host
  port ← local_port_or free (value_int64 model.local_port)
  let filled = record model {
    local_host = local;
    local_port =
        if eqℤ (value_int64 model.local_port) (pos 0) then value port else model.local_port;
  }
  let cfg : TunnelConfig = record {
    bastion_host_id = value_string model.bastion_host_id;
    target_resource_id_of = value_string model.target_resource_id;
    target_ip_address = value_string model.target_ip_address;
    target_port = value_int64 model.target_port;
    local_host = value_string local;
    local_port = port;
  }
  valid ← or_fail invalid_bastion (validate lib cfg)
  done (filled, cfg)
