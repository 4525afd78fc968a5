-- ===== src/Provider/AzureBastion/Tests.antt =====
-- A tunnel to an IP address.
use terraform_provider_tunne.Base.{◌≡◌, refl, [], pos}
use terraform_provider_tunne.Errors.{ok}
use terraform_provider_tunne.GoText.{lit, text_eq, trim_space}
use terraform_provider_tunne.AzureBastion.Config.{
  TunnelConfig, ResourceId, Library, validate, resolve, parse_bastion_host_id, is_set, equal_fold,
}
use terraform_provider_tunne.AzureBastion.Config.Validation.{Acceptable}
use terraform_provider_tunne.Provider.{null, value, done}
use terraform_provider_tunne.Provider.AzureBastion.{AzureBastionModel, azure_bastion_config}
use terraform_provider_tunne.Provider.AzureBastion.Validated.{azure_bastion_config-Acceptable}

abbrev bastion : ResourceId
bastion = record {
  subscription_id = lit "s";
  resource_group_name = lit "g";
  name = lit "b";
  resource_type = lit "Microsoft.Network/bastionHosts";
}

abbrev library : Library
library = record { parse_resource_id = λ id. ok bastion; is_ip = λ ip. text_eq ip (lit "10.0.0.5") }

abbrev model : AzureBastionModel
model = record {
  bastion_host_id = value (lit "/subscriptions/s");
  target_resource_id = null;
  target_ip_address = value (lit "10.0.0.5");
  target_port = value (pos 3389);
  local_host = null;
  local_port = null;
}

abbrev filled : AzureBastionModel
filled = record model { local_host = value (lit "localhost"); local_port = value (pos 40000) }

abbrev config : TunnelConfig
config = record {
  bastion_host_id = lit "/subscriptions/s";
  target_resource_id_of = [];
  target_ip_address = lit "10.0.0.5";
  target_port = pos 3389;
  local_host = lit "localhost";
  local_port = pos 40000;
}

made : azure_bastion_config library (ok (pos 40000)) model ≡ done (filled, config)
unfolding azure_bastion_config validate resolve parse_bastion_host_id is_set equal_fold text_eq
    trim_space
made = refl

azure_bastion_config-Acceptable_example : Acceptable library config
azure_bastion_config-Acceptable_example =
    (azure_bastion_config-Acceptable library (ok (pos 40000)) model filled config made).0
