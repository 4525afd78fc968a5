-- ===== src/AzureBastion/Config/Tests.antt =====
-- Configurations, accepted and refused.
use terraform_provider_tunne.Base.{ℕ, ◌≡◌, refl, true, false, [], pos, inl, inr}
use terraform_provider_tunne.Errors.{message, ip_connect_port, ok, err}
use terraform_provider_tunne.GoText.{lit, text_eq, trim_space}
use terraform_provider_tunne.AzureBastion.Config.{
  TunnelConfig, ResourceId, Library, is_set, equal_fold, parse_bastion_host_id, resolve, validate,
  BastionInfo, validate_bastion, TunnelPlan,
}
use terraform_provider_tunne.AzureBastion.Config.Validation.{
  Acceptable, validate-Acceptable, resolve-eq-ok, validate_bastion_iff,
}

abbrev host : ResourceId
host = record {
  subscription_id = lit "s";
  resource_group_name = lit "g";
  name = lit "b";
  resource_type = lit "microsoft.network/BASTIONHOSTS";
}

abbrev library : Library
library = record { parse_resource_id = λ id. ok host; is_ip = λ ip. text_eq ip (lit "10.0.0.4") }

abbrev by_ip : ℕ → TunnelConfig
by_ip port = record {
  bastion_host_id = lit "/subscriptions/s";
  target_resource_id_of = lit " ";
  target_ip_address = lit "10.0.0.4";
  target_port = pos port;
  local_host = [];
  local_port = pos 9000;
}

abbrev plan : TunnelPlan
plan = record {
  bastion = host;
  plan_target =
      lit "/subscriptions/s/resourceGroups/g/providers/Microsoft.Network/bh-hostConnect/10.0.0.4";
  hostname = lit "10.0.0.4";
  plan_target_port = pos 22;
  plan_local_host = lit "localhost";
  plan_local_port = pos 9000;
}

resolved : resolve library (by_ip 22) ≡ ok plan
unfolding resolve parse_bastion_host_id equal_fold is_set trim_space text_eq
resolved = refl

wrong_port : resolve library (by_ip 80) ≡ err (message ip_connect_port)
unfolding resolve parse_bastion_host_id equal_fold is_set trim_space text_eq
wrong_port = refl

validate-Acceptable_example : Acceptable library (by_ip 22)
unfolding validate resolve parse_bastion_host_id equal_fold is_set trim_space text_eq
validate-Acceptable_example = (validate-Acceptable library (by_ip 22)).0 refl

resolve-eq-ok_example : plan.plan_target_port ≡ pos 22
resolve-eq-ok_example = (resolve-eq-ok library (by_ip 22) resolved).0

abbrev info : BastionInfo
info = record {
  dns_name = lit "bst.example.com";
  sku = lit "Premium";
  enable_tunneling = true;
  enable_ip_connect = false;
}

validate_bastion_iff_example : validate_bastion info false ≡ ok tt
validate_bastion_iff_example = (validate_bastion_iff info false).1 (inr refl, refl, inl refl, refl)
