-- ===== src/AzureBastion/Tunnel/Tests.antt =====
-- A tunnel to an IP address through a Bastion host that supports it.
use terraform_provider_tunne.Base.{◌≡◌, refl, true, false, none, some, [], pos}
use terraform_provider_tunne.Errors.{ok}
use terraform_provider_tunne.GoText.{lit, text_eq, trim_space}
use terraform_provider_tunne.AzureBastion.Config.{
  TunnelConfig, TunnelPlan, ResourceId, Library, BastionInfo, resolve, parse_bastion_host_id,
  is_set, equal_fold, discover_bastion, validate_bastion,
}
use terraform_provider_tunne.AzureBastion.Tunnel.{Calls, start_remote_tunnel}
use terraform_provider_tunne.AzureBastion.Tunnel.Order.{
  holds, start, start_remote_tunnel-holds, start_remote_tunnel-served,
}

abbrev bastion : ResourceId
bastion = record {
  subscription_id = lit "s";
  resource_group_name = lit "g";
  name = lit "b";
  resource_type = lit "Microsoft.Network/bastionHosts";
}

abbrev library : Library
library = record { parse_resource_id = λ id. ok bastion; is_ip = λ ip. text_eq ip (lit "10.0.0.5") }

abbrev config : TunnelConfig
config = record {
  bastion_host_id = lit "/subscriptions/s";
  target_resource_id_of = [];
  target_ip_address = lit "10.0.0.5";
  target_port = pos 22;
  local_host = [];
  local_port = pos 9000;
}

abbrev calls : Calls
calls = record {
  watch = none;
  credential = none;
  client = none;
  response = ok (record {
    sku_name = some (some (lit "Standard"));
    properties = some (record {
      dns = some (lit "bst.example.com");
      tunneling = some true;
      ip_connect = some true;
    });
  });
  session = none;
  listen_error = none;
  signal_error = none;
  serve_error = none;
}

abbrev plan : TunnelPlan
plan = record {
  bastion = bastion;
  plan_target =
      lit "/subscriptions/s/resourceGroups/g/providers/Microsoft.Network/bh-hostConnect/10.0.0.5";
  hostname = lit "10.0.0.5";
  plan_target_port = pos 22;
  plan_local_host = lit "localhost";
  plan_local_port = pos 9000;
}

abbrev info : BastionInfo
info = record {
  dns_name = lit "bst.example.com";
  sku = lit "Standard";
  enable_tunneling = true;
  enable_ip_connect = true;
}

resolved : resolve library config ≡ ok plan
unfolding resolve parse_bastion_host_id is_set equal_fold text_eq trim_space
resolved = refl

described : discover_bastion calls.response ≡ ok info
unfolding discover_bastion
described = refl

supported : validate_bastion info true ≡ ok tt
unfolding validate_bastion text_eq
supported = refl

start_remote_tunnel-holds_example :
    (holds (start_remote_tunnel library config calls).0 start).session ≡ false
start_remote_tunnel-holds_example = (start_remote_tunnel-holds library config calls).1

start_remote_tunnel-served_example :
    (holds (start_remote_tunnel library config calls).0 start).served ≡ true
start_remote_tunnel-served_example =
    (start_remote_tunnel-served library config calls).1
      (plan, info, resolved, described, supported, refl, refl, refl, refl, refl, refl)
