-- ===== src/AzureBastion/Endpoint/Tests.antt =====
-- A new session at the DNS name of a Bastion host.
use terraform_provider_tunne.Base.{◌≡◌, refl, false, [], pos}
use terraform_provider_tunne.Errors.{ok}
use terraform_provider_tunne.GoText.{lit, text_eq, contains}
use terraform_provider_tunne.AzureBastion.Config.{TunnelPlan}
use terraform_provider_tunne.AzureBastion.Endpoint.{
  NetUrl, BaseUrls, NewSession, new_session_client, ws_url,
}
use terraform_provider_tunne.AzureBastion.Endpoint.Encryption.{OnlyAt, new_session_client-encrypted}

-- A parser that takes every text for a path of one host.
abbrev net : NetUrl
net = record {
  parse = λ t. ok (record { scheme = lit "https"; host = lit "bst.example.com" });
  path_escape = λ t. t;
  query_escape = λ t. t;
}

abbrev plan : TunnelPlan
plan = record {
  bastion = record {
    subscription_id = lit "s";
    resource_group_name = lit "g";
    name = lit "b";
    resource_type = lit "Microsoft.Network/bastionHosts";
  };
  plan_target = lit "/vm";
  hostname = [];
  plan_target_port = pos 22;
  plan_local_host = lit "localhost";
  plan_local_port = pos 9000;
}

abbrev urls : BaseUrls
urls = record {
  base_url = lit "https://bst.example.com";
  ws_base_url = lit "wss://bst.example.com";
}

socket_url :
    ws_url net urls
      (record { response_auth_token = []; response_node_id = lit "n"; websocket_token = lit "w" })
    ≡ lit "wss://bst.example.com/webtunnelv2/w?X-Node-Id=n"
unfolding ws_url
socket_url = refl

abbrev session : NewSession
session = record {
  urls = urls;
  client = record {
    target_resource_id = lit "/vm";
    target_port = pos 22;
    hostname = [];
    auth_token = [];
    node_id = [];
    cached_token = record { token = []; expires_on = 0 };
  };
}

no_scheme : contains (lit "bst") (lit "://") ≡ false
unfolding contains
no_scheme = refl

created : new_session_client net (lit "bst") plan ≡ ok session
unfolding new_session_client contains text_eq
created = refl

new_session_client-encrypted_example : OnlyAt net (lit "https://") (lit "wss://") session.urls
new_session_client-encrypted_example =
    new_session_client-encrypted net (lit "bst") plan session (λ t u h. cc) no_scheme created
