-- ===== src/AzureBastion/Server/Tests.antt =====
-- The handler of a local connection at concrete answers.
use terraform_provider_tunne.Base.{pos, none, []}
use terraform_provider_tunne.Errors.{err, external}
use terraform_provider_tunne.GoText.{lit}
use terraform_provider_tunne.Libs.Relay.Closing.{fresh}
use terraform_provider_tunne.AzureBastion.Session.{
  SessionClient, TokenResponse, answered, open_session,
}
use terraform_provider_tunne.AzureBastion.Server.{handle}
use terraform_provider_tunne.AzureBastion.Server.Draining.{Bounded, handle-Bounded}

abbrev client : SessionClient
client = record {
  target_resource_id = lit "/vm";
  target_port = pos 22;
  hostname = [];
  auth_token = [];
  node_id = [];
  cached_token = record { token = lit "aad"; expires_on = 1000 };
}

abbrev response : TokenResponse
response = record {
  response_auth_token = lit "a1";
  response_node_id = lit "n1";
  websocket_token = lit "w1";
}

handle-Bounded_example :
    Bounded fresh
      (open_session 0 (err (external 1)) (answered 200 response) none client).1
      (handle 0 (err (external 1)) (answered 200 response) none fresh client).1
handle-Bounded_example =
    handle-Bounded 0 (err (external 1)) (answered 200 response) none fresh client
