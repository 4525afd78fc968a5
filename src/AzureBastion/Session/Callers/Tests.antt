-- ===== src/AzureBastion/Session/Callers/Tests.antt =====
-- Two callers that negotiate at the same time.
use terraform_provider_tunne.Base.{◌≡◌, refl, List, [], ◌∷◌, pos}
use terraform_provider_tunne.GoText.{lit}
use terraform_provider_tunne.AzureBastion.Session.{SessionClient, answered, negotiate}
use terraform_provider_tunne.AzureBastion.Session.Callers.{Event, sends, receives, run, share}
use terraform_provider_tunne.AzureBastion.Session.Callers.Serial.{
  Call, serial, settled, WaitersOk, run-serial,
}

abbrev client : SessionClient
client = record {
  target_resource_id = lit "/vm";
  target_port = pos 22;
  hostname = [];
  auth_token = [];
  node_id = [];
  cached_token = record { token = lit "aad"; expires_on = 1000 };
}

-- The second caller sends only once the first has its answer.
abbrev two_callers : List Event
two_callers =
    sends 1 (lit "aad")
    ∷ sends 2 (lit "aad")
    ∷ receives 1 (
        answered 200 (record {
          response_auth_token = lit "a1";
          response_node_id = lit "n1";
          websocket_token = lit "w1";
        }))
    ∷ sends 2 (lit "aad")
    ∷ []

second_continues : (run (share client) two_callers).client.auth_token ≡ lit "a1"
unfolding run negotiate
second_continues = refl

run-serial_example :
    (calls : List Call) × (settled (run (share client) two_callers) ≡ serial client calls)
    × WaitersOk
        (run (share client) two_callers).locked
        (run (share client) two_callers).waiters
        (run (share client) two_callers).client
run-serial_example = run-serial client two_callers
