-- ===== src/AzureBastion/Session/Tests.antt =====
-- Sessions at concrete answers.
use terraform_provider_tunne.Base.{◌≡◌, refl, true, none, some, List, [], ◌∷◌, pos, arith}
use terraform_provider_tunne.Errors.{external, ok, err, is_ok}
use terraform_provider_tunne.GoText.{lit}
use terraform_provider_tunne.AzureBastion.Session.{
  SessionClient, TokenResponse, answered, not_sent, delete_answered, negotiate, access_token,
  open_session,
}
use terraform_provider_tunne.AzureBastion.Session.Tokens.{
  after, Call, negotiates, closes, run, held, held_after, negotiate_iff, auth_token-held,
  close-held, access_token-cached,
}

abbrev client : SessionClient
client = record {
  target_resource_id = lit "/vm";
  target_port = pos 22;
  hostname = [];
  auth_token = [];
  node_id = [];
  cached_token = record { token = lit "aad"; expires_on = 1000 };
}

abbrev response : TokenResponse
response = record {
  response_auth_token = lit "a1";
  response_node_id = lit "n1";
  websocket_token = lit "w1";
}

opened : (open_session 0 (err (external 1)) (answered 200 response) none client).1 ≡ ok response
unfolding open_session access_token negotiate
opened = refl

negotiate_iff_example : is_ok (negotiate (answered 200 response) client).1 ≡ true
negotiate_iff_example = (negotiate_iff client 200 response).0.1 (refl, refl, refl, refl)

abbrev calls : List Call
calls = negotiates (answered 200 response) ∷ negotiates (not_sent (external 2)) ∷ []

auth_token-held_example : held client none calls ≡ some (lit "a1")
unfolding held_after after negotiate
auth_token-held_example = auth_token-held client calls

close-held_example :
    held_after (run client calls) (held client none calls) (closes (delete_answered 404)) ≡ none
close-held_example = (close-held client calls (delete_answered 404) (delete_answered 200)).0

access_token-cached_example : access_token 600 (err (external 1)) client ≡ (client, ok (lit "aad"))
access_token-cached_example = (access_token-cached 600 (err (external 1)) client).1 (omega arith)
