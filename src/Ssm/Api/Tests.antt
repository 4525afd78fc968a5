-- ===== src/Ssm/Api/Tests.antt =====
-- The SSM API at an answer that lacks a value.
use terraform_provider_tunne.Base.{◌≡◌, refl, none, some, []}
use terraform_provider_tunne.Errors.{ok, deadline_exceeded}
use terraform_provider_tunne.GoText.{lit}
use terraform_provider_tunne.Ssm.Session.{TunnelConfig}
use terraform_provider_tunne.Ssm.Api.{
  SsmClient, nil_pointer, start_tunnel_session, terminate_tunnel_session,
}

abbrev config : TunnelConfig
config = record {
  local_port = lit "5432";
  ssm_instance = lit "i-1";
  ssm_document = [];
  ssm_profile = [];
  ssm_role_arn = [];
  ssm_region = [];
  target_host = [];
  target_port = [];
  session_params = none;
}

-- A client whose sessions have no URL, and which passes on that its context is done.
abbrev no_url : SsmClient
no_url = record {
  start_session = λ input. ok (record {
    output_session_id = some (lit "s-1");
    output_token_value = some (lit "t");
    output_stream_url = none;
  });
  terminate_session = λ ctx id. ctx.done;
}

panics : start_tunnel_session no_url config ≡ nil_pointer
unfolding start_tunnel_session
panics = refl

terminated :
    terminate_tunnel_session no_url
      (record { done = some deadline_exceeded; deadline = none })
      (record { session_id = lit "s-1"; token_value = lit "t"; stream_url = [] })
    ≡ none
unfolding terminate_tunnel_session
terminated = refl
