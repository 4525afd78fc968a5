-- ===== src/Ssm/Tunnel/Tests.antt =====
-- Sessions that a fork takes over, and one that it does not.
use terraform_provider_tunne.Base.{◌≡◌, refl, true, none, some, [], ◌∷◌, take, pos, ◌⊎◌}
use terraform_provider_tunne.Errors.{Error, ok, err, canceled}
use terraform_provider_tunne.GoText.{Text, lit}
use terraform_provider_tunne.Libs.Fork.{ForkCalls}
use terraform_provider_tunne.Libs.Watch.{other_status}
use terraform_provider_tunne.Ssm.Session.{SessionParams, TunnelConfig, create_session_input}
use terraform_provider_tunne.Ssm.Tunnel.{fork_remote_tunnel, ChildCalls, plugin_args}
use terraform_provider_tunne.Ssm.Tunnel.Start.{
  PortAgreed, start_remote_tunnel, start_remote_tunnel-PortAgreed,
}
use terraform_provider_tunne.Ssm.Tunnel.Cleanup.{
  open_sessions, sessions_of, fork_remote_tunnel-sessions, create_session_input-params, param,
  plugin_args-session,
}

abbrev session : SessionParams
session = record { session_id = lit "s-1"; token_value = lit "t"; stream_url = lit "wss://x" }

abbrev config : TunnelConfig
config = record {
  local_port = lit "5432";
  ssm_instance = lit "i-1";
  ssm_document = [];
  ssm_profile = lit "dev";
  ssm_role_arn = [];
  ssm_region = lit "eu-west-1";
  target_host = lit "db";
  target_port = [];
  session_params = some session;
}

abbrev canceled_fork : TunnelConfig → ForkCalls
canceled_fork cfg = record {
  config_json = ok (lit "{}");
  open_file = none;
  mkdir_temp = ok (lit "/tmp/r");
  ctx_err = some canceled;
  start_pid = ok 9;
  ready = record {
    ticks = [];
    last = record {
      process = record {
        new_process = none;
        status = ok (other_status ∷ []);
        is_running = ok true;
      };
      stat = none;
    };
    ctx_err = none;
  };
  environ = [];
  temp_dir = lit "/tmp";
  executable = lit "provider";
  parent_pid = pos 1;
}

fork_remote_tunnel-sessions_example :
    open_sessions (lit "s-1") (fork_remote_tunnel config (ok session) canceled_fork).effects 0
    ≡ sessions_of (fork_remote_tunnel config (ok session) canceled_fork).process
fork_remote_tunnel-sessions_example = fork_remote_tunnel-sessions config session canceled_fork

create_session_input-params_example :
    param (lit "portNumber") (create_session_input config).parameters ≡ []
create_session_input-params_example = (create_session_input-params config).2

abbrev child : ChildCalls
child = record {
  watch = none;
  params_json = λ s. ok s.token_value;
  input_json = λ i. ok i.target;
  endpoint = λ region. ok region;
}

plugin_args-session_example :
    (s : SessionParams) × (session_json : Text) × (config.session_params ≡ some s)
    × (child.params_json s ≡ ok session_json)
    × (take 3 (
          lit "session-manager-plugin"
          ∷ lit "t"
          ∷ lit "eu-west-1"
          ∷ lit "StartSession"
          ∷ lit "dev"
          ∷ lit "i-1"
          ∷ lit "eu-west-1"
          ∷ [])
        ≡ lit "session-manager-plugin" ∷ session_json ∷ config.ssm_region ∷ [])
unfolding plugin_args create_session_input
plugin_args-session_example = (plugin_args-session config child).1 refl

start_remote_tunnel-PortAgreed_example :
    ((e : Error) × (start_remote_tunnel (ok config) child ≡ ([], err e)))
    ⊎ PortAgreed config child (start_remote_tunnel (ok config) child)
start_remote_tunnel-PortAgreed_example = start_remote_tunnel-PortAgreed config child
