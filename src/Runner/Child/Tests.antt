-- ===== src/Runner/Child/Tests.antt =====
-- The child of a fork at a concrete SSH configuration.
use terraform_provider_tunne.Base.{◌≡◌, refl, none, true, false, [], pos, arith}
use terraform_provider_tunne.Errors.{ok, err, external, message, not_bastion_host}
use terraform_provider_tunne.GoText.{lit}
use terraform_provider_tunne.Libs.Fork.{ForkCalls, command}
use terraform_provider_tunne.Kubernetes.Forward.{became_ready, canceled_ending}
use terraform_provider_tunne.Ssh.Tunnel as SshTunnel
use terraform_provider_tunne.Runner.{main}
use terraform_provider_tunne.Runner.Child.{Decoders, ChildCalls, running}
use terraform_provider_tunne.Runner.Child.Command.{ssh_config, tunnel_run, command-runs}

abbrev config : SshTunnel.TunnelConfig
config = record {
  local_host = [];
  local_port = pos 9000;
  ssh_host = lit "bastion";
  ssh_key = [];
  ssh_key_passphrase = [];
  ssh_password = lit "secret";
  ssh_port = pos 0;
  ssh_user = lit "root";
  target_host = lit "db";
  target_port = pos 5432;
  target_socket = [];
}

-- A decoder that knows the JSON of this one configuration.
abbrev decoders : Decoders
decoders = record {
  bastion_json = λ t. err (external 1);
  ssh_json = λ t. ok config;
  ssm_json = λ t. err (external 1);
  kubernetes_json = λ t. err (external 1);
}

abbrev child_calls : ChildCalls
child_calls = record {
  watch = λ pid. none;
  bastion_library = record {
    parse_resource_id = λ id. err (message not_bastion_host);
    is_ip = λ ip. true;
  };
  bastion_calls = record {
    watch = none;
    credential = none;
    client = none;
    response = err (external 2);
    session = none;
    listen_error = none;
    signal_error = none;
    serve_error = none;
  };
  ssh_calls = record {
    client_config = none;
    get_client = none;
    listen_error = none;
    probe_error = none;
    signal_error = none;
    serve_error = none;
  };
  ssm_calls = record {
    watch = none;
    params_json = λ s. ok s.token_value;
    input_json = λ i. ok i.target;
    endpoint = λ region. ok region;
  };
  kubernetes_calls = record {
    rest_config = none;
    new_client = none;
    service = err (external 3);
    pods = λ selector. ok [];
    transport = none;
    forwarder = none;
    forward = record {
      canceled_before = false;
      startup = became_ready;
      canceled_ready = false;
      signal_ready = none;
      ending = canceled_ending;
    };
  };
}

abbrev calls : ForkCalls
calls = record {
  config_json = ok (lit "{}");
  open_file = none;
  mkdir_temp = ok (lit "/tmp/r1");
  ctx_err = none;
  start_pid = ok 42;
  ready = record {
    ticks = [];
    last = record {
      process = record { new_process = none; status = ok []; is_running = ok true };
      stat = none;
    };
    ctx_err = none;
  };
  environ = [];
  temp_dir = lit "/tmp";
  executable = lit "provider";
  parent_pid = pos 4711;
}

command-runs_example :
    let cmd = command (lit "ssh") (lit "{}") (lit "/tmp/r1/ready") calls in
    running decoders child_calls (main (record { env = cmd.env; args = cmd.args; unsetenv = none }))
    ≡ tunnel_run child_calls (pos 4711) (ssh_config config)
command-runs_example =
    command-runs decoders child_calls (ssh_config config) (lit "{}") (lit "/tmp/r1/ready") calls
      refl refl (omega arith)
