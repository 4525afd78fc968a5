-- ===== src/Libs/Fork/Tests.antt =====
-- Starts of a tunnel process at concrete answers.
use terraform_provider_tunne.Base.{◌≡◌, refl, true, Option, none, [], ◌∷◌, pos}
use terraform_provider_tunne.Errors.{Error, ok}
use terraform_provider_tunne.GoText.{lit}
use terraform_provider_tunne.Libs.Watch.{
  ProcessInfo, ReadyWait, other_status, wait_for_ready_file, check_process_exists,
}
use terraform_provider_tunne.Libs.Fork.{ForkCalls, fork_tunnel, getenv, command, tunnel_type_env}
use terraform_provider_tunne.Libs.Fork.Cleanup.{fork_tunnel_ready}
use terraform_provider_tunne.Libs.Fork.Environment.{command-getenv}

abbrev alive : ProcessInfo
alive = record { new_process = none; status = ok (other_status ∷ []); is_running = ok true }

abbrev ready_at : Option Error → ReadyWait
ready_at stat = record {
  ticks = [];
  last = record { process = alive; stat = stat };
  ctx_err = none;
}

abbrev calls : Option Error → ForkCalls
calls stat = record {
  config_json = ok (lit "{}");
  open_file = none;
  mkdir_temp = ok (lit "/tmp/r1");
  ctx_err = none;
  start_pid = ok 42;
  ready = ready_at stat;
  environ = (tunnel_type_env, lit "ssm") ∷ [];
  temp_dir = lit "/tmp";
  executable = lit "provider";
  parent_pid = pos 7;
}

fork_tunnel_ready_example : (calls none).start_pid ≡ ok 42
unfolding fork_tunnel wait_for_ready_file check_process_exists
fork_tunnel_ready_example = (fork_tunnel_ready (lit "ssh") (lit "a.log") (calls none) refl).1

command-getenv_example :
    getenv tunnel_type_env (command (lit "ssh") (lit "{}") (lit "/tmp/r1/ready") (calls none)).env
    ≡ lit "ssh"
command-getenv_example =
    (command-getenv (lit "ssh") (lit "{}") (lit "/tmp/r1/ready") (calls none)).0
