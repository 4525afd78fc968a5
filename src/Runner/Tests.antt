-- ===== src/Runner/Tests.antt =====
-- The dispatch at the inputs of internal/runner/tunnel_test.go.
use terraform_provider_tunne.Base.{◌≡◌, refl, true, none, List, [], ◌∷◌, pos, arith}
use terraform_provider_tunne.Errors.{message, missing_parent_pid, unknown_tunnel_type, ok, err}
use terraform_provider_tunne.GoText.{Text, lit, text_eq, atoi}
use terraform_provider_tunne.Libs.Fork.{
  ForkCalls, command, getenv, tunnel_type_env, tunnel_conf_env,
}
use terraform_provider_tunne.Runner.{
  ssh, ssm, tunnel_type, Process, Start, start_tunnel, run_tunnel, main,
}
use terraform_provider_tunne.Runner.Dispatch.{main-command, start_tunnel-eq-ok}

abbrev process : Text → List Text → Process
process conf args = record { env = (tunnel_conf_env, conf) ∷ []; args = args; unsetenv = none }

missing_pid :
    start_tunnel (lit "ssh") (process (lit "{}") (lit "provider" ∷ []))
    ≡ err (message missing_parent_pid)
unfolding start_tunnel getenv
missing_pid = refl

unknown_type :
    start_tunnel (lit "bogus") (process (lit "{}") (lit "provider" ∷ lit "1" ∷ []))
    ≡ err (message unknown_tunnel_type)
unfolding start_tunnel getenv text_eq atoi
unknown_type = refl

abbrev calls : ForkCalls
calls = record {
  config_json = ok (lit "{}");
  open_file = none;
  mkdir_temp = ok (lit "/tmp/r1");
  ctx_err = none;
  start_pid = ok 42;
  ready = record {
    ticks = [];
    last = record {
      process = record { new_process = none; status = ok []; is_running = ok true };
      stat = none;
    };
    ctx_err = none;
  };
  environ = (tunnel_type_env, lit "ssm") ∷ [];
  temp_dir = lit "/tmp";
  executable = lit "provider";
  parent_pid = pos 4711;
}

main-command_example :
    let cmd = command (lit "ssh") (lit "{}") (lit "/tmp/r1/ready") calls in
    main (record { env = cmd.env; args = cmd.args; unsetenv = none })
    ≡ run_tunnel (ok (record { tunnel = ssh; config_json = lit "{}"; parent_pid = pos 4711 }))
main-command_example = main-command ssh (lit "{}") (lit "/tmp/r1/ready") calls refl (omega arith)

abbrev started : Start
started = record { tunnel = ssm; config_json = lit "{}"; parent_pid = pos 12 }

start_tunnel-eq-ok_example : lit "ssm" ≡ tunnel_type started.tunnel
unfolding start_tunnel getenv text_eq atoi
start_tunnel-eq-ok_example =
    (start_tunnel-eq-ok (lit "ssm") (process (lit "{}") (lit "provider" ∷ lit "12" ∷ [])) started
      refl).0
