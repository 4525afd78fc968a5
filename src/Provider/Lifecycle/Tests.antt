-- ===== src/Provider/Lifecycle/Tests.antt =====
-- Tunnels that are opened and closed.
use terraform_provider_tunne.Base.{
  ℕ, ◌≡◌, refl, ◌⊎◌, inl, inr, false, true, Option, none, some, [], ◌∷◌, ℤ, pos, arith, ◌<◌, ◌^◌,
}
use terraform_provider_tunne.Errors.{Error, Result, ok}
use terraform_provider_tunne.GoText.{Text, lit, itoa, join_host_port}
use terraform_provider_tunne.Libs.Watch.{other_status, wait_for_ready_file, check_process_exists}
use terraform_provider_tunne.Libs.Fork.{ForkCalls, fork_tunnel}
use terraform_provider_tunne.Libs.Fork.Cleanup.{leaves, nothing, running}
use terraform_provider_tunne.Ssh.Tunnel.{TunnelConfig}
use terraform_provider_tunne.Provider.{null, value, value_string, value_int64, Outcome, done}
use terraform_provider_tunne.Provider.Ssh.{SshModel, Host, ssh_config, validate_ssh_target}
use terraform_provider_tunne.Provider.Lifecycle.{open_tunnel, ssh_fork, close_tunnel, ssh_open}
use terraform_provider_tunne.Ssh.Tunnel.{run_tunnel, start_remote_tunnel, local_addr}
use terraform_provider_tunne.Ssh.Tunnel.Announced.{IsUp}
use terraform_provider_tunne.Provider.Lifecycle.Ready.{
  Child, effects_of, IsOwnMarker, ssh_open-IsUp,
}
use terraform_provider_tunne.Provider.Lifecycle.Closing.{
  IsOpen, IsNotOpen, Reachable, close_tunnel-open_tunnel, ssh_open-leaves,
}

-- A configuration that is a port, and a fork that returns the process 42.
abbrev to_port : ℕ → Outcome (ℕ × ℕ)
to_port n = done (n, n)

abbrev forked : ℕ → Text × Result ℕ
forked port = (lit "forked", ok 42)

abbrev all_there : ℤ → Option Error × Option Error
all_there pid = (none, none)

ok_pid : (cfg pid : ℕ) → (forked cfg).1 ≡ ok pid → (pid < 2 ^ 31) × Reachable all_there pid
ok_pid cfg pid h = let pid_eq : 42 ≡ pid = ground arith in (omega arith, refl)

close_tunnel-open_tunnel_example :
    ((pid : ℕ) × IsOpen to_port forked (open_tunnel (done 5432) to_port forked []) pid
      × (close_tunnel all_there (open_tunnel (done 5432) to_port forked []).tunnel_pid
          ≡ record { interrupted = some (pos pid); close_diagnostics = [] }))
    ⊎ IsNotOpen forked (open_tunnel (done 5432) to_port forked [])
close_tunnel-open_tunnel_example =
    close_tunnel-open_tunnel to_port forked (done 5432) [] all_there ok_pid

abbrev host : Host
host = record { free_port = ok (pos 40000); current_user = ok (lit "me") }

abbrev model : SshModel
model = record {
  local_host = null;
  local_port = null;
  ssh_host = value (lit "bastion");
  ssh_key = null;
  ssh_key_passphrase = null;
  ssh_password = null;
  ssh_port = null;
  ssh_user = null;
  target_host = value (lit "db");
  target_port = value (pos 5432);
  target_socket = null;
}

abbrev calls : TunnelConfig → ForkCalls
calls cfg = record {
  config_json = ok (lit "{}");
  open_file = none;
  mkdir_temp = ok (lit "/tmp/r1");
  ctx_err = none;
  start_pid = ok 42;
  ready = record {
    ticks = [];
    last = record {
      process = record {
        new_process = none;
        status = ok (other_status ∷ []);
        is_running = ok true;
      };
      stat = none;
    };
    ctx_err = none;
  };
  environ = [];
  temp_dir = lit "/tmp";
  executable = lit "provider";
  parent_pid = pos 7;
}

abbrev config : TunnelConfig
config = record {
  local_host = lit "localhost";
  local_port = pos 40000;
  ssh_host = lit "bastion";
  ssh_key = [];
  ssh_key_passphrase = [];
  ssh_password = [];
  ssh_port = pos 22;
  ssh_user = lit "me";
  target_host = lit "db";
  target_port = pos 5432;
  target_socket = [];
}

opened : (ssh_open host calls (done model) []).forks ≡ some (ssh_fork calls config).0
unfolding ssh_open ssh_fork open_tunnel ssh_config validate_ssh_target fork_tunnel
    wait_for_ready_file check_process_exists
opened = refl

ssh_open-leaves_example :
    ((pid : ℕ) × ((ssh_open host calls (done model) []).tunnel_pid ≡ some (itoa (pos pid)))
      × (leaves (ssh_fork calls config).0 nothing
          ≡ record { log = false; dir = false; child = running pid }))
    ⊎ (((ssh_open host calls (done model) []).tunnel_pid ≡ none)
        × (leaves (ssh_fork calls config).0 nothing ≡ nothing))
ssh_open-leaves_example =
    ssh_open-leaves host calls (done model) [] (ssh_fork calls config).0 opened

-- A child whose calls all succeed; the fork sees it when it serves.
abbrev up : TunnelConfig → Child
up cfg = record {
  watch = none;
  calls = record {
    client_config = none;
    get_client = none;
    listen_error = none;
    probe_error = none;
    signal_error = none;
    serve_error = none;
  };
  so_far = 7;
}

up_signals : IsOwnMarker calls up
unfolding start_remote_tunnel run_tunnel
up_signals cfg ready = inr (inr (inr (inr (inr (inl refl)))))

ssh_open-IsUp_example :
    ((ssh_open host calls (done model) []).state ≡ none)
    ⊎ ((given : SshModel) × (filled : SshModel) × (cfg : TunnelConfig) × ((ssh_open host calls
            (done model)
            []).state
          ≡ some filled)
        × (ssh_config host given ≡ done (filled, cfg))
        × IsUp cfg (effects_of up cfg)
        × (local_addr cfg
            ≡ join_host_port
                (value_string filled.local_host)
                (itoa (value_int64 filled.local_port))))
ssh_open-IsUp_example = ssh_open-IsUp host calls (done model) [] up up_signals
