-- ===== src/Ssh/Tunnel/Tests.antt =====
-- runTunnel at concrete answers.
use terraform_provider_tunne.Base.{◌≡◌, refl, true, Option, none, some, [], pos}
use terraform_provider_tunne.Errors.{Error, external, wrap, connect_target, err}
use terraform_provider_tunne.GoText.{lit, itoa, join_host_port}
use terraform_provider_tunne.Ssh.Tunnel.{TunnelConfig, Calls, run_tunnel, target_endpoint, ssh_addr}
use terraform_provider_tunne.Ssh.Tunnel.Order.{holds, start, run_tunnel-served}

abbrev config : TunnelConfig
config = record {
  local_host = [];
  local_port = pos 9000;
  ssh_host = lit "bastion";
  ssh_key = [];
  ssh_key_passphrase = [];
  ssh_password = lit "secret";
  ssh_port = pos 0;
  ssh_user = lit "root";
  target_host = lit "::1";
  target_port = pos 5432;
  target_socket = [];
}

abbrev calls : Option Error → Calls
calls probe = record {
  client_config = none;
  get_client = none;
  listen_error = none;
  probe_error = probe;
  signal_error = none;
  serve_error = none;
}

default_port : ssh_addr config ≡ lit "bastion:22"
unfolding ssh_addr join_host_port itoa
default_port = refl

ipv6_target : target_endpoint config ≡ (lit "tcp", lit "[::1]:5432")
unfolding target_endpoint join_host_port itoa
ipv6_target = refl

unreachable :
    (run_tunnel config (calls (some (external 1)))).1 ≡ err (wrap connect_target (external 1))
unfolding run_tunnel
unreachable = refl

run_tunnel-served_example : (holds (run_tunnel config (calls none)).0 start).served ≡ true
run_tunnel-served_example = (run_tunnel-served config (calls none)).1 (refl, refl, refl, refl, refl)
