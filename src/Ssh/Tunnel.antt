-- ===== src/Ssh/Tunnel.antt =====
-- internal/ssh/tunnel.go: StartRemoteTunnel and runTunnel, the target and the name of the log file.
-- The log lines are left out; what json.Unmarshal makes of the configuration is an argument.
pub mod Order
pub mod Announced
mod Tests
use terraform_provider_tunne.Base.{
  ℕ, Bool, true, false, Option, none, some, List, [], ◌∷◌, ◌++◌, if◌then◌else◌, ℤ, pos, eqℤ,
}
use terraform_provider_tunne.Errors.{
  Error, wrap, connect_bastion, listen_on, connect_target, Result, ok, err, wrap_err,
}
use terraform_provider_tunne.GoText.{
  Text, lit, is_empty, or_default, itoa, join_host_port, replace_all,
}
use terraform_provider_tunne.Effects.{
  Run, ◌>>=◌, ◌>>◌, acquire, ask, defer, emit, perform, result_of,
}

pub record TunnelConfig : Type 0 where
  pub local_host : Text
  pub local_port : ℤ
  pub ssh_host : Text
  pub ssh_key : Text
  pub ssh_key_passphrase : Text
  pub ssh_password : Text
  pub ssh_port : ℤ
  pub ssh_user : Text
  pub target_host : Text
  pub target_port : ℤ
  pub target_socket : Text

by_socket : Text → TunnelConfig → Text × Text
by_socket [] cfg = (lit "tcp", join_host_port cfg.target_host (itoa cfg.target_port))
by_socket (c ∷ path) cfg = (lit "unix", c ∷ path)

-- `targetEndpoint`: the network and the address.
pub target_endpoint : TunnelConfig → Text × Text
unfolding by_socket
target_endpoint cfg = by_socket cfg.target_socket cfg

log_target : Text → TunnelConfig → Text
log_target [] cfg = itoa cfg.target_port
log_target (c ∷ path) cfg = replace_all b'/' b'_' (c ∷ path)

-- The name that `ForkRemoteTunnel` gives the log file, where `/` is the path separator.
pub log_name : TunnelConfig → Text
unfolding log_target
log_name cfg =
    lit "ssh-tunnel-"
    ++ (cfg.ssh_host ++ (lit "-" ++ (log_target cfg.target_socket cfg ++ lit ".log")))

-- `sshAddr` and `localAddr` of runTunnel, with their defaults.
pub ssh_addr : TunnelConfig → Text
ssh_addr cfg =
    join_host_port cfg.ssh_host (itoa (if eqℤ cfg.ssh_port (pos 0) then pos 22 else cfg.ssh_port))

pub local_addr : TunnelConfig → Text
local_addr cfg = join_host_port (or_default cfg.local_host (lit "localhost")) (itoa cfg.local_port)

-- `dial_bastion`: the pool has got a client of this address. Only what succeeds is an effect of its
-- own; the deferred calls always run.
pub data Effect : Type 0 where
  notify stop_notify : Effect
  dial_bastion listen : Text → Effect
  close_pool close_forwarder : Effect
  open_probe : Text → Text → Effect
  close_probe signal_ready serve : Effect

-- What the calls of runTunnel answer.
pub record Calls : Type 0 where
  pub client_config : Option Error
  pub get_client : Option Error
  pub listen_error : Option Error
  pub probe_error : Option Error
  pub signal_error : Option Error
  pub serve_error : Option Error

-- The probe of the target, the signal and the serving, behind `defer fwd.Close()`.
forward : TunnelConfig → Calls → Run Effect (Unit {0})
forward cfg c =
    let (network, target) = target_endpoint cfg in
    do
      acquire (open_probe network target) (wrap_err connect_target (result_of c.probe_error))
      emit close_probe
      perform signal_ready (result_of c.signal_error)
      perform serve (result_of c.serve_error)

-- What runs behind `defer clients.close()`.
connect : TunnelConfig → Calls → Run Effect (Unit {0})
unfolding forward
connect cfg c = do
  acquire (dial_bastion (ssh_addr cfg)) (wrap_err connect_bastion (result_of c.get_client))
  acquire (listen (local_addr cfg)) (wrap_err listen_on (result_of c.listen_error))
  defer close_forwarder (forward cfg c)

unfoldable pub run_tunnel : TunnelConfig → Calls → Run Effect (Unit {0})
unfolding connect
run_tunnel cfg c = do
  ask (result_of c.client_config)
  emit notify
  defer stop_notify (defer close_pool (connect cfg c))

-- `StartRemoteTunnel`: the decoded configuration, and what WatchProcess answers for the parent.
unfoldable pub start_remote_tunnel :
    Result TunnelConfig → Option Error → Calls → Run Effect (Unit {0})
start_remote_tunnel decoded watch c = do cfg ← ask decoded; ask (result_of watch); run_tunnel cfg c
