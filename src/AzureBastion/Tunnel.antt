-- ===== src/AzureBastion/Tunnel.antt =====
-- internal/azurebastion/tunnel.go: StartRemoteTunnel. What json.Unmarshal makes of the configuration
-- is an argument.
pub mod Order
pub mod Announced
mod Tests
use terraform_provider_tunne.Base.{Bool, true, false, not, Option, none, some, List, [], ◌∷◌, ◌++◌}
use terraform_provider_tunne.Errors.{
  Error, credential_chain, arm_client, listen_local, Result, ok, err, wrap_err,
}
use terraform_provider_tunne.GoText.{Text, lit, is_empty, itoa, join_host_port}
use terraform_provider_tunne.Effects.{
  Run, ◌>>=◌, ◌>>◌, acquire, ask, defer, emit, perform, result_of,
}
use terraform_provider_tunne.AzureBastion.Config.{
  TunnelConfig, TunnelPlan, Library, Response, resolve, discover_bastion, validate_bastion,
}

pub data Effect : Type 0 where
  open_client close_client close_listener notify stop_notify close_server signal_ready serve :
      Effect
  listen : Text → Effect

-- What the calls answer; `response` is the ARM API's answer for the Bastion host.
pub record Calls : Type 0 where
  pub watch : Option Error
  pub credential : Option Error
  pub client : Option Error
  pub response : Result Response
  pub session : Option Error
  pub listen_error : Option Error
  pub signal_error : Option Error
  pub serve_error : Option Error

-- What stands behind `defer server.Close()`.
unfoldable pub serving : Calls → Run Effect (Unit {0})
serving c = do
  perform signal_ready (result_of c.signal_error)
  perform serve (result_of c.serve_error)

-- What stands behind the deferred close of the session.
unfoldable pub listening : TunnelPlan → Calls → Run Effect (Unit {0})
unfolding serving
listening plan c = do
  acquire (listen (join_host_port plan.plan_local_host (itoa plan.plan_local_port)))
      (wrap_err listen_local (result_of c.listen_error))
  defer close_listener (do emit notify; defer stop_notify (defer close_server (serving c)))

-- `StartRemoteTunnel` behind the decoding of its configuration.
unfoldable pub start_remote_tunnel : Library → TunnelConfig → Calls → Run Effect (Unit {0})
unfolding listening
start_remote_tunnel lib cfg c = do
  plan ← ask (resolve lib cfg)
  ask (result_of c.watch)
  ask (wrap_err credential_chain (result_of c.credential))
  ask (wrap_err arm_client (result_of c.client))
  info ← ask (discover_bastion c.response)
  ask (validate_bastion info (not (is_empty plan.hostname)))
  acquire open_client (result_of c.session)
  defer close_client (listening plan c)

unfoldable pub start_decoded : Library → Result TunnelConfig → Calls → Run Effect (Unit {0})
start_decoded lib decoded c = do cfg ← ask decoded; start_remote_tunnel lib cfg c
