-- ===== src/Kubernetes/Tunnel.antt =====
-- internal/kubernetes/tunnel.go: StartRemoteTunnel and runTunnel, and the name of the log file. The
-- log lines are left out; what json.Unmarshal makes of the configuration is an argument.
pub mod Order
mod Tests
use terraform_provider_tunne.Base.{Bool, true, false, Option, none, some, List, [], ◌∷◌, ◌++◌, map}
use terraform_provider_tunne.Errors.{Error, create_client, Result, ok, err, wrap_err}
use terraform_provider_tunne.GoText.{Text, lit, itoa}
use terraform_provider_tunne.Effects.{Run, ◌>>=◌, ◌>>◌, after, ask, emit, perform, defer, result_of}
use terraform_provider_tunne.Kubernetes.Config.{TunnelConfig}
use terraform_provider_tunne.Kubernetes.Endpoints.{Service, Pod, Endpoint, resolve_endpoint}
use terraform_provider_tunne.Kubernetes.Forward.{ForwardCalls, new_port_forward, run_forward}
use terraform_provider_tunne.Kubernetes.Forward as Forward

-- The name that `ForkRemoteTunnel` gives the log file.
pub log_name : TunnelConfig → Text
log_name c =
    lit "k8s-tunnel-"
    ++ (c.namespace
        ++ (lit "-" ++ (c.service_name ++ (lit "-" ++ (itoa c.target_port ++ lit ".log")))))

pub data Effect : Type 0 where
  notify stop_notify : Effect
  forward_to : Endpoint → Effect
  forwards : Forward.Effect → Effect

-- What the calls of runTunnel answer: the API server's answers are those for the service and for
-- the pods of a selector.
pub record Calls : Type 0 where
  pub rest_config : Option Error
  pub new_client : Option Error
  pub service : Result Service
  pub pods : List (Text × Text) → Result (List Pod)
  pub transport : Option Error
  pub forwarder : Option Error
  pub forward : ForwardCalls

-- The port forward's own effects, among the tunnel's.
run_forwards : ForwardCalls → Run Effect (Unit {0})
run_forwards c = let (es, r) = run_forward c in (map forwards es, r)

-- What stands behind `defer stop()`.
connect : TunnelConfig → Calls → Run Effect (Unit {0})
unfolding run_forwards
connect cfg c = do
  ep ← ask (resolve_endpoint cfg.target_port c.service c.pods)
  ask (new_port_forward c.transport c.forwarder)
  emit (forward_to ep)
  run_forwards c.forward

pub run_tunnel : TunnelConfig → Calls → Run Effect (Unit {0})
unfolding connect
run_tunnel cfg c = do
  ask (result_of c.rest_config)
  ask (wrap_err create_client (result_of c.new_client))
  emit notify
  defer stop_notify (connect cfg c)

-- `StartRemoteTunnel`: the decoded configuration, and what WatchProcess answers for the parent.
unfoldable pub start_remote_tunnel :
    Result TunnelConfig → Option Error → Calls → Run Effect (Unit {0})
start_remote_tunnel decoded watch c = do cfg ← ask decoded; ask (result_of watch); run_tunnel cfg c
