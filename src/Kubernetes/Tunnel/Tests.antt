-- ===== src/Kubernetes/Tunnel/Tests.antt =====
-- A tunnel to the service of one ready pod.
use terraform_provider_tunne.Base.{inl, inr, take, ◌≡◌, refl, false, none, [], ◌∷◌, pos}
use terraform_provider_tunne.Errors.{ok}
use terraform_provider_tunne.GoText.{lit, itoa}
use terraform_provider_tunne.Kubernetes.Config.{TunnelConfig}
use terraform_provider_tunne.Kubernetes.Endpoints.{
  Pod, Endpoint, pod_ready_type, condition_true, pod_running, resolve_endpoint, select_pod,
  sort_pods, pod_ready, resolve_pod_port, find_service_port,
}
use terraform_provider_tunne.Kubernetes.Forward.{
  became_ready, canceled_ending, new_port_forward, run_forward,
}
use terraform_provider_tunne.Kubernetes.Tunnel.{Calls, run_tunnel, log_name}
use terraform_provider_tunne.Kubernetes.Tunnel.Order.{announce, IsAnnounced, run_tunnel-IsAnnounced}
use terraform_provider_tunne.Effects.{Happened}

abbrev config : TunnelConfig
config = record {
  namespace = lit "default";
  service_name = lit "web";
  target_port = pos 9153;
  local_host = lit "localhost";
  local_port = pos 9000;
  host = [];
  username = [];
  password = [];
  insecure = false;
  tls_server_name = [];
  client_certificate = [];
  client_key = [];
  cluster_ca_certificate = [];
  config_paths = [];
  config_path = [];
  config_context = [];
  config_context_auth_info = [];
  config_context_cluster = [];
  token = [];
  proxy_url = [];
  exec = none;
}

abbrev web_1 : Pod
web_1 = record {
  name = lit "web-1";
  deleting = false;
  phase = pod_running;
  conditions = (pod_ready_type, condition_true) ∷ [];
  containers = [];
}

abbrev calls : Calls
calls = record {
  rest_config = none;
  new_client = none;
  service = ok (record { selector = (lit "app", lit "web") ∷ []; ports = [] });
  pods = λ selector. ok (web_1 ∷ []);
  transport = none;
  forwarder = none;
  forward = record {
    canceled_before = false;
    startup = became_ready;
    canceled_ready = false;
    signal_ready = none;
    ending = canceled_ending;
  };
}

abbrev web_endpoint : Endpoint
web_endpoint = record { pod = lit "web-1"; endpoint_port = pos 9153 }

announced_web : Happened announce (take 4 (run_tunnel config calls).0)
unfolding run_tunnel resolve_endpoint run_forward select_pod sort_pods pod_ready resolve_pod_port
    find_service_port new_port_forward
announced_web = inr (inr (inr (inl refl)))

run_tunnel-IsAnnounced_example : IsAnnounced config calls (take 4 (run_tunnel config calls).0)
run_tunnel-IsAnnounced_example = run_tunnel-IsAnnounced config calls 4 announced_web

resolved_web : resolve_endpoint config.target_port calls.service calls.pods ≡ ok web_endpoint
unfolding resolve_endpoint select_pod sort_pods pod_ready resolve_pod_port find_service_port
resolved_web = refl

named_log : log_name config ≡ lit "k8s-tunnel-default-web-9153.log"
unfolding log_name itoa
named_log = refl
