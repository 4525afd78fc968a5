-- ===== src/Provider/Kubernetes/Tests.antt =====
-- A tunnel to a port of a service, with a client block.
use terraform_provider_tunne.Base.{◌≡◌, refl, false, none, some, [], ◌∷◌, pos}
use terraform_provider_tunne.Errors.{ok}
use terraform_provider_tunne.GoText.{lit}
use terraform_provider_tunne.Kubernetes.Config.{TunnelConfig}
use terraform_provider_tunne.Provider.{null, value, value_int64, done, failed, bad_target_port}
use terraform_provider_tunne.Provider.Kubernetes.{
  KubernetesModel, KubernetesConfigModel, elements_as, kubernetes_config, configured, with_block,
  base_config, elements, exec_config,
}
use terraform_provider_tunne.Provider.Kubernetes.Ports.{kubernetes_config-ports}

abbrev client : KubernetesConfigModel
client = record {
  host = null;
  username = null;
  password = null;
  insecure = null;
  tls_server_name = null;
  client_certificate = null;
  client_key = null;
  cluster_ca_certificate = null;
  config_paths = elements_as (ok (lit "/a" ∷ []));
  config_path = null;
  config_context = value (lit "prod");
  config_context_auth_info = null;
  config_context_cluster = null;
  token = null;
  proxy_url = null;
  exec = none;
}

abbrev model : KubernetesModel
model = record {
  namespace = value (lit "default");
  service_name = value (lit "web");
  target_port = value (pos 80);
  local_port = null;
  local_host = null;
  kubernetes = some client;
}

abbrev filled : KubernetesModel
filled = record model { local_port = value (pos 40000); local_host = value (lit "localhost") }

abbrev config : TunnelConfig
config = record {
  namespace = lit "default";
  service_name = lit "web";
  target_port = pos 80;
  local_host = lit "localhost";
  local_port = pos 40000;
  host = [];
  username = [];
  password = [];
  insecure = false;
  tls_server_name = [];
  client_certificate = [];
  client_key = [];
  cluster_ca_certificate = [];
  config_paths = lit "/a" ∷ [];
  config_path = [];
  config_context = lit "prod";
  config_context_auth_info = [];
  config_context_cluster = [];
  token = [];
  proxy_url = [];
  exec = none;
}

made : kubernetes_config (ok (pos 40000)) model ≡ done (filled, config)
unfolding kubernetes_config configured with_block base_config elements exec_config
made = refl

refused :
    kubernetes_config (ok (pos 40000)) (record model { target_port = value (pos 65536) })
    ≡ failed (bad_target_port ∷ [])
unfolding kubernetes_config
refused = refl

kubernetes_config-ports_example : config.target_port ≡ value_int64 model.target_port
kubernetes_config-ports_example =
    (kubernetes_config-ports (ok (pos 40000)) model filled config made).1
