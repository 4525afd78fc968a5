-- ===== src/Kubernetes/Config/Tests.antt =====
-- A configuration with two kubeconfig files and a token.
use terraform_provider_tunne.Base.{◌≡◌, refl, ap, false, none, [], ◌∷◌, pos}
use terraform_provider_tunne.GoText.{lit}
use terraform_provider_tunne.Kubernetes.Config.{TunnelConfig, overrides, loading_rules}
use terraform_provider_tunne.Kubernetes.Config.Overrides.{overrides-eq}

abbrev pub config : TunnelConfig
config = record {
  namespace = lit "default";
  service_name = lit "web";
  target_port = pos 80;
  local_host = lit "localhost";
  local_port = pos 9000;
  host = [];
  username = [];
  password = [];
  insecure = false;
  tls_server_name = [];
  client_certificate = [];
  client_key = [];
  cluster_ca_certificate = lit "ca";
  config_paths = lit "/a" ∷ lit "/b" ∷ [];
  config_path = lit "/c";
  config_context = lit "prod";
  config_context_auth_info = [];
  config_context_cluster = [];
  token = lit "t";
  proxy_url = [];
  exec = none;
}

-- The list of paths takes precedence over the single path.
paths_first :
    (loading_rules (record { precedence = []; explicit_path = [] }) config).explicit_path ≡ []
unfolding loading_rules
paths_first = refl

overrides-eq_example : (overrides config).auth.auth_token ≡ lit "t"
overrides-eq_example = ap (λ o. o.auth.auth_token) (overrides-eq config)
