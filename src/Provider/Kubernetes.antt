-- ===== src/Provider/Kubernetes.antt =====
-- internal/provider/kubernetes.go: the Kubernetes tunnel's attributes, and its configuration.
pub mod Ports
mod Tests
use terraform_provider_tunne.Base.{
  Bool, true, false, not, ◌&&◌, ◌||◌, Option, none, some, List, [], ◌∷◌, if◌then◌else◌, ℤ, pos, eqℤ,
  ltℤ,
}
use terraform_provider_tunne.Errors.{Error, Result, ok, err}
use terraform_provider_tunne.GoText.{Text, lit, is_empty}
use terraform_provider_tunne.Kubernetes.Config.{TunnelConfig, ExecConfig}
use terraform_provider_tunne.Provider.{
  Attr, null, unknown, value, is_null, value_string, value_int64, value_bool, unset, Diagnostic,
  bad_target_port, bad_local_port, framework, Outcome, failed, done, ◌>>=◌, or_fail, local_port_or,
}

-- A list or a map: null, or with what the framework's `ElementsAs` answers for it.
pub data Collection (A : Type 0) : Type 0 where
  null_collection : Collection A
  elements_as : Result A → Collection A

pub record ExecConfigModel : Type 0 where
  pub api_version : Attr Text
  pub command : Attr Text
  pub env : Collection (List (Text × Text))
  pub args : Collection (List Text)

pub record KubernetesConfigModel : Type 0 where
  pub host : Attr Text
  pub username : Attr Text
  pub password : Attr Text
  pub insecure : Attr Bool
  pub tls_server_name : Attr Text
  pub client_certificate : Attr Text
  pub client_key : Attr Text
  pub cluster_ca_certificate : Attr Text
  pub config_paths : Collection (List Text)
  pub config_path : Attr Text
  pub config_context : Attr Text
  pub config_context_auth_info : Attr Text
  pub config_context_cluster : Attr Text
  pub token : Attr Text
  pub proxy_url : Attr Text
  pub exec : Option ExecConfigModel

pub record KubernetesModel : Type 0 where
  pub namespace : Attr Text
  pub service_name : Attr Text
  pub target_port : Attr ℤ
  pub local_port : Attr ℤ
  pub local_host : Attr Text
  pub kubernetes : Option KubernetesConfigModel

-- `fail_when` is an `if` whose body adds a diagnostic and returns.
abbrev fail_when : Bool → Diagnostic → Outcome (Unit {0})
fail_when true d = failed (d ∷ [])
fail_when false d = done tt

-- `if !c.IsNull() { diags.Append(c.ElementsAs(…)) … }`, with the zero value otherwise.
elements : {A : Type 0} → A → Collection A → Outcome A
elements zero null_collection = done zero
elements zero (elements_as r) = or_fail framework r

exec_given : ExecConfigModel → Outcome (Option ExecConfig)
unfolding elements
exec_given e = do
  env ← elements [] e.env
  args ← elements [] e.args
  done (
      some (record {
        api_version = value_string e.api_version;
        command = value_string e.command;
        env = env;
        args = args;
      }))

-- Both the API version and the command have to be there.
exec_config : Option ExecConfigModel → Outcome (Option ExecConfig)
unfolding exec_given
exec_config none = done none
exec_config (some e) =
    if not (is_null e.api_version) && not (is_null e.command) then exec_given e else done none

-- The configuration before the `kubernetes` block is read.
base_config : KubernetesModel → ℤ → ℤ → Text → TunnelConfig
base_config m target local host = record {
  namespace = value_string m.namespace;
  service_name = value_string m.service_name;
  target_port = target;
  local_host = host;
  local_port = local;
  host = [];
  username = [];
  password = [];
  insecure = false;
  tls_server_name = [];
  client_certificate = [];
  client_key = [];
  cluster_ca_certificate = [];
  config_paths = [];
  config_path = [];
  config_context = [];
  config_context_auth_info = [];
  config_context_cluster = [];
  token = [];
  proxy_url = [];
  exec = none;
}

with_block : Option KubernetesConfigModel → TunnelConfig → Outcome TunnelConfig
unfolding elements exec_config
with_block none cfg = done cfg
with_block (some kube) cfg = do
  paths ← elements cfg.config_paths kube.config_paths
  exec ← exec_config kube.exec
  done (record cfg {
    host = value_string kube.host;
    username = value_string kube.username;
    password = value_string kube.password;
    insecure = value_bool kube.insecure;
    tls_server_name = value_string kube.tls_server_name;
    client_certificate = value_string kube.client_certificate;
    client_key = value_string kube.client_key;
    cluster_ca_certificate = value_string kube.cluster_ca_certificate;
    config_path = value_string kube.config_path;
    config_context = value_string kube.config_context;
    config_context_auth_info = value_string kube.config_context_auth_info;
    config_context_cluster = value_string kube.config_context_cluster;
    token = value_string kube.token;
    proxy_url = value_string kube.proxy_url;
    config_paths = paths;
    exec = exec;
  })

-- What follows the choice of the local port.
configured : KubernetesModel → ℤ → Outcome (KubernetesModel × TunnelConfig)
unfolding with_block base_config
configured model port = do
  let host = if unset model.local_host then value (lit "localhost") else model.local_host
  cfg ←
      with_block model.kubernetes
        (base_config model (value_int64 model.target_port) port (value_string host))
  done (record model { local_port = value port; local_host = host }, cfg)

-- `kubernetesConfig`; `free` is what GetFreePort answers.
pub kubernetes_config : Result ℤ → KubernetesModel → Outcome (KubernetesModel × TunnelConfig)
kubernetes_config free model = do
  let target = value_int64 model.target_port
  target_ok ← fail_when (ltℤ target (pos 1) || ltℤ (pos 65535) target) bad_target_port
  let requested = value_int64 model.local_port
  local_ok ← fail_when (ltℤ requested (pos 0) || ltℤ (pos 65535) requested) bad_local_port
  port ← local_port_or free requested
  configured model port
