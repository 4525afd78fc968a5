-- ===== src/Kubernetes/Config.antt =====
-- internal/kubernetes/config.go: the tunnel's configuration, and the client configuration that it
-- stands for. clientcmd of client-go, which merges the two, is a parameter; a map is the list of
-- its entries, in the order in which `range` gives them.
pub mod Overrides
mod Tests
use terraform_provider_tunne.Base.{
  Bool, true, false, Option, none, some, List, [], ◌∷◌, map, if◌then◌else◌, ℤ,
}
use terraform_provider_tunne.Errors.{Error, load_kubeconfig, Result, ok, err, wrap_err}
use terraform_provider_tunne.GoText.{Text, lit, is_empty}

pub record ExecConfig : Type 0 where
  pub api_version : Text
  pub command : Text
  pub env : List (Text × Text)
  pub args : List Text

pub record TunnelConfig : Type 0 where
  pub namespace : Text
  pub service_name : Text
  pub target_port : ℤ
  pub local_host : Text
  pub local_port : ℤ
  pub host : Text
  pub username : Text
  pub password : Text
  pub insecure : Bool
  pub tls_server_name : Text
  pub client_certificate : Text
  pub client_key : Text
  pub cluster_ca_certificate : Text
  pub config_paths : List Text
  pub config_path : Text
  pub config_context : Text
  pub config_context_auth_info : Text
  pub config_context_cluster : Text
  pub token : Text
  pub proxy_url : Text
  pub exec : Option ExecConfig

-- clientcmd.ClientConfigLoadingRules: the two fields that the source sets.
pub record LoadingRules : Type 0 where
  pub precedence : List Text
  pub explicit_path : Text

-- clientcmdapi.ExecEnvVar
pub record EnvVar : Type 0 where
  pub env_name : Text
  pub env_value : Text

-- clientcmdapi.ExecConfig
pub record ApiExecConfig : Type 0 where
  pub exec_api_version : Text
  pub exec_command : Text
  pub exec_args : List Text
  pub exec_env : List EnvVar
  pub interactive_mode : Text

pub record Context : Type 0 where
  pub auth_info_name : Text
  pub cluster_name : Text

pub record AuthInfo : Type 0 where
  pub auth_token : Text
  pub auth_username : Text
  pub auth_password : Text
  pub client_certificate_data : Text
  pub client_key_data : Text
  pub auth_exec : Option ApiExecConfig

pub record ClusterInfo : Type 0 where
  pub certificate_authority_data : Text
  pub server : Text
  pub insecure_skip_tls_verify : Bool
  pub cluster_tls_server_name : Text
  pub cluster_proxy_url : Text

pub record ConfigOverrides : Type 0 where
  pub current_context : Text
  pub context : Context
  pub auth : AuthInfo
  pub cluster : ClusterInfo

-- `&clientcmd.ConfigOverrides{}`
abbrev pub no_overrides : ConfigOverrides
no_overrides = record {
  current_context = [];
  context = record { auth_info_name = []; cluster_name = [] };
  auth = record {
    auth_token = [];
    auth_username = [];
    auth_password = [];
    client_certificate_data = [];
    client_key_data = [];
    auth_exec = none;
  };
  cluster = record {
    certificate_authority_data = [];
    server = [];
    insecure_skip_tls_verify = false;
    cluster_tls_server_name = [];
    cluster_proxy_url = [];
  };
}

with_paths : List Text → Text → LoadingRules → LoadingRules
with_paths (p ∷ ps) path rules = record rules { precedence = p ∷ ps }
with_paths [] [] rules = rules
with_paths [] (c ∷ path) rules = record rules { explicit_path = c ∷ path }

-- `loadingRules`; `defaults` are those of NewDefaultClientConfigLoadingRules.
pub loading_rules : LoadingRules → TunnelConfig → LoadingRules
unfolding with_paths
loading_rules defaults c = with_paths c.config_paths c.config_path defaults

-- `if value != "" { … }` around an assignment.
set_text : Text → (Text → ConfigOverrides → ConfigOverrides) → ConfigOverrides → ConfigOverrides
set_text [] set o = o
set_text (c ∷ value) set o = set (c ∷ value) o

set_insecure : Bool → ConfigOverrides → ConfigOverrides
set_insecure false o = o
set_insecure true o = record o { cluster = record o.cluster { insecure_skip_tls_verify = true } }

-- The loop over `c.Exec.Env`.
env_vars : List (Text × Text) → List EnvVar
env_vars [] = []
env_vars ((k, v) ∷ rest) = record { env_name = k; env_value = v } ∷ env_vars rest

pub api_exec : ExecConfig → ApiExecConfig
unfolding env_vars
api_exec e = record {
  exec_api_version = e.api_version;
  exec_command = e.command;
  exec_args = e.args;
  exec_env = env_vars e.env;
  interactive_mode = lit "IfAvailable";
}

set_exec : Option ExecConfig → ConfigOverrides → ConfigOverrides
unfolding api_exec
set_exec none o = o
set_exec (some e) o = record o { auth = record o.auth { auth_exec = some (api_exec e) } }

set_contexts : TunnelConfig → ConfigOverrides → ConfigOverrides
unfolding set_text
set_contexts c o =
    let o = set_text c.config_context (λ v o. record o { current_context = v }) o in
    let o =
      set_text c.config_context_auth_info
        (λ v o. record o { context = record o.context { auth_info_name = v } }) o in
    set_text c.config_context_cluster
      (λ v o. record o { context = record o.context { cluster_name = v } }) o

set_auth : TunnelConfig → ConfigOverrides → ConfigOverrides
unfolding set_text
set_auth c o =
    let o = set_text c.token (λ v o. record o { auth = record o.auth { auth_token = v } }) o in
    let o =
      set_text c.username (λ v o. record o { auth = record o.auth { auth_username = v } }) o in
    let o =
      set_text c.password (λ v o. record o { auth = record o.auth { auth_password = v } }) o in
    let o =
      set_text c.client_certificate
        (λ v o. record o { auth = record o.auth { client_certificate_data = v } }) o in
    set_text c.client_key (λ v o. record o { auth = record o.auth { client_key_data = v } }) o

set_cluster : TunnelConfig → ConfigOverrides → ConfigOverrides
unfolding set_text set_insecure
set_cluster c o =
    let o =
      set_text c.cluster_ca_certificate
        (λ v o. record o { cluster = record o.cluster { certificate_authority_data = v } }) o in
    let o = set_text c.host (λ v o. record o { cluster = record o.cluster { server = v } }) o in
    let o = set_insecure c.insecure o in
    let o =
      set_text c.tls_server_name
        (λ v o. record o { cluster = record o.cluster { cluster_tls_server_name = v } }) o in
    set_text c.proxy_url (λ v o. record o { cluster = record o.cluster { cluster_proxy_url = v } })
      o

-- `overrides`, assignment by assignment.
pub overrides : TunnelConfig → ConfigOverrides
unfolding set_contexts set_auth set_cluster set_exec
overrides c = set_exec c.exec (set_cluster c (set_auth c (set_contexts c no_overrides)))

-- `restConfig`; `load` is client-go's ClientConfig for the rules and the overrides.
pub rest_config :
    {C : Type 0}
    → LoadingRules
    → (LoadingRules → ConfigOverrides → Result C)
    → TunnelConfig
    → Result C
rest_config defaults load c =
    wrap_err load_kubeconfig (load (loading_rules defaults c) (overrides c))
