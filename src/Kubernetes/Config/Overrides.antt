-- ===== src/Kubernetes/Config/Overrides.antt =====
-- internal/kubernetes/config.go: what the assignments amount to.
use terraform_provider_tunne.Base.{◌≡◌, refl, arith, Option, none, some}
use terraform_provider_tunne.Kubernetes.Config.{
  ExecConfig, ApiExecConfig, TunnelConfig, ConfigOverrides, no_overrides, set_text, set_insecure,
  set_exec, set_contexts, set_auth, set_cluster, overrides, api_exec,
}

set_contexts-eq :
    (c : TunnelConfig)
    → set_contexts c no_overrides ≡ record no_overrides {
      current_context = c.config_context;
      context = record {
        auth_info_name = c.config_context_auth_info;
        cluster_name = c.config_context_cluster;
      };
    }
unfolding set_contexts set_text
set_contexts-eq c = ground arith

set_auth-eq :
    (c : TunnelConfig) (o : ConfigOverrides)
    → o.auth ≡ no_overrides.auth
    → set_auth c o ≡ record o {
      auth = record {
        auth_token = c.token;
        auth_username = c.username;
        auth_password = c.password;
        client_certificate_data = c.client_certificate;
        client_key_data = c.client_key;
        auth_exec = none;
      };
    }
unfolding set_auth set_text
set_auth-eq c o h = ground arith

set_cluster-eq :
    (c : TunnelConfig) (o : ConfigOverrides)
    → o.cluster ≡ no_overrides.cluster
    → set_cluster c o ≡ record o {
      cluster = record {
        certificate_authority_data = c.cluster_ca_certificate;
        server = c.host;
        insecure_skip_tls_verify = c.insecure;
        cluster_tls_server_name = c.tls_server_name;
        cluster_proxy_url = c.proxy_url;
      };
    }
unfolding set_cluster set_text set_insecure
set_cluster-eq c o h = ground arith

abbrev pub map_exec : Option ExecConfig → Option ApiExecConfig
map_exec none = none
map_exec (some e) = some (api_exec e)

-- The overrides are exactly the settings of the tunnel's configuration: each one that is set takes
-- effect, and one that is not set stays at the zero value, with which client-go overrides nothing.
pub overrides-eq :
    (c : TunnelConfig)
    → overrides c ≡ record {
      current_context = c.config_context;
      context = record {
        auth_info_name = c.config_context_auth_info;
        cluster_name = c.config_context_cluster;
      };
      auth = record {
        auth_token = c.token;
        auth_username = c.username;
        auth_password = c.password;
        client_certificate_data = c.client_certificate;
        client_key_data = c.client_key;
        auth_exec = map_exec c.exec;
      };
      cluster = record {
        certificate_authority_data = c.cluster_ca_certificate;
        server = c.host;
        insecure_skip_tls_verify = c.insecure;
        cluster_tls_server_name = c.tls_server_name;
        cluster_proxy_url = c.proxy_url;
      };
    }
unfolding overrides set_exec
overrides-eq c =
    rw
      (
        set_contexts-eq c,
        set_auth-eq c
            (record no_overrides {
              current_context = c.config_context;
              context = record {
                auth_info_name = c.config_context_auth_info;
                cluster_name = c.config_context_cluster;
              };
            })
            refl,
      )
      (ground arith)
