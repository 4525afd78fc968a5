-- ===== src/Provider/Schema/Kubernetes.antt =====
-- internal/provider/data_source_kubernetes.go and ephemeral_kubernetes.go: the schemas of the Kubernetes tunnel, and the
-- fields of its model.
use terraform_provider_tunne.Base.{Option, none, some}
use terraform_provider_tunne.GoText.{lit}
use terraform_provider_tunne.Provider.Kubernetes.{
  KubernetesModel, KubernetesConfigModel, ExecConfigModel,
}
use terraform_provider_tunne.Provider.Schema.{
  Attributes, attr, end, ◌&◌, bool_attribute, int64_attribute, list_attribute, map_attribute,
  single_nested, string_attribute, optional, optional_computed, required, sensitive, Fields, Field,
  tag, end_fields, ◌&=◌, string_field, int64_field, bool_field, list_field, map_field, null_struct,
  struct_field,
}

-- `Schema` of the data source.
abbrev pub kubernetes_data_source_schema : Attributes
kubernetes_data_source_schema =
    attr (lit "namespace") string_attribute required
    & attr (lit "service_name") string_attribute required
    & attr (lit "target_port") int64_attribute required
    & attr (lit "local_host") string_attribute optional_computed
    & attr (lit "local_port") int64_attribute optional_computed
    & attr (lit "kubernetes")
        (single_nested (
          attr (lit "host") string_attribute optional
          & attr (lit "username") string_attribute optional
          & attr (lit "password") string_attribute (sensitive optional)
          & attr (lit "insecure") bool_attribute optional
          & attr (lit "tls_server_name") string_attribute optional
          & attr (lit "client_certificate") string_attribute (sensitive optional)
          & attr (lit "client_key") string_attribute (sensitive optional)
          & attr (lit "cluster_ca_certificate") string_attribute (sensitive optional)
          & attr (lit "config_paths") list_attribute optional
          & attr (lit "config_path") string_attribute optional
          & attr (lit "config_context") string_attribute optional
          & attr (lit "config_context_auth_info") string_attribute optional
          & attr (lit "config_context_cluster") string_attribute optional
          & attr (lit "token") string_attribute (sensitive optional)
          & attr (lit "proxy_url") string_attribute optional
          & attr (lit "exec")
              (single_nested (
                attr (lit "api_version") string_attribute required
                & attr (lit "command") string_attribute required
                & attr (lit "env") map_attribute (sensitive optional)
                & attr (lit "args") list_attribute (sensitive optional)
                & end))
              optional
          & end))
        optional
    & end

-- `Schema` of the ephemeral resource.
abbrev pub kubernetes_ephemeral_schema : Attributes
kubernetes_ephemeral_schema =
    attr (lit "namespace") string_attribute required
    & attr (lit "service_name") string_attribute required
    & attr (lit "target_port") int64_attribute required
    & attr (lit "local_host") string_attribute optional_computed
    & attr (lit "local_port") int64_attribute optional_computed
    & attr (lit "kubernetes")
        (single_nested (
          attr (lit "host") string_attribute optional
          & attr (lit "username") string_attribute optional
          & attr (lit "password") string_attribute (sensitive optional)
          & attr (lit "insecure") bool_attribute optional
          & attr (lit "tls_server_name") string_attribute optional
          & attr (lit "client_certificate") string_attribute (sensitive optional)
          & attr (lit "client_key") string_attribute (sensitive optional)
          & attr (lit "cluster_ca_certificate") string_attribute (sensitive optional)
          & attr (lit "config_paths") list_attribute optional
          & attr (lit "config_path") string_attribute optional
          & attr (lit "config_context") string_attribute optional
          & attr (lit "config_context_auth_info") string_attribute optional
          & attr (lit "config_context_cluster") string_attribute optional
          & attr (lit "token") string_attribute (sensitive optional)
          & attr (lit "proxy_url") string_attribute optional
          & attr (lit "exec")
              (single_nested (
                attr (lit "api_version") string_attribute required
                & attr (lit "command") string_attribute required
                & attr (lit "env") map_attribute (sensitive optional)
                & attr (lit "args") list_attribute (sensitive optional)
                & end))
              optional
          & end))
        optional
    & end

abbrev exec_fields : ExecConfigModel → Fields
exec_fields m =
    tag (lit "api_version") (string_field m.api_version)
    &= tag (lit "command") (string_field m.command)
    &= tag (lit "env") (map_field m.env)
    &= tag (lit "args") (list_field m.args)
    &= end_fields

abbrev exec_field : Option ExecConfigModel → Field
exec_field none = null_struct
exec_field (some m) = struct_field (exec_fields m)

abbrev block_fields : KubernetesConfigModel → Fields
block_fields m =
    tag (lit "host") (string_field m.host)
    &= tag (lit "username") (string_field m.username)
    &= tag (lit "password") (string_field m.password)
    &= tag (lit "insecure") (bool_field m.insecure)
    &= tag (lit "tls_server_name") (string_field m.tls_server_name)
    &= tag (lit "client_certificate") (string_field m.client_certificate)
    &= tag (lit "client_key") (string_field m.client_key)
    &= tag (lit "cluster_ca_certificate") (string_field m.cluster_ca_certificate)
    &= tag (lit "config_paths") (list_field m.config_paths)
    &= tag (lit "config_path") (string_field m.config_path)
    &= tag (lit "config_context") (string_field m.config_context)
    &= tag (lit "config_context_auth_info") (string_field m.config_context_auth_info)
    &= tag (lit "config_context_cluster") (string_field m.config_context_cluster)
    &= tag (lit "token") (string_field m.token)
    &= tag (lit "proxy_url") (string_field m.proxy_url)
    &= tag (lit "exec") (exec_field m.exec)
    &= end_fields

abbrev pub kubernetes_field : Option KubernetesConfigModel → Field
kubernetes_field none = null_struct
kubernetes_field (some m) = struct_field (block_fields m)

-- The fields of the model, by their `tfsdk` tags.
abbrev pub kubernetes_fields : KubernetesModel → Fields
kubernetes_fields m =
    tag (lit "namespace") (string_field m.namespace)
    &= tag (lit "service_name") (string_field m.service_name)
    &= tag (lit "target_port") (int64_field m.target_port)
    &= tag (lit "local_port") (int64_field m.local_port)
    &= tag (lit "local_host") (string_field m.local_host)
    &= tag (lit "kubernetes") (kubernetes_field m.kubernetes)
    &= end_fields
