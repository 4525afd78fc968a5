-- ===== src/Provider/Registry.antt =====
-- internal/provider/provider.go: the data sources and the ephemeral resources that the provider
-- offers, with the type names of their Metadata and the schemas of their Schema.
mod Tests
use terraform_provider_tunne.Base.{
  ℕ, suc, ◌≡◌, refl, ◌∙◌, ap, Bool, true, false, Option, none, some, List, [], ◌∷◌, ◌++◌,
  if◌then◌else◌,
}
use terraform_provider_tunne.GoText.{Text, lit, text_eq}
use terraform_provider_tunne.Runner.{Tunnel, azure_bastion, ssh, ssm, kubernetes, tunnel_type}
use terraform_provider_tunne.Provider.Schema.{Attributes}
use terraform_provider_tunne.Provider.Schema.Ssh.{ssh_data_source_schema, ssh_ephemeral_schema}
use terraform_provider_tunne.Provider.Schema.Ssm.{ssm_data_source_schema, ssm_ephemeral_schema}
use terraform_provider_tunne.Provider.Schema.AzureBastion.{
  azure_bastion_data_source_schema, azure_bastion_ephemeral_schema,
}
use terraform_provider_tunne.Provider.Schema.Kubernetes.{
  kubernetes_data_source_schema, kubernetes_ephemeral_schema,
}

-- A constructor of the list, by what its Metadata and its Schema answer.
pub record Offered : Type 0 where
  pub type_name : Text
  pub schema : Attributes

-- `req.ProviderTypeName`, as `Metadata` of the provider sets it.
abbrev pub provider_type_name : Text
provider_type_name = lit "tunnel"

azure_bastion_data_source : Offered
azure_bastion_data_source = record {
  type_name = provider_type_name ++ lit "_azure_bastion";
  schema = azure_bastion_data_source_schema;
}

ssh_data_source : Offered
ssh_data_source = record {
  type_name = provider_type_name ++ lit "_ssh";
  schema = ssh_data_source_schema;
}

ssm_data_source : Offered
ssm_data_source = record {
  type_name = provider_type_name ++ lit "_ssm";
  schema = ssm_data_source_schema;
}

kubernetes_data_source : Offered
kubernetes_data_source = record {
  type_name = provider_type_name ++ lit "_kubernetes";
  schema = kubernetes_data_source_schema;
}

azure_bastion_ephemeral : Offered
azure_bastion_ephemeral = record {
  type_name = provider_type_name ++ lit "_azure_bastion";
  schema = azure_bastion_ephemeral_schema;
}

ssh_ephemeral : Offered
ssh_ephemeral = record {
  type_name = provider_type_name ++ lit "_ssh";
  schema = ssh_ephemeral_schema;
}

ssm_ephemeral : Offered
ssm_ephemeral = record {
  type_name = provider_type_name ++ lit "_ssm";
  schema = ssm_ephemeral_schema;
}

kubernetes_ephemeral : Offered
kubernetes_ephemeral = record {
  type_name = provider_type_name ++ lit "_kubernetes";
  schema = kubernetes_ephemeral_schema;
}

pub data_sources : List Offered
unfolding azure_bastion_data_source ssh_data_source ssm_data_source kubernetes_data_source
data_sources =
    azure_bastion_data_source ∷ ssh_data_source ∷ ssm_data_source ∷ kubernetes_data_source ∷ []

pub ephemeral_resources : List Offered
unfolding azure_bastion_ephemeral ssh_ephemeral ssm_ephemeral kubernetes_ephemeral
ephemeral_resources =
    azure_bastion_ephemeral ∷ ssh_ephemeral ∷ ssm_ephemeral ∷ kubernetes_ephemeral ∷ []

-- The schemas that are offered under a type name.
pub offered : Text → List Offered → List Attributes
offered name [] = []
offered name (o ∷ os) =
    let rest = offered name os in if text_eq o.type_name name then o.schema ∷ rest else rest

-- The schemas of the two files of a kind of tunnel.
abbrev pub schemas_of : Tunnel → Attributes × Attributes
schemas_of azure_bastion = (azure_bastion_data_source_schema, azure_bastion_ephemeral_schema)
schemas_of ssh = (ssh_data_source_schema, ssh_ephemeral_schema)
schemas_of ssm = (ssm_data_source_schema, ssm_ephemeral_schema)
schemas_of kubernetes = (kubernetes_data_source_schema, kubernetes_ephemeral_schema)

-- Each kind of tunnel that a process of the binary can run is offered by the provider, once as a data
-- source and once as an ephemeral resource, under the name of the provider, `_` and the type that the
-- process is started with, and with the schema of its own kind.
pub offered-schemas_of :
    (t : Tunnel)
    → let name = provider_type_name ++ (lit "_" ++ tunnel_type t) in
      (offered name data_sources ≡ (schemas_of t).0 ∷ [])
      × (offered name ephemeral_resources ≡ (schemas_of t).1 ∷ [])
unfolding data_sources ephemeral_resources offered text_eq
offered-schemas_of azure_bastion = (refl, refl)
offered-schemas_of ssh = (refl, refl)
offered-schemas_of ssm = (refl, refl)
offered-schemas_of kubernetes = (refl, refl)
