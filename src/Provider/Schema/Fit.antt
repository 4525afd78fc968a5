-- ===== src/Provider/Schema/Fit.antt =====
-- internal/provider: the models fit their schemas.
use terraform_provider_tunne.Base.{◌≡◌, refl, true, Option, none, some}
use terraform_provider_tunne.Provider.Ssh.{SshModel}
use terraform_provider_tunne.Provider.Ssm.{SsmModel}
use terraform_provider_tunne.Provider.AzureBastion.{AzureBastionModel}
use terraform_provider_tunne.Provider.Kubernetes.{
  KubernetesModel, KubernetesConfigModel, ExecConfigModel,
}
use terraform_provider_tunne.Provider.Schema.{Attributes, Fields, fits}
use terraform_provider_tunne.Provider.Schema.Ssh.{
  ssh_fields, ssh_data_source_schema, ssh_ephemeral_schema,
}
use terraform_provider_tunne.Provider.Schema.Ssm.{
  ssm_fields, ssm_data_source_schema, ssm_ephemeral_schema,
}
use terraform_provider_tunne.Provider.Schema.AzureBastion.{
  azure_bastion_fields, azure_bastion_data_source_schema, azure_bastion_ephemeral_schema,
}
use terraform_provider_tunne.Provider.Schema.Kubernetes.{
  kubernetes_fields, kubernetes_data_source_schema, kubernetes_ephemeral_schema,
}

-- Both schemas of a kind.
abbrev pub FitsBoth : Attributes → Attributes → Fields → Type 0
FitsBoth source ephemeral fs = (fits source fs ≡ true) × (fits ephemeral fs ≡ true)

ssh_fit : (m : SshModel) → FitsBoth ssh_data_source_schema ssh_ephemeral_schema (ssh_fields m)
unfolding fits
ssh_fit m = (refl, refl)

ssm_fit : (m : SsmModel) → FitsBoth ssm_data_source_schema ssm_ephemeral_schema (ssm_fields m)
unfolding fits
ssm_fit m = (refl, refl)

bastion_fit :
    (m : AzureBastionModel)
    → FitsBoth azure_bastion_data_source_schema azure_bastion_ephemeral_schema
        (azure_bastion_fields m)
unfolding fits
bastion_fit m = (refl, refl)

kubernetes_fit :
    (m : KubernetesModel)
    → FitsBoth kubernetes_data_source_schema kubernetes_ephemeral_schema (kubernetes_fields m)
unfolding fits
kubernetes_fit m = by_block m.kubernetes
  where
    by_block :
        (b : Option KubernetesConfigModel)
        → FitsBoth kubernetes_data_source_schema kubernetes_ephemeral_schema
            (kubernetes_fields (record m { kubernetes = b }))
    by_block none = (refl, refl)
    by_block (some b) = by_exec b.exec
      where
        by_exec :
            (e : Option ExecConfigModel)
            → FitsBoth kubernetes_data_source_schema kubernetes_ephemeral_schema
                (kubernetes_fields (record m { kubernetes = some (record b { exec = e }) }))
        by_exec none = (refl, refl)
        by_exec (some e) = (refl, refl)

-- Each model fits the schema of its data source and that of its ephemeral resource: every field has
-- an attribute of its type, in the nested blocks too, and every attribute has a field.
pub models-FitsBoth :
    ((m : SshModel) → FitsBoth ssh_data_source_schema ssh_ephemeral_schema (ssh_fields m))
    × ((m : SsmModel) → FitsBoth ssm_data_source_schema ssm_ephemeral_schema (ssm_fields m))
    × ((m : AzureBastionModel)
        → FitsBoth azure_bastion_data_source_schema azure_bastion_ephemeral_schema
            (azure_bastion_fields m))
    × ((m : KubernetesModel)
        → FitsBoth kubernetes_data_source_schema kubernetes_ephemeral_schema (kubernetes_fields m))
models-FitsBoth = (ssh_fit, ssm_fit, bastion_fit, kubernetes_fit)
