-- ===== src/Provider/Schema/Written.antt =====
-- internal/provider: what a configuration fills in, Terraform lets the provider compute.
use terraform_provider_tunne.Base.{◌≡◌, refl, ap, ◌⊎◌, inl, inr, true, ℤ}
use terraform_provider_tunne.Errors.{Result}
use terraform_provider_tunne.GoText.{Text, lit}
use terraform_provider_tunne.Ssm.Session.{AwsConfig, LoadOptions}
use terraform_provider_tunne.Ssm.Session as SsmSession
use terraform_provider_tunne.Ssh.Tunnel as SshTunnel
use terraform_provider_tunne.Kubernetes.Config as KubernetesConfig
use terraform_provider_tunne.AzureBastion.Config as BastionConfig
use terraform_provider_tunne.Provider.{done}
use terraform_provider_tunne.Provider.Ssh.{SshModel, Host, ssh_config}
use terraform_provider_tunne.Provider.Ssm.{SsmModel, ssm_config}
use terraform_provider_tunne.Provider.AzureBastion.{AzureBastionModel, azure_bastion_config}
use terraform_provider_tunne.Provider.Kubernetes.{KubernetesModel, kubernetes_config}
use terraform_provider_tunne.Provider.Kubernetes.Ports.{kubernetes_config-keeps}
use terraform_provider_tunne.Provider.Schema.{
  string_field, int64_field, Attributes, Fields, tag, end_fields, ◌&=◌, may_compute,
}
use terraform_provider_tunne.Provider.Schema.Kept.{ssh_kept, ssm_kept, bastion_kept}
use terraform_provider_tunne.Provider.Schema.Ssh.{
  ssh_fields, ssh_data_source_schema, ssh_ephemeral_schema,
}
use terraform_provider_tunne.Provider.Schema.Ssm.{
  ssm_fields, ssm_data_source_schema, ssm_ephemeral_schema,
}
use terraform_provider_tunne.Provider.Schema.AzureBastion.{
  azure_bastion_fields, azure_bastion_data_source_schema, azure_bastion_ephemeral_schema,
}
use terraform_provider_tunne.Provider.Schema.Kubernetes.{
  kubernetes_field, kubernetes_fields, kubernetes_data_source_schema, kubernetes_ephemeral_schema,
}

-- `after` differs from `before` only in attributes that the schema lets the provider compute.
abbrev pub Written : Attributes → Fields → Fields → Type 0
Written attrs end_fields end_fields = Unit
Written attrs (tag n f &= before) (tag m g &= after) =
    (n ≡ m) × ((f ≡ g) ⊎ (may_compute n attrs ≡ true)) × Written attrs before after
Written attrs before after = ⊥

-- Under both schemas of a kind.
abbrev pub WrittenBoth : Attributes → Attributes → Fields → Fields → Type 0
WrittenBoth source ephemeral before after =
    Written source before after × Written ephemeral before after

-- The next attribute, left as it was given or computed, and then the rest.
infixr 20 ◌⊳◌
◌⊳◌ : {n : Text} {A B : Type 0} → A → B → (n ≡ n) × A × B
x ⊳ rest = (refl, x, rest)

ssh_written_in :
    (attrs : Attributes) (host : Host) (m filled : SshModel) (cfg : SshTunnel.TunnelConfig)
    → ssh_config host m ≡ done (filled, cfg)
    → (may_compute (lit "local_host") attrs ≡ true)
      × (may_compute (lit "local_port") attrs ≡ true)
      × (may_compute (lit "ssh_port") attrs ≡ true)
      × (may_compute (lit "ssh_user") attrs ≡ true)
    → Written attrs (ssh_fields m) (ssh_fields filled)
ssh_written_in attrs host m filled cfg h (c0, c1, c2, c3) =
    let (host_eq, key, phrase, password, target, port, socket) = ssh_kept host m filled cfg h in
    inr c0
    ⊳ inr c1
    ⊳ inl (ap string_field host_eq)
    ⊳ inl (ap string_field key)
    ⊳ inl (ap string_field phrase)
    ⊳ inl (ap string_field password)
    ⊳ inr c2
    ⊳ inr c3
    ⊳ inl (ap string_field target)
    ⊳ inl (ap int64_field port)
    ⊳ inl (ap string_field socket)
    ⊳ tt

ssh_written :
    (host : Host) (m filled : SshModel) (cfg : SshTunnel.TunnelConfig)
    → ssh_config host m ≡ done (filled, cfg)
    → WrittenBoth ssh_data_source_schema ssh_ephemeral_schema (ssh_fields m) (ssh_fields filled)
unfolding may_compute
ssh_written host m filled cfg h = (
  ssh_written_in ssh_data_source_schema host m filled cfg h (refl, refl, refl, refl),
  ssh_written_in ssh_ephemeral_schema host m filled cfg h (refl, refl, refl, refl),
)

ssm_written_in :
    (attrs : Attributes) (free : Result ℤ) (load : LoadOptions → Result AwsConfig)
    (m filled : SsmModel) (cfg : SsmSession.TunnelConfig) (aws : AwsConfig)
    → ssm_config free load m ≡ done (filled, cfg, aws)
    → (may_compute (lit "local_host") attrs ≡ true)
      × (may_compute (lit "local_port") attrs ≡ true)
      × (may_compute (lit "ssm_profile") attrs ≡ true)
      × (may_compute (lit "ssm_role_arn") attrs ≡ true)
      × (may_compute (lit "ssm_region") attrs ≡ true)
    → Written attrs (ssm_fields m) (ssm_fields filled)
ssm_written_in attrs free load m filled cfg aws h (c0, c1, c2, c3, c4) =
    let (instance_eq, document, target, port) = ssm_kept free load m filled cfg aws h in
    inr c0
    ⊳ inr c1
    ⊳ inl (ap string_field instance_eq)
    ⊳ inl (ap string_field document)
    ⊳ inr c2
    ⊳ inr c3
    ⊳ inr c4
    ⊳ inl (ap string_field target)
    ⊳ inl (ap int64_field port)
    ⊳ tt

ssm_written :
    (free : Result ℤ) (load : LoadOptions → Result AwsConfig) (m filled : SsmModel)
    (cfg : SsmSession.TunnelConfig) (aws : AwsConfig)
    → ssm_config free load m ≡ done (filled, cfg, aws)
    → WrittenBoth ssm_data_source_schema ssm_ephemeral_schema (ssm_fields m) (ssm_fields filled)
unfolding may_compute
ssm_written free load m filled cfg aws h = (
  ssm_written_in ssm_data_source_schema free load m filled cfg aws h (refl, refl, refl, refl, refl),
  ssm_written_in ssm_ephemeral_schema free load m filled cfg aws h (refl, refl, refl, refl, refl),
)

bastion_written_in :
    (attrs : Attributes) (lib : BastionConfig.Library) (free : Result ℤ)
    (m filled : AzureBastionModel) (cfg : BastionConfig.TunnelConfig)
    → azure_bastion_config lib free m ≡ done (filled, cfg)
    → (may_compute (lit "local_host") attrs ≡ true) × (may_compute (lit "local_port") attrs ≡ true)
    → Written attrs (azure_bastion_fields m) (azure_bastion_fields filled)
bastion_written_in attrs lib free m filled cfg h (c0, c1) =
    let (bastion, resource, address, port) = bastion_kept lib free m filled cfg h in
    inl (ap string_field bastion)
    ⊳ inl (ap string_field resource)
    ⊳ inl (ap string_field address)
    ⊳ inl (ap int64_field port)
    ⊳ inr c0
    ⊳ inr c1
    ⊳ tt

bastion_written :
    (lib : BastionConfig.Library) (free : Result ℤ) (m filled : AzureBastionModel)
    (cfg : BastionConfig.TunnelConfig)
    → azure_bastion_config lib free m ≡ done (filled, cfg)
    → WrittenBoth azure_bastion_data_source_schema azure_bastion_ephemeral_schema
        (azure_bastion_fields m)
        (azure_bastion_fields filled)
unfolding may_compute
bastion_written lib free m filled cfg h = (
  bastion_written_in azure_bastion_data_source_schema lib free m filled cfg h (refl, refl),
  bastion_written_in azure_bastion_ephemeral_schema lib free m filled cfg h (refl, refl),
)

kubernetes_written_in :
    (attrs : Attributes) (free : Result ℤ) (m filled : KubernetesModel)
    (cfg : KubernetesConfig.TunnelConfig)
    → kubernetes_config free m ≡ done (filled, cfg)
    → (may_compute (lit "local_port") attrs ≡ true) × (may_compute (lit "local_host") attrs ≡ true)
    → Written attrs (kubernetes_fields m) (kubernetes_fields filled)
kubernetes_written_in attrs free m filled cfg h (c0, c1) =
    let (space, service, target, block) = kubernetes_config-keeps free m filled cfg h in
    inl (ap string_field space)
    ⊳ inl (ap string_field service)
    ⊳ inl (ap int64_field target)
    ⊳ inr c0
    ⊳ inr c1
    ⊳ inl (ap kubernetes_field block)
    ⊳ tt

kubernetes_written :
    (free : Result ℤ) (m filled : KubernetesModel) (cfg : KubernetesConfig.TunnelConfig)
    → kubernetes_config free m ≡ done (filled, cfg)
    → WrittenBoth kubernetes_data_source_schema kubernetes_ephemeral_schema
        (kubernetes_fields m)
        (kubernetes_fields filled)
unfolding may_compute
kubernetes_written free m filled cfg h = (
  kubernetes_written_in kubernetes_data_source_schema free m filled cfg h (refl, refl),
  kubernetes_written_in kubernetes_ephemeral_schema free m filled cfg h (refl, refl),
)

-- What a configuration writes back into its model, for Terraform to record, stands in attributes that
-- both schemas mark as computed; it leaves every other attribute as it was given.
pub configs-WrittenBoth :
    ((host : Host) (m filled : SshModel) (cfg : SshTunnel.TunnelConfig)
      → ssh_config host m ≡ done (filled, cfg)
      → WrittenBoth ssh_data_source_schema ssh_ephemeral_schema (ssh_fields m) (ssh_fields filled))
    × ((free : Result ℤ) (load : LoadOptions → Result AwsConfig) (m filled : SsmModel)
          (cfg : SsmSession.TunnelConfig) (aws : AwsConfig)
        → ssm_config free load m ≡ done (filled, cfg, aws)
        → WrittenBoth ssm_data_source_schema ssm_ephemeral_schema
            (ssm_fields m)
            (ssm_fields filled))
    × ((lib : BastionConfig.Library) (free : Result ℤ) (m filled : AzureBastionModel)
          (cfg : BastionConfig.TunnelConfig)
        → azure_bastion_config lib free m ≡ done (filled, cfg)
        → WrittenBoth azure_bastion_data_source_schema azure_bastion_ephemeral_schema
            (azure_bastion_fields m)
            (azure_bastion_fields filled))
    × ((free : Result ℤ) (m filled : KubernetesModel) (cfg : KubernetesConfig.TunnelConfig)
        → kubernetes_config free m ≡ done (filled, cfg)
        → WrittenBoth kubernetes_data_source_schema kubernetes_ephemeral_schema
            (kubernetes_fields m)
            (kubernetes_fields filled))
configs-WrittenBoth = (ssh_written, ssm_written, bastion_written, kubernetes_written)
