-- ===== src/Provider/Registry/Tests.antt =====
-- The kinds that are offered, at one of them.
use terraform_provider_tunne.Base.{◌≡◌, [], ◌∷◌}
use terraform_provider_tunne.GoText.{lit}
use terraform_provider_tunne.Runner.{ssh}
use terraform_provider_tunne.Provider.Schema.Ssh.{ssh_data_source_schema}
use terraform_provider_tunne.Provider.Registry.{offered, data_sources, offered-schemas_of}

offered-schemas_of_example : offered (lit "tunnel_ssh") data_sources ≡ ssh_data_source_schema ∷ []
offered-schemas_of_example = (offered-schemas_of ssh).0
