-- ===== src/Provider/Schema/AzureBastion.antt =====
-- internal/provider/data_source_azure_bastion.go and ephemeral_azure_bastion.go: the schemas of the Azure Bastion tunnel, and the
-- fields of its model.

use terraform_provider_tunne.GoText.{lit}
use terraform_provider_tunne.Provider.AzureBastion.{AzureBastionModel}
use terraform_provider_tunne.Provider.Schema.{
  Attributes, attr, end, ◌&◌, int64_attribute, string_attribute, optional, optional_computed,
  required, Fields, tag, end_fields, ◌&=◌, string_field, int64_field,
}

-- `Schema` of the data source.
abbrev pub azure_bastion_data_source_schema : Attributes
azure_bastion_data_source_schema =
    attr (lit "bastion_host_id") string_attribute required
    & attr (lit "target_resource_id") string_attribute optional
    & attr (lit "target_ip_address") string_attribute optional
    & attr (lit "target_port") int64_attribute required
    & attr (lit "local_host") string_attribute optional_computed
    & attr (lit "local_port") int64_attribute optional_computed
    & end

-- `Schema` of the ephemeral resource.
abbrev pub azure_bastion_ephemeral_schema : Attributes
azure_bastion_ephemeral_schema =
    attr (lit "bastion_host_id") string_attribute required
    & attr (lit "target_resource_id") string_attribute optional
    & attr (lit "target_ip_address") string_attribute optional
    & attr (lit "target_port") int64_attribute required
    & attr (lit "local_host") string_attribute optional_computed
    & attr (lit "local_port") int64_attribute optional_computed
    & end

-- The fields of the model, by their `tfsdk` tags.
abbrev pub azure_bastion_fields : AzureBastionModel → Fields
azure_bastion_fields m =
    tag (lit "bastion_host_id") (string_field m.bastion_host_id)
    &= tag (lit "target_resource_id") (string_field m.target_resource_id)
    &= tag (lit "target_ip_address") (string_field m.target_ip_address)
    &= tag (lit "target_port") (int64_field m.target_port)
    &= tag (lit "local_host") (string_field m.local_host)
    &= tag (lit "local_port") (int64_field m.local_port)
    &= end_fields
