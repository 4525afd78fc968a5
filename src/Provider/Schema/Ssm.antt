-- ===== src/Provider/Schema/Ssm.antt =====
-- internal/provider/data_source_ssm.go and ephemeral_ssm.go: the schemas of the SSM tunnel, and the
-- fields of its model.

use terraform_provider_tunne.GoText.{lit}
use terraform_provider_tunne.Provider.Ssm.{SsmModel}
use terraform_provider_tunne.Provider.Schema.{
  Attributes, attr, end, ◌&◌, int64_attribute, string_attribute, computed, optional,
  optional_computed, required, Fields, tag, end_fields, ◌&=◌, string_field, int64_field,
}

-- `Schema` of the data source.
abbrev pub ssm_data_source_schema : Attributes
ssm_data_source_schema =
    attr (lit "target_host") string_attribute optional
    & attr (lit "target_port") int64_attribute optional
    & attr (lit "ssm_instance") string_attribute required
    & attr (lit "ssm_document") string_attribute optional
    & attr (lit "ssm_profile") string_attribute optional_computed
    & attr (lit "ssm_role_arn") string_attribute optional_computed
    & attr (lit "ssm_region") string_attribute optional_computed
    & attr (lit "local_port") int64_attribute optional_computed
    & attr (lit "local_host") string_attribute computed
    & end

-- `Schema` of the ephemeral resource.
abbrev pub ssm_ephemeral_schema : Attributes
ssm_ephemeral_schema =
    attr (lit "target_host") string_attribute optional
    & attr (lit "target_port") int64_attribute optional
    & attr (lit "ssm_instance") string_attribute required
    & attr (lit "ssm_document") string_attribute optional
    & attr (lit "ssm_profile") string_attribute optional_computed
    & attr (lit "ssm_role_arn") string_attribute optional_computed
    & attr (lit "ssm_region") string_attribute optional_computed
    & attr (lit "local_port") int64_attribute optional_computed
    & attr (lit "local_host") string_attribute computed
    & end

-- The fields of the model, by their `tfsdk` tags.
abbrev pub ssm_fields : SsmModel → Fields
ssm_fields m =
    tag (lit "local_host") (string_field m.local_host)
    &= tag (lit "local_port") (int64_field m.local_port)
    &= tag (lit "ssm_instance") (string_field m.ssm_instance)
    &= tag (lit "ssm_document") (string_field m.ssm_document)
    &= tag (lit "ssm_profile") (string_field m.ssm_profile)
    &= tag (lit "ssm_role_arn") (string_field m.ssm_role_arn)
    &= tag (lit "ssm_region") (string_field m.ssm_region)
    &= tag (lit "target_host") (string_field m.target_host)
    &= tag (lit "target_port") (int64_field m.target_port)
    &= end_fields
