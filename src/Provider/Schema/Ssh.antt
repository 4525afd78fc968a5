-- ===== src/Provider/Schema/Ssh.antt =====
-- internal/provider/data_source_ssh.go and ephemeral_ssh.go: the schemas of the SSH tunnel, and the
-- fields of its model.

use terraform_provider_tunne.GoText.{lit}
use terraform_provider_tunne.Provider.Ssh.{SshModel}
use terraform_provider_tunne.Provider.Schema.{
  Attributes, attr, end, ◌&◌, int64_attribute, string_attribute, optional, optional_computed,
  required, sensitive, Fields, tag, end_fields, ◌&=◌, string_field, int64_field,
}

-- `Schema` of the data source.
abbrev pub ssh_data_source_schema : Attributes
ssh_data_source_schema =
    attr (lit "target_host") string_attribute optional
    & attr (lit "target_port") int64_attribute optional
    & attr (lit "target_socket") string_attribute optional
    & attr (lit "ssh_host") string_attribute required
    & attr (lit "ssh_port") int64_attribute optional_computed
    & attr (lit "ssh_user") string_attribute optional_computed
    & attr (lit "ssh_password") string_attribute (sensitive optional)
    & attr (lit "ssh_key") string_attribute (sensitive optional)
    & attr (lit "ssh_key_passphrase") string_attribute (sensitive optional)
    & attr (lit "local_host") string_attribute optional_computed
    & attr (lit "local_port") int64_attribute optional_computed
    & end

-- `Schema` of the ephemeral resource.
abbrev pub ssh_ephemeral_schema : Attributes
ssh_ephemeral_schema =
    attr (lit "target_host") string_attribute optional
    & attr (lit "target_port") int64_attribute optional
    & attr (lit "target_socket") string_attribute optional
    & attr (lit "ssh_host") string_attribute required
    & attr (lit "ssh_port") int64_attribute optional_computed
    & attr (lit "ssh_user") string_attribute optional_computed
    & attr (lit "ssh_password") string_attribute (sensitive optional)
    & attr (lit "ssh_key") string_attribute (sensitive optional)
    & attr (lit "ssh_key_passphrase") string_attribute (sensitive optional)
    & attr (lit "local_host") string_attribute optional_computed
    & attr (lit "local_port") int64_attribute optional_computed
    & end

-- The fields of the model, by their `tfsdk` tags.
abbrev pub ssh_fields : SshModel → Fields
ssh_fields m =
    tag (lit "local_host") (string_field m.local_host)
    &= tag (lit "local_port") (int64_field m.local_port)
    &= tag (lit "ssh_host") (string_field m.ssh_host)
    &= tag (lit "ssh_key") (string_field m.ssh_key)
    &= tag (lit "ssh_key_passphrase") (string_field m.ssh_key_passphrase)
    &= tag (lit "ssh_password") (string_field m.ssh_password)
    &= tag (lit "ssh_port") (int64_field m.ssh_port)
    &= tag (lit "ssh_user") (string_field m.ssh_user)
    &= tag (lit "target_host") (string_field m.target_host)
    &= tag (lit "target_port") (int64_field m.target_port)
    &= tag (lit "target_socket") (string_field m.target_socket)
    &= end_fields
