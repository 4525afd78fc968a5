-- ===== src/Ssh/Auth/Tests.antt =====
-- Credentials at concrete configurations.
use terraform_provider_tunne.Base.{◌≡◌, refl, true, false, List, [], ◌∷◌, pos, inr, All}
use terraform_provider_tunne.Errors.{external, message, no_credentials, not_exist, ok, err}
use terraform_provider_tunne.GoText.{Text, lit, text_eq}
use terraform_provider_tunne.Ssh.Tunnel.{TunnelConfig}
use terraform_provider_tunne.Ssh.Auth.{
  try_key, home, agent_keys, KeyParser, System, password, auth_methods, AgentKey, with_algorithm,
  sign_with_algorithm,
}
use terraform_provider_tunne.Ssh.Auth.Selection.{
  IsConfigured, explicit_only, no_credentials_iff, key_of, sign_with-key,
}

abbrev parser : KeyParser
parser = record {
  parse_private_key = λ pem. ok pem;
  parse_with_passphrase = λ pem phrase. err (external 2);
}

abbrev bare : System
bare = record {
  stat = λ path. false;
  read_file = λ path. err not_exist;
  home_dir = ok (lit "/home/u");
  auth_sock = lit "/tmp/agent";
  agent_answers = false;
}

abbrev config : Text → TunnelConfig
config pass = record {
  local_host = [];
  local_port = pos 9000;
  ssh_host = lit "bastion";
  ssh_key = [];
  ssh_key_passphrase = [];
  ssh_password = pass;
  ssh_port = pos 22;
  ssh_user = [];
  target_host = lit "db";
  target_port = pos 5432;
  target_socket = [];
}

explicit_only_example : All (IsConfigured [] (lit "secret")) (password (lit "secret") ∷ [])
unfolding auth_methods
explicit_only_example = explicit_only parser bare (config (lit "secret")) (inr refl) refl

no_credentials_iff_example : auth_methods parser bare (config []) ≡ err (message no_credentials)
no_credentials_iff_example =
    (no_credentials_iff parser bare (config []) refl refl).1
      (unfold try_key home in (refl, (refl, (refl, (refl, (refl, tt))))), unfold agent_keys in refl)

abbrev agent : List AgentKey
agent =
    record { public_key = lit "k1"; algorithm_signer = false }
    ∷ record { public_key = lit "k2"; algorithm_signer = true }
    ∷ []

sign_with-key_example : key_of (with_algorithm (lit "k2")) ≡ lit "k2"
unfolding sign_with_algorithm text_eq
sign_with-key_example = (sign_with-key (lit "k2") agent).0 (with_algorithm (lit "k2")) refl
