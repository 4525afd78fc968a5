-- ===== src/Provider/Ssh.antt =====
-- internal/provider/ssh.go: the SSH tunnel's attributes, and its configuration.
pub mod Target
mod Tests
use terraform_provider_tunne.Base.{
  Bool, true, false, not, ◌&&◌, ◌||◌, List, [], ◌∷◌, if◌then◌else◌, ℤ, pos, eqℤ,
}
use terraform_provider_tunne.Errors.{Error, Result, ok, err}
use terraform_provider_tunne.GoText.{Text, lit, is_empty}
use terraform_provider_tunne.Ssh.Tunnel.{TunnelConfig}
use terraform_provider_tunne.Provider.{
  Attr, null, unknown, value, is_null, value_string, value_int64, unset, Diagnostic, no_local_port,
  conflicting_target, missing_target, missing_target_host, no_current_user, Outcome, failed, done,
  ◌>>=◌, or_fail, local_port_or,
}

pub record SshModel : Type 0 where
  pub local_host : Attr Text
  pub local_port : Attr ℤ
  pub ssh_host : Attr Text
  pub ssh_key : Attr Text
  pub ssh_key_passphrase : Attr Text
  pub ssh_password : Attr Text
  pub ssh_port : Attr ℤ
  pub ssh_user : Attr Text
  pub target_host : Attr Text
  pub target_port : Attr ℤ
  pub target_socket : Attr Text

-- What the system answers: GetFreePort, and the name of user.Current.
pub record Host : Type 0 where
  pub free_port : Result ℤ
  pub current_user : Result Text

-- The `switch` of validateSSHTarget.
target_errors : Bool → Bool → Attr Text → List Diagnostic
target_errors true true host = conflicting_target ∷ []
target_errors false false host = missing_target ∷ []
target_errors true false host = if unset host then missing_target_host ∷ [] else []
target_errors false true host = []

-- `validateSSHTarget`
unfoldable pub validate_ssh_target : Attr Text → Attr Text → Attr ℤ → List Diagnostic
unfolding target_errors
validate_ssh_target host socket port =
    target_errors (not (is_null port))
      (not (is_null socket) && not (is_empty (value_string socket))) host

valid_target : List Diagnostic → SshModel → Outcome SshModel
valid_target [] model = done model
valid_target (d ∷ ds) model = failed (d ∷ ds)

user_or : Result Text → Attr Text → Outcome (Attr Text)
user_or current null = do name ← or_fail no_current_user current; done (value name)
user_or current unknown = done unknown
user_or current (value s) = done (value s)

port_or_22 : Attr ℤ → Attr ℤ
port_or_22 null = value (pos 22)
port_or_22 unknown = unknown
port_or_22 (value p) = value p

-- `sshConfig`: the model with its defaults, and the configuration.
unfoldable pub ssh_config : Host → SshModel → Outcome (SshModel × TunnelConfig)
unfolding valid_target user_or port_or_22
ssh_config host model = do
  checked ←
      valid_target (validate_ssh_target model.target_host model.target_socket model.target_port)
        model
  port ← local_port_or host.free_port (value_int64 model.local_port)
  user ← user_or host.current_user model.ssh_user
  let local = if unset model.local_host then value (lit "localhost") else model.local_host
  let filled = record model {
    local_host = local;
    local_port =
        if eqℤ (value_int64 model.local_port) (pos 0) then value port else model.local_port;
    ssh_user = user;
    ssh_port = port_or_22 model.ssh_port;
  }
  done (
    filled,
    record {
      local_host = value_string filled.local_host;
      local_port = port;
      ssh_host = value_string model.ssh_host;
      ssh_key = value_string model.ssh_key;
      ssh_key_passphrase = value_string model.ssh_key_passphrase;
      ssh_password = value_string model.ssh_password;
      ssh_port = value_int64 filled.ssh_port;
      ssh_user = value_string filled.ssh_user;
      target_host = value_string model.target_host;
      target_port = value_int64 model.target_port;
      target_socket = value_string model.target_socket;
    },
  )
