-- ===== src/Ssm/Tunnel.antt =====
-- internal/ssm/tunnel.go: the session is started in the provider and handed to the child.
pub mod Cleanup
pub mod Start
mod Tests
use terraform_provider_tunne.Base.{
  ℕ, Bool, true, false, Option, none, some, List, [], ◌∷◌, ◌++◌, if◌then◌else◌,
}
use terraform_provider_tunne.Errors.{
  Error, message, missing_session_parameters, Result, ok, err, ◌>>=◌, ◌>>◌, check,
}
use terraform_provider_tunne.GoText.{Text, lit, or_default}
use terraform_provider_tunne.Libs.Fork.{ForkCalls, Effect, fork_tunnel}
use terraform_provider_tunne.Ssm.Session.{
  SessionParams, TunnelConfig, StartSessionInput, create_session_input,
}

pub data SsmEffect : Type 0 where
  start_session : StartSessionInput → SsmEffect
  terminate_session : Text → SsmEffect
  forks : List Effect → SsmEffect

-- The name of the log file.
pub log_name : TunnelConfig → Text
log_name cfg =
    lit "ssm-tunnel-"
    ++ (cfg.ssm_instance ++ (lit "-" ++ (or_default cfg.target_port cfg.local_port ++ lit ".log")))

-- What ForkRemoteTunnel returns, with its effects in order.
pub record Forked : Type 0 where
  pub effects : List SsmEffect
  pub process : Result ℕ

-- The session is terminated when no child has taken it over.
after_fork : SessionParams → Result ℕ → List SsmEffect
after_fork session (ok pid) = []
after_fork session (err e) = terminate_session session.session_id ∷ []

-- `ForkTunnel` is given the configuration with the session; `calls` answers for that configuration.
with_session :
    TunnelConfig → (TunnelConfig → ForkCalls) → StartSessionInput → Result SessionParams → Forked
unfolding after_fork
with_session cfg calls input (err e) = record {
  effects = start_session input ∷ [];
  process = err e;
}
with_session cfg calls input (ok session) =
    let handed = record cfg { session_params = some session } in
    let (effects, process) = fork_tunnel (lit "ssm") (log_name handed) (calls handed) in
    record {
      effects = start_session input ∷ forks effects ∷ after_fork session process;
      process = process;
    }

pub fork_remote_tunnel : TunnelConfig → Result SessionParams → (TunnelConfig → ForkCalls) → Forked
unfolding with_session
fork_remote_tunnel cfg session calls = with_session cfg calls (create_session_input cfg) session

-- What the calls of StartRemoteTunnel answer.
pub record ChildCalls : Type 0 where
  pub watch : Option Error
  pub params_json : SessionParams → Result Text
  pub input_json : StartSessionInput → Result Text
  pub endpoint : Text → Result Text

need_session : Option SessionParams → Result SessionParams
need_session none = err (message missing_session_parameters)
need_session (some s) = ok s

-- `StartRemoteTunnel` up to the call of the plugin: the plugin's arguments.
pub plugin_args : TunnelConfig → ChildCalls → Result (List Text)
unfolding need_session
plugin_args cfg c = do
  session ← need_session cfg.session_params
  check c.watch
  session_json ← c.params_json session
  input_json ← c.input_json (create_session_input cfg)
  endpoint_url ← c.endpoint cfg.ssm_region
  ok (
      lit "session-manager-plugin"
      ∷ session_json
      ∷ cfg.ssm_region
      ∷ lit "StartSession"
      ∷ cfg.ssm_profile
      ∷ input_json
      ∷ endpoint_url
      ∷ [])
