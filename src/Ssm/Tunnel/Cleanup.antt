-- ===== src/Ssm/Tunnel/Cleanup.antt =====
-- internal/ssm/tunnel.go: no session is left without a tunnel.
use terraform_provider_tunne.Base.{
  ℕ, ◌+◌, ◌-◌, ◌≡◌, refl, false, none, some, List, [], ◌∷◌, ◌++◌, arith, if◌then◌else◌, take, drop,
}
use terraform_provider_tunne.Errors.{message, missing_session_parameters, Result, ok, err}
use terraform_provider_tunne.GoText.{Text, lit, or_default, is_empty, text_eq}
use terraform_provider_tunne.GoText.Equality.{text_eq_refl}
use terraform_provider_tunne.Libs.Fork.{ForkCalls, Effect, fork_tunnel}
use terraform_provider_tunne.Ssm.Session.{
  SessionParams, TunnelConfig, create_session_input, optional_param, default_ssm_document,
}
use terraform_provider_tunne.Ssm.Tunnel.{
  SsmEffect, start_session, terminate_session, forks, after_fork, fork_remote_tunnel, ChildCalls,
  plugin_args, log_name,
}

-- How many sessions with this ID the effects leave open, when each start has succeeded.
abbrev pub open_sessions : Text → List SsmEffect → ℕ → ℕ
open_sessions id [] n = n
open_sessions id (start_session input ∷ es) n = open_sessions id es (n + 1)
open_sessions id (terminate_session other ∷ es) n =
    open_sessions id es (if text_eq other id then n - 1 else n)
open_sessions id (forks fs ∷ es) n = open_sessions id es n

abbrev pub sessions_of : Result ℕ → ℕ
sessions_of (ok pid) = 1
sessions_of (err e) = 0

leftover :
    (s : SessionParams) (fs : List Effect) (r : Result ℕ)
    → open_sessions s.session_id (forks fs ∷ after_fork s r) 1 ≡ sessions_of r
unfolding after_fork
leftover s fs (ok pid) = refl
leftover s fs (err e) = rw (text_eq_refl s.session_id)

-- When the SSM session could be started, ForkRemoteTunnel leaves that session open exactly if it
-- returns a tunnel process; otherwise it has asked for the termination of that session.
pub fork_remote_tunnel-sessions :
    (cfg : TunnelConfig) (s : SessionParams) (calls : TunnelConfig → ForkCalls)
    → let r = fork_remote_tunnel cfg (ok s) calls in
      open_sessions s.session_id r.effects 0 ≡ sessions_of r.process
unfolding fork_remote_tunnel
fork_remote_tunnel-sessions cfg s calls =
    let handed = record cfg { session_params = some s } in
    let f = fork_tunnel (lit "ssm") (log_name handed) (calls handed) in leftover s f.0 f.1

-- The values of a parameter of the session.
abbrev pub param : Text → List (Text × List Text) → List Text
param name [] = []
param name ((n, values) ∷ rest) = if text_eq n name then values else param name rest

abbrev pub given : Text → List Text
given [] = []
given (c ∷ t) = (c ∷ t) ∷ []

params_of :
    (host port local : Text)
    → let ps =
        (lit "localPortNumber", local ∷ [])
        ∷ (optional_param (lit "host") host ++ optional_param (lit "portNumber") port) in
      (param (lit "localPortNumber") ps ≡ local ∷ [])
      × (param (lit "host") ps ≡ given host)
      × (param (lit "portNumber") ps ≡ given port)
unfolding optional_param text_eq
params_of [] [] local = (refl, refl, refl)
params_of [] (d ∷ port) local = (refl, refl, refl)
params_of (c ∷ host) [] local = (refl, refl, refl)
params_of (c ∷ host) (d ∷ port) local = (refl, refl, refl)

-- The session is asked for with the local port, and with the target's host and port exactly where
-- they are set; the document is the configured one, or the default where none is configured.
pub create_session_input-params :
    (cfg : TunnelConfig)
    → let input = create_session_input cfg in
      (param (lit "localPortNumber") input.parameters ≡ cfg.local_port ∷ [])
      × (param (lit "host") input.parameters ≡ given cfg.target_host)
      × (param (lit "portNumber") input.parameters ≡ given cfg.target_port)
      × (input.document_name ≡ or_default cfg.ssm_document default_ssm_document)
      × (is_empty input.document_name ≡ false)
unfolding create_session_input
create_session_input-params cfg =
    let (l, h, p) = params_of cfg.target_host cfg.target_port cfg.local_port in
    (l, h, p, refl, document_set cfg.ssm_document)
  where
    document_set : (d : Text) → is_empty (or_default d default_ssm_document) ≡ false
    document_set [] = refl
    document_set (c ∷ d) = refl

-- The sixth argument of the plugin is the JSON of the session's input.
pub plugin_args-input :
    (cfg : TunnelConfig) (c : ChildCalls) {args : List Text}
    → plugin_args cfg c ≡ ok args
    → (input : Text) × (c.input_json (create_session_input cfg) ≡ ok input)
      × (take 1 (drop 5 args) ≡ input ∷ [])
unfolding plugin_args
plugin_args-input cfg c h = ground arith

-- The child starts the plugin only with the session that the provider has handed over, with the
-- region and the profile of the configuration; without a session it reports that.
pub plugin_args-session :
    (cfg : TunnelConfig) (c : ChildCalls) {args : List Text}
    → (cfg.session_params ≡ none → plugin_args cfg c ≡ err (message missing_session_parameters))
      × (plugin_args cfg c ≡ ok args
          → (s : SessionParams) × (session_json : Text) × (cfg.session_params ≡ some s)
            × (c.params_json s ≡ ok session_json)
            × (take 3 args ≡ lit "session-manager-plugin" ∷ session_json ∷ cfg.ssm_region ∷ []))
unfolding plugin_args
plugin_args-session cfg c = (λ h. ground arith, λ h. ground arith)
