-- ===== src/Ssm/Tunnel/Start.antt =====
-- internal/ssm/tunnel.go: StartRemoteTunnel, with the readiness that it reports beside the plugin.
-- What json.Unmarshal makes of the configuration is an argument.
use terraform_provider_tunne.Base.{◌≡◌, refl, ◌⊎◌, inl, inr, take, drop, List, [], ◌∷◌}
use terraform_provider_tunne.Errors.{Error, Result, ok, err, Result-cases}
use terraform_provider_tunne.Effects.{Run, ◌>>=◌, ◌>>◌, ask, emit}
use terraform_provider_tunne.GoText.{Text, lit}
use terraform_provider_tunne.Ssm.Session.{TunnelConfig, create_session_input}
use terraform_provider_tunne.Ssm.Tunnel.{ChildCalls, plugin_args}
use terraform_provider_tunne.Ssm.Tunnel.Cleanup.{
  param, create_session_input-params, plugin_args-input,
}

-- `report_ready port`: the goroutine with SignalReadyWhenServing for that port of localhost.
pub data ChildEffect : Type 0 where
  report_ready : Text → ChildEffect
  start_plugin : List Text → ChildEffect

pub with_config : TunnelConfig → ChildCalls → Run ChildEffect (Unit {0})
with_config cfg c = do
  args ← ask (plugin_args cfg c)
  emit (report_ready cfg.local_port)
  emit (start_plugin args)

-- `StartRemoteTunnel`; the plugin has no result.
unfoldable pub start_remote_tunnel : Result TunnelConfig → ChildCalls → Run ChildEffect (Unit {0})
unfolding with_config
start_remote_tunnel decoded c = do cfg ← ask decoded; with_config cfg c

abbrev pub PortAgreed : TunnelConfig → ChildCalls → Run ChildEffect (Unit {0}) → Type 0
PortAgreed cfg c r =
    (args : List Text) × (input : Text) × (r
      ≡ (report_ready cfg.local_port ∷ start_plugin args ∷ [], ok tt))
    × (c.input_json (create_session_input cfg) ≡ ok input)
    × (take 1 (drop 5 args) ≡ input ∷ [])
    × (param (lit "localPortNumber") (create_session_input cfg).parameters ≡ cfg.local_port ∷ [])

by_args :
    (cfg : TunnelConfig) (c : ChildCalls)
    → ((e : Error) × (plugin_args cfg c ≡ err e))
      ⊎ ((args : List Text) × (plugin_args cfg c ≡ ok args))
    → ((e : Error) × (with_config cfg c ≡ ([], err e))) ⊎ PortAgreed cfg c (with_config cfg c)
unfolding with_config
by_args cfg c (inl (e, h)) = inl (e, rw h refl)
by_args cfg c (inr (args, h)) =
    let (input, json, at) = plugin_args-input cfg c h in
    inr (args, input, rw h refl, json, at, (create_session_input-params cfg).0)

-- The child either does nothing and returns an error, or starts the plugin once, and beside it
-- reports readiness for just the local port that the session's input, the sixth argument of the
-- plugin, asks for.
pub start_remote_tunnel-PortAgreed :
    (cfg : TunnelConfig) (c : ChildCalls)
    → let r = start_remote_tunnel (ok cfg) c in
      ((e : Error) × (r ≡ ([], err e))) ⊎ PortAgreed cfg c r
unfolding start_remote_tunnel
start_remote_tunnel-PortAgreed cfg c = by_args cfg c (Result-cases (plugin_args cfg c))
