-- ===== src/Ssm/Api.antt =====
-- internal/ssm/session.go: the two calls of the SSM API. The client is a parameter.
mod Tests
use terraform_provider_tunne.Base.{
  ℕ, ◌≡◌, ◌≢◌, ◌↔◌, refl, ◌⊎◌, inl, inr, Bool, true, false, Option, none, some, is_some, ◌&&◌,
  arith,
}
use terraform_provider_tunne.Errors.{Error, deadline_exceeded, Result, ok, err, Result-cases}
use terraform_provider_tunne.GoText.{Text}
use terraform_provider_tunne.Ssm.Session.{
  SessionParams, TunnelConfig, StartSessionInput, create_session_input,
}

-- ssm.StartSessionOutput: pointers, which may be nil.
pub record StartSessionOutput : Type 0 where
  pub output_session_id : Option Text
  pub output_token_value : Option Text
  pub output_stream_url : Option Text

-- A context: the error that it is done with, and its deadline in seconds from now.
pub record Context : Type 0 where
  pub done : Option Error
  pub deadline : Option ℕ

-- What the source uses of ssm.Client.
pub record SsmClient : Type 0 where
  pub start_session : StartSessionInput → Result StartSessionOutput
  pub terminate_session : Context → Text → Option Error

-- What startTunnelSession comes to: its result, or the panic of a nil pointer.
pub data Started : Type 0 where
  nil_pointer : Started
  started : Result SessionParams → Started

with_url : Text → Text → Option Text → Started
with_url id token none = nil_pointer
with_url id token (some url) =
    started (ok (record { session_id = id; token_value = token; stream_url = url }))

with_token : Text → Option Text → Option Text → Started
unfolding with_url
with_token id none url = nil_pointer
with_token id (some token) url = with_url id token url

dereferenced : Option Text → Option Text → Option Text → Started
unfolding with_token
dereferenced none token url = nil_pointer
dereferenced (some id) token url = with_token id token url

of_response : Result StartSessionOutput → Started
unfolding dereferenced
of_response (err e) = started (err e)
of_response (ok out) =
    dereferenced out.output_session_id out.output_token_value out.output_stream_url

-- sessionCleanupTimeout, in seconds.
abbrev pub session_cleanup_timeout : ℕ
session_cleanup_timeout = 10

without_cancel : Context → Context
without_cancel ctx = record { done = none; deadline = none }

with_timeout : ℕ → Context → Context
with_timeout seconds ctx = record ctx { deadline = some seconds }

module _ (client : SsmClient) where
  -- `startTunnelSession`
  pub start_tunnel_session : TunnelConfig → Started
  unfolding of_response
  start_tunnel_session cfg = of_response (client.start_session (create_session_input cfg))

  -- `terminateTunnelSession`
  pub terminate_tunnel_session : Context → SessionParams → Option Error
  unfolding without_cancel with_timeout
  terminate_tunnel_session ctx session =
      client.terminate_session (with_timeout session_cleanup_timeout (without_cancel ctx))
        session.session_id

-- The tear-down of a session does not depend on the context that it is reached with: a cancelled one
-- makes the same call as a fresh one.
pub terminate_tunnel_session-ctx :
    (client : SsmClient) (ctx other : Context) (session : SessionParams)
    → terminate_tunnel_session client ctx session ≡ terminate_tunnel_session client other session
unfolding terminate_tunnel_session
terminate_tunnel_session-ctx client ctx other session = refl

-- Starting a session panics exactly if the API reports success without one of the three values.
pub start_tunnel_session-nil_iff :
    (client : SsmClient) (cfg : TunnelConfig)
    → (start_tunnel_session client cfg ≡ nil_pointer) ↔ (
        (out : StartSessionOutput) × (client.start_session (create_session_input cfg) ≡ ok out)
        × ((is_some out.output_session_id
              && is_some out.output_token_value
              && is_some out.output_stream_url)
            ≡ false))
unfolding start_tunnel_session of_response dereferenced with_token with_url
start_tunnel_session-nil_iff client cfg = (
  λ h. elim (Result-cases (client.start_session (create_session_input cfg))) [
    | inl (e, failed) ↦ ground arith
    | inr (out, answered) ↦ (out, answered, ground arith)
  ],
  λ h. ground arith,
)
