-- ===== src/AzureBastion/Server.antt =====
-- internal/azurebastion/server.go: the handler of a local connection. What the data plane, the
-- credential and the clock answer to it is an argument, as in AzureBastion.Session.
pub mod Draining
mod Tests
use terraform_provider_tunne.Base.{ℕ, Bool, true, false, Option}
use terraform_provider_tunne.Errors.{Error, Result, ok, err}
use terraform_provider_tunne.Libs.Relay.{Stream, Relay, relay_drain}
use terraform_provider_tunne.AzureBastion.Session.{
  AccessToken, SessionClient, TokenResponse, Answer, open_session,
}

-- drainGrace, in seconds.
abbrev pub drain_grace : ℕ
drain_grace = 5

-- `&wsStream{conn: remote}` of a new connection. wsStream has no `CloseWrite`, so it is no
-- halfCloser.
abbrev pub ws_stream : Stream
ws_stream = record { is_open = true; write_open = true; half_closes = false }

-- `relay(local, remote)`
pub server_relay : Stream → Relay
server_relay local = relay_drain local ws_stream drain_grace

-- What `handle` does with a local connection: it logs an error and returns, or it is in RelayDrain
-- with the WebSocket of this token.
pub data Handled : Type 0 where
  given_up : Error → Handled
  relays : TokenResponse → Relay → Handled

handled : Stream → Result TokenResponse → Handled
unfolding server_relay
handled local (err e) = given_up e
handled local (ok t) = relays t (server_relay local)

-- `handle(ctx, local)`: the session after it, and what becomes of the connection.
pub handle :
    ℕ
    → Result AccessToken
    → Answer
    → Option Error
    → Stream
    → SessionClient
    → SessionClient × Handled
unfolding handled
handle now credential answer dial local c =
    let (after, result) = open_session now credential answer dial c in (after, handled local result)
