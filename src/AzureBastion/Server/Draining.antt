-- ===== src/AzureBastion/Server/Draining.antt =====
-- internal/azurebastion/server.go with internal/libs/relay.go: how long a local connection lives.
use terraform_provider_tunne.Base.{ℕ, ◌≡◌, refl, Bool, false, Option, List, [], ◌∷◌, ◌++◌, arith}
use terraform_provider_tunne.Errors.{Error, Result, ok, err}
use terraform_provider_tunne.Libs.Relay.{
  Stream, Relay, Event, copied_to_b, timer, ends, run, draining, returned,
}
use terraform_provider_tunne.Libs.Relay.Closing.{
  drain_returns, no_half_close, relay_drain-a, returned_closes,
}
use terraform_provider_tunne.AzureBastion.Session.{
  AccessToken, SessionClient, TokenResponse, Answer, open_session,
}
use terraform_provider_tunne.AzureBastion.Server.{
  ws_stream, drain_grace, server_relay, Handled, given_up, relays, handled, handle,
}

-- What a local connection can rely on in a relay.
abbrev pub IsBounded : Relay → Type 0
IsBounded r =
    ((es : List Event) (e : Bool)
      → (run r es).main ≡ draining
      → (run r (es ++ timer ∷ copied_to_b e ∷ ends ∷ [])).main ≡ returned)
    × ((es : List Event)
        → (run r es).main ≡ returned
        → ((run r es).a.is_open ≡ false) × ((run r es).b.is_open ≡ false))
    × ((e : Bool) → (run r (copied_to_b e ∷ [])).b.is_open ≡ false)

abbrev pub Bounded : Stream → Result TokenResponse → Handled → Type 0
Bounded local result (given_up e) = result ≡ err e
Bounded local result (relays t r) = (result ≡ ok t) × (r.a ≡ local) × IsBounded r

server_relay-IsBounded : (local : Stream) → IsBounded (server_relay local)
unfolding server_relay
server_relay-IsBounded local = (
  λ es e m. drain_returns local ws_stream drain_grace es e (omega arith) m,
  λ es m. let (x, y, z) = returned_closes local ws_stream drain_grace es m in (x, y),
  λ e. no_half_close local ws_stream drain_grace e refl,
)

server_relay-a : (local : Stream) → (server_relay local).a ≡ local
unfolding server_relay
server_relay-a local = relay_drain-a local ws_stream drain_grace

by_result : (local : Stream) (r : Result TokenResponse) → Bounded local r (handled local r)
unfolding handled
by_result local (err e) = refl
by_result local (ok t) = (refl, server_relay-a local, server_relay-IsBounded local)

-- The handler gives a local connection up with the error of `open`, or relays it to the WebSocket of
-- the token that `open` got. In the relay, the end of what the local client sends closes the
-- WebSocket at once, since that has no half-close; at any time at which the WebSocket is at its end
-- and the other copy is waited for, the timer of the grace period and the end of the copy from the
-- closed local connection are enough for the handler to return; and when it returns both are closed.
pub handle-Bounded :
    (now : ℕ) (credential : Result AccessToken) (answer : Answer) (dial : Option Error)
    (local : Stream) (c : SessionClient)
    → Bounded local
        (open_session now credential answer dial c).1
        (handle now credential answer dial local c).1
unfolding handle
handle-Bounded now credential answer dial local c =
    by_result local (open_session now credential answer dial c).1
