-- ===== src/Ssh/Forward.antt =====
-- internal/ssh/forward.go: dialTarget and handle over any source of SSH clients, and dialTarget over
-- the clientPool.
pub mod Retry
pub mod Handling
mod Tests
use terraform_provider_tunne.Base.{
  ℕ, zero, suc, Bool, true, false, Option, none, some, List, [], ◌∷◌, if◌then◌else◌,
}
use terraform_provider_tunne.Errors.{Error, canceled, Result, ok, err}
use terraform_provider_tunne.Libs.Relay.{Stream, Relay, relay}
use terraform_provider_tunne.Ssh.Client.{
  ClientPool, Turn, returns, waits, dials, enter, dial_result, get as get_event, dial_returns,
  discards, step,
}

-- What `client.DialContext` answers: a connection, an `ssh.OpenChannelError`, or another error.
pub data Dial : Type 0 where
  connected : ℕ → Dial
  rejected broken : Error → Dial

-- What dialTarget uses: `clients.get`, `clients.discard` and `client.DialContext`, on a state.
pub record ClientSource (S : Type 0) : Type 0 where
  pub get : S → S × Result ℕ
  pub discard_client : ℕ → S → S
  pub dial : ℕ → S → S × Dial

-- A Go `(net.Conn, error)`.
pub record Dialled : Type 0 where
  pub conn : Option ℕ
  pub error : Option Error

module _ {S : Type 0} (source : ClientSource S) where
  open source use {get, discard_client, dial}

  by_dial : (Option Error → S → S × Dialled) → ℕ → S → Dial → S × Dialled
  by_dial again client s (connected c) = (s, record { conn = some c; error = none })
  by_dial again client s (rejected e) = (s, record { conn = none; error = some e })
  by_dial again client s (broken e) = again (some e) (discard_client client s)

  by_client : (Option Error → S → S × Dialled) → S → Result ℕ → S × Dialled
  by_client again s (err e) = (s, record { conn = none; error = some e })
  by_client again s (ok client) = by_dial again client (dial client s).0 (dial client s).1

  -- `for range n`, with `lastErr`.
  pub dial_rounds : ℕ → Option Error → S → S × Dialled
  unfolding by_client by_dial
  dial_rounds zero last s = (s, record { conn = none; error = last })
  dial_rounds (suc n) last s = by_client (dial_rounds n) (get s).0 (get s).1

  pub dial_target : S → S × Dialled
  unfolding dial_rounds
  dial_target s = dial_rounds 2 none s

-- What `handle` does with a local connection: it logs an error and returns, or it is in Relay.
-- `crashes`: Relay is given a nil connection.
pub data Handled : Type 0 where
  given_up : Error → Handled
  relays : Relay → Handled
  crashes : Handled

relay_to : (ℕ → Stream) → Stream → Option ℕ → Handled
relay_to stream_of local none = crashes
relay_to stream_of local (some c) = relays (relay local (stream_of c))

handled : (ℕ → Stream) → Stream → Option ℕ → Option Error → Handled
unfolding relay_to
handled stream_of local conn (some e) = given_up e
handled stream_of local conn none = relay_to stream_of local conn

-- `handle(ctx, local)`, where `stream_of` gives the stream of a connection to the target.
pub handle : {S : Type 0} → ClientSource S → (ℕ → Stream) → Stream → S → S × Handled
unfolding handled
handle source stream_of local s =
    let (t, d) = dial_target source s in (t, handled stream_of local d.conn d.error)

-- One caller alone over the pool: `ssh_dial n` is the answer to the n-th SSH handshake, and
-- `channel client n` that of the client to the n-th channel that is asked for. `through` is the client
-- that was last asked for one.
pub record Network : Type 0 where
  pub pool : ClientPool
  pub handshakes_used : ℕ
  pub channels_used : ℕ
  pub through : Option ℕ

module _ (ssh_dial : ℕ → Option Error) (channel : ℕ → ℕ → Dial) where
  -- `get` of a caller that no other caller disturbs; one that waits gets `ctx.Err()` in the end.
  pub after_enter : Network → ClientPool → Turn → Network × Result ℕ
  after_enter s p (returns r) = (record s { pool = p }, r)
  after_enter s p (waits attempt) = (record s { pool = p }, err canceled)
  after_enter s p (dials attempt) =
      let e = ssh_dial s.handshakes_used in
      (
        record s {
          pool = step p (dial_returns attempt e);
          handshakes_used = suc s.handshakes_used;
        },
        dial_result e p,
      )

  pub pool_source : ClientSource Network
  unfolding after_enter
  pool_source = record {
    get = λ s. after_enter s (step s.pool get_event) (enter s.pool).1;
    discard_client = λ client s. record s { pool = step s.pool (discards client) };
    dial = λ client s. (
      record s { channels_used = suc s.channels_used; through = some client },
      channel client s.channels_used,
    );
  }
