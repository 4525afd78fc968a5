-- ===== src/Ssh/Client/Dial.antt =====
-- internal/ssh/client.go: dialSSH and keepalive. The answers of the network are arguments.
pub mod Transport
mod Tests
use terraform_provider_tunne.Base.{
  ℕ, suc, Bool, true, false, Option, none, some, List, [], ◌∷◌, ◌++◌, ltb, if◌then◌else◌,
}
use terraform_provider_tunne.Errors.{Error, Result, ok, err}
use terraform_provider_tunne.Effects.{Run, ◌>>=◌, ◌>>◌, acquire, ask, defer, emit, result_of}

pub data DialEffect : Type 0 where
  with_timeout cancel_timeout open_transport handshake close_transport : DialEffect

-- What a dial meets. `fired`: `stopClose()` is false, so the function of `context.AfterFunc` has
-- closed the transport, and is waited for.
pub record DialAnswers : Type 0 where
  pub connect : Option Error
  pub handshake_error : Option Error
  pub fired : Bool
  pub ctx_err : Option Error  -- `connectCtx.Err()` after the handshake

-- The two tests after the handshake.
checked : Option Error → Option Error → Run DialEffect (Unit {0})
checked (some e) shake = do emit close_transport; ask (err e)
checked none (some e) = do emit close_transport; ask (err e)
checked none none = ask (ok tt)

stop_close : Bool → Run DialEffect (Unit {0})
stop_close true = emit close_transport
stop_close false = ask (ok tt)

connected : DialAnswers → Run DialEffect (Unit {0})
unfolding checked stop_close
connected a = do
  acquire open_transport (result_of a.connect)
  emit handshake
  stop_close a.fired
  checked a.ctx_err a.handshake_error

-- `dialSSH`, with `cfg.Timeout` in nanoseconds.
pub dial_ssh : ℕ → DialAnswers → Run DialEffect (Unit {0})
unfolding connected
dial_ssh timeout a =
    if ltb 0 timeout
    then (do emit with_timeout; defer cancel_timeout (connected a))
    else connected a

-- `keepalive`: how many requests it has sent at the answers, and whether it has returned.
pub keepalive : List (Option Error) → ℕ × Bool
keepalive [] = (0, false)
keepalive (none ∷ answers) = let rest = keepalive answers in (suc rest.0, rest.1)
keepalive (some e ∷ answers) = (1, true)
