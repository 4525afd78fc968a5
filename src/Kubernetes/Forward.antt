-- ===== src/Kubernetes/Forward.antt =====
-- internal/kubernetes/forward.go: one run of a port forward. What client-go's ForwardPorts and the
-- context do is an argument; where both could be received from, the choice of the `select` is too.
pub mod Readiness
mod Tests
use terraform_provider_tunne.Base.{
  Bool, true, false, Option, none, some, List, [], ◌∷◌, if◌then◌else◌,
}
use terraform_provider_tunne.Errors.{
  Error, message, wrap, client_go_stopped, start_port_forward, port_forward_ended, round_tripper,
  port_forwarder, Result, ok, err, wrap_err,
}
use terraform_provider_tunne.Effects.{Run, ◌>>=◌, ◌>>◌, perform, ask, emit, defer, result_of}

-- What the first `select` receives: the context's end, the result of `serve`, or readiness.
pub data Startup : Type 0 where
  context_done became_ready : Startup
  serve_ended : Option Error → Startup

-- What the second `select` receives.
pub data Ending : Type 0 where
  canceled_ending : Ending
  ended_ending : Option Error → Ending

-- `canceled_before` and `canceled_ready` are the two tests of `ctx.Err()`.
pub record ForwardCalls : Type 0 where
  pub canceled_before : Bool
  pub startup : Startup
  pub canceled_ready : Bool
  pub signal_ready : Option Error
  pub ending : Ending

pub data Effect : Type 0 where
  serve signal close_stop : Effect

-- `endedError`
pub ended_error : Option Error → Error
ended_error none = message client_go_stopped
ended_error (some e) = e

until_end : Ending → Result (Unit {0})
unfolding ended_error
until_end canceled_ending = ok tt
until_end (ended_ending e) = err (wrap port_forward_ended (ended_error e))

-- What follows readiness.
when_ready : ForwardCalls → Run Effect (Unit {0})
unfolding until_end
when_ready c =
    if c.canceled_ready
    then ask (ok tt)
    else (do perform signal (result_of c.signal_ready); ask (until_end c.ending))

after_startup : Startup → ForwardCalls → Run Effect (Unit {0})
unfolding when_ready ended_error
after_startup context_done c = ask (ok tt)
after_startup (serve_ended e) c = ask (err (wrap start_port_forward (ended_error e)))
after_startup became_ready c = when_ready c

-- What stands behind `defer close(f.stop)`.
forward_body : ForwardCalls → Run Effect (Unit {0})
unfolding after_startup
forward_body c =
    if c.canceled_before then ask (ok tt) else (do emit serve; after_startup c.startup c)

-- `run`
unfoldable pub run_forward : ForwardCalls → Run Effect (Unit {0})
unfolding forward_body
run_forward c = defer close_stop (forward_body c)

-- `newPortForward` up to its result; the two answers are client-go's.
unfoldable pub new_port_forward : Option Error → Option Error → Result (Unit {0})
new_port_forward (some e) forwarder = err (wrap round_tripper e)
new_port_forward none forwarder = wrap_err port_forwarder (result_of forwarder)
