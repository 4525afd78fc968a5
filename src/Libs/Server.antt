-- ===== src/Libs/Server.antt =====
-- internal/libs/server.go: ConnServer. The mutex makes each locked section one event; the events
-- of the serving goroutine, of the handlers' goroutines and of the callers of Close interleave.
pub mod Invariant
pub mod Shutdown
pub mod Progress
pub mod Termination
mod Tests
use terraform_provider_tunne.Base.{
  ℕ, suc, ◌+◌, ◌-◌, Bool, true, false, ◌||◌, Option, none, some, List, [], ◌∷◌, map, ◌==◌,
  if◌then◌else◌,
}
use terraform_provider_tunne.Errors.{Error, wrap, accept_local, is_net_closed}

-- How far the goroutine `run` of a connection is: in `handle`, or past one of the deferred calls
-- `conn.Close`, `forget` and `wg.Done`.
pub data Stage : Type 0 where
  handling closing forgetting finished : Stage

-- A connection that was accepted. `tracked` tells whether it is a key of the map `conns`.
pub record Conn : Type 0 where
  pub id : ℕ
  pub stage : Stage
  pub tracked : Bool
  pub is_open : Bool

-- Where `Serve` is: in `Accept`, between `Accept` and the lock, in the deferred `wg.Wait` with the
-- result that it will return, or back at its caller.
pub data Phase : Type 0 where
  accepting : Phase
  registering : ℕ → Phase
  waiting : Option Error → Phase
  returned : Option Error → Phase

pub record ConnServer : Type 0 where
  pub listener_open : Bool
  pub conns : List Conn
  pub closed : Bool
  pub wg : ℕ
  pub phase : Phase
  pub ctx_done : Bool
  pub accepted : ℕ  -- how many connections the listener has handed out; the next one's id

pub new_conn_server : ConnServer
new_conn_server = record {
  listener_open = true;
  conns = [];
  closed = false;
  wg = 0;
  phase = accepting;
  ctx_done = false;
  accepted = 0;
}

pub data Event : Type 0 where
  accept register : Event
  accept_error : Error → Event
  wait_over cancel close : Event
  handler_returns forget wg_done : ℕ → Event

-- `listener.Accept` hands out a connection while the listener is open.
serve_accept : Phase → ConnServer → ConnServer
serve_accept accepting s =
    if s.listener_open
    then record s { phase = registering s.accepted; accepted = suc s.accepted }
    else s
serve_accept _ s = s

-- `listener.Accept` fails.
serve_error : Phase → Error → ConnServer → ConnServer
serve_error accepting e s = record s {
  phase = waiting (if s.ctx_done || is_net_closed e then none else some (wrap accept_local e));
}
serve_error _ e s = s

-- The locked section of `Serve`, and `go s.run(ctx, conn)`.
serve_register : Phase → ConnServer → ConnServer
serve_register (registering id) s =
    if s.closed
    then record s {
      phase = waiting none;
      conns = record { id = id; stage = finished; tracked = false; is_open = false } ∷ s.conns;
    }
    else record s {
      phase = accepting;
      wg = suc s.wg;
      conns = record { id = id; stage = handling; tracked = true; is_open = true } ∷ s.conns;
    }
serve_register _ s = s

-- The deferred `wg.Wait` lets `Serve` return when the counter is 0.
serve_wait : Phase → ConnServer → ConnServer
serve_wait (waiting r) s = if s.wg == 0 then record s { phase = returned r } else s
serve_wait _ s = s

-- `conn.Close()` of a connection in the map, by Close.
drop_tracked : Conn → Conn
drop_tracked c = if c.tracked then record c { is_open = false } else c

server_close : ConnServer → ConnServer
unfolding drop_tracked
server_close s =
    if s.closed
    then s
    else record s { closed = true; listener_open = false; conns = map drop_tracked s.conns }

-- `handle` has returned, and the deferred `conn.Close()` has run.
handler_close : Stage → Conn → Conn
handler_close handling c = record c { stage = closing; is_open = false }
handler_close _ c = c

-- `s.forget(conn)`
handler_forget : Stage → Conn → Conn
handler_forget closing c = record c { stage = forgetting; tracked = false }
handler_forget _ c = c

-- `s.wg.Done()`
handler_done : Stage → Conn → Conn
handler_done forgetting c = record c { stage = finished }
handler_done _ c = c

pub update_conn : ℕ → (Conn → Conn) → List Conn → List Conn
update_conn id f [] = []
update_conn id f (c ∷ cs) = (if c.id == id then f c else c) ∷ update_conn id f cs

done_of : Stage → Bool → ℕ
done_of forgetting true = 1
done_of _ _ = 0

-- How many times an event calls `wg.Done`: once for each connection that it takes to its end.
pub dones : ℕ → List Conn → ℕ
unfolding done_of
dones id [] = 0
dones id (c ∷ cs) = done_of c.stage (c.id == id) + dones id cs

unfoldable pub step : ConnServer → Event → ConnServer
unfolding serve_accept serve_error serve_register serve_wait server_close handler_close
    handler_forget handler_done
step s accept = serve_accept s.phase s
step s register = serve_register s.phase s
step s (accept_error e) = serve_error s.phase e s
step s wait_over = serve_wait s.phase s
step s cancel = record s { ctx_done = true }
step s close = server_close s
step s (handler_returns id) = record s {
  conns = update_conn id (λ c. handler_close c.stage c) s.conns;
}
step s (forget id) = record s { conns = update_conn id (λ c. handler_forget c.stage c) s.conns }
step s (wg_done id) = record s {
  conns = update_conn id (λ c. handler_done c.stage c) s.conns;
  wg = s.wg - dones id s.conns;
}

unfoldable pub run : ConnServer → List Event → ConnServer
unfolding step update_conn dones
run s [] = s
run s (e ∷ es) = run (step s e) es
