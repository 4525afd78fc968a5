-- ===== src/AzureBastion/Session/Callers.antt =====
-- internal/azurebastion/session.go: the mutex `mu` of a sessionClient. Callers negotiate at the same
-- time: one locks the mutex and sends its request, and unlocks it with the answer; `close`
-- locks it for the exchange of the fields.
pub mod Serial
mod Tests
use terraform_provider_tunne.Base.{
  ℕ, Bool, true, false, Option, none, some, List, [], ◌∷◌, ◌==◌, if◌then◌else◌,
}
use terraform_provider_tunne.GoText.{Text}
use terraform_provider_tunne.AzureBastion.Session.{
  SessionClient, TokenRequest, DeleteRequest, Answer, DeleteAnswer, token_request, negotiate,
  close_session,
}

-- A negotiation that the data plane has answered.
pub record Exchange : Type 0 where
  pub request : TokenRequest
  pub answer : Answer

-- A caller of `negotiate` that has sent its request and waits for the answer, with its access token.
pub record Waiter : Type 0 where
  pub caller : ℕ
  pub aztoken : Text
  pub sent : TokenRequest

-- `locked` is the state of `mu`; whether it keeps the callers apart is not part of the representation.
pub record Shared : Type 0 where
  pub client : SessionClient
  pub locked : Bool
  pub waiters : List Waiter  -- newest first
  pub exchanges : List Exchange  -- newest first
  pub deletions : List DeleteRequest  -- those that `close` has detached, newest first

pub data Event : Type 0 where
  sends : ℕ → Text → Event
  receives : ℕ → Answer → Event
  closes : DeleteAnswer → Event

detached : Option DeleteRequest → List DeleteRequest → List DeleteRequest
detached none rs = rs
detached (some r) rs = r ∷ rs

-- `c.mu.Lock()`: while the mutex is locked, nothing happens yet.
locking : Bool → Shared → Shared → Shared
locking true s entered = s
locking false s entered = entered

-- The request goes out behind the lock.
send : ℕ → Text → Shared → Shared
unfolding locking
send caller aztoken s = locking s.locked s (record s {
  locked = true;
  waiters =
      record { caller = caller; aztoken = aztoken; sent = token_request aztoken s.client }
      ∷ s.waiters;
})

find_waiter : ℕ → List Waiter → Option Waiter
find_waiter caller [] = none
find_waiter caller (w ∷ ws) = if w.caller == caller then some w else find_waiter caller ws

without : ℕ → List Waiter → List Waiter
without caller [] = []
without caller (w ∷ ws) = if w.caller == caller then ws else w ∷ without caller ws

-- The answer, the update, and the deferred `c.mu.Unlock()`.
receive : ℕ → Answer → Option Waiter → Shared → Shared
unfolding without
receive caller answer none s = s
receive caller answer (some w) s = record s {
  client = (negotiate answer s.client).0;
  locked = false;
  waiters = without caller s.waiters;
  exchanges = record { request = w.sent; answer = answer } ∷ s.exchanges;
}

-- `close` up to its `Unlock`; the request that it makes then is that of the fields it has taken.
close_shared : DeleteAnswer → Shared → Shared
unfolding locking detached
close_shared answer s =
    let (c, request, error) = close_session answer s.client in
    locking s.locked s (record s { client = c; deletions = detached request s.deletions })

pub step : Shared → Event → Shared
unfolding send receive close_shared find_waiter
step s (sends caller aztoken) = send caller aztoken s
step s (receives caller answer) = receive caller answer (find_waiter caller s.waiters) s
step s (closes answer) = close_shared answer s

pub run : Shared → List Event → Shared
unfolding step
run s [] = s
run s (e ∷ es) = run (step s e) es

abbrev pub share : SessionClient → Shared
share c = record { client = c; locked = false; waiters = []; exchanges = []; deletions = [] }
