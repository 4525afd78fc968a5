-- ===== src/Ssh/Client.antt =====
-- internal/ssh/client.go: clientPool. Each locked section is one event, and so is each
-- `client.Close()` made outside the lock; the events of all goroutines interleave. The SSH clients
-- that were dialled are numbered, and so are the handshakes.
pub mod Numbering
pub mod Invariant
pub mod Sharing
pub mod Leaks
pub mod Refinement
pub mod Dial
pub mod Ended
mod Tests
use terraform_provider_tunne.Base.{
  ℕ, suc, Bool, true, false, not, ◌&&◌, Option, none, some, List, [], ◌∷◌, map, length, ◌==◌,
  if◌then◌else◌,
}
use terraform_provider_tunne.Errors.{Error, net_closed, Result, ok, err}

-- A dialled client. `leaving`: the pool has given it up, and its `Close` is still to come.
pub record Client : Type 0 where
  pub id : ℕ
  pub is_open : Bool
  pub leaving : Bool

-- `outcome` is what the callers that wait on `done` receive; `none` until the channel is closed.
pub record Handshake : Type 0 where
  pub id : ℕ
  pub outcome : Option (Result ℕ)

pub record ClientPool : Type 0 where
  pub client : Option ℕ
  pub inflight : Option ℕ
  pub closed : Bool
  pub clients : List Client  -- newest first
  pub handshakes : List Handshake  -- newest first

pub new_pool : ClientPool
new_pool = record { client = none; inflight = none; closed = false; clients = []; handshakes = [] }

-- What a caller of `get` does after its first locked section: it returns, it waits for a
-- handshake, or it dials for one.
pub data Turn : Type 0 where
  returns : Result ℕ → Turn
  waits dials : ℕ → Turn

enter_idle : Option ℕ → ClientPool → ClientPool × Turn
enter_idle (some attempt) p = (p, waits attempt)
enter_idle none p =
    let attempt = length p.handshakes in
    (
      record p {
        inflight = some attempt;
        handshakes = record { id = attempt; outcome = none } ∷ p.handshakes;
      },
      dials attempt,
    )

enter_open : Option ℕ → ClientPool → ClientPool × Turn
unfolding enter_idle
enter_open (some client) p = (p, returns (ok client))
enter_open none p = enter_idle p.inflight p

-- The first locked section of `get`.
pub enter : ClientPool → ClientPool × Turn
unfolding enter_open
enter p = if p.closed then (p, returns (err net_closed)) else enter_open p.client p

pub publish : ℕ → Result ℕ → List Handshake → List Handshake
publish attempt r [] = []
publish attempt r (h ∷ hs) =
    (if h.id == attempt then record h { outcome = some r } else h) ∷ publish attempt r hs

-- A dial that succeeded is numbered `id`; a pool that was closed meanwhile closes it at once.
dialled : ℕ → ℕ → ClientPool → ClientPool
dialled attempt id p =
    if p.closed
    then record p {
      inflight = none;
      clients = record { id = id; is_open = false; leaving = false } ∷ p.clients;
      handshakes = publish attempt (err net_closed) p.handshakes;
    }
    else record p {
      client = some id;
      inflight = none;
      clients = record { id = id; is_open = true; leaving = false } ∷ p.clients;
      handshakes = publish attempt (ok id) p.handshakes;
    }

-- The second locked section of `get`, after the dial, and the publication of its result.
dial_done : ℕ → Option Error → ClientPool → ClientPool
unfolding dialled
dial_done attempt none p = dialled attempt (length p.clients) p
dial_done attempt (some e) p = record p {
  inflight = none;
  handshakes = publish attempt (err e) p.handshakes;
}

-- What `get` returns to the caller that has dialled.
pub dial_result : Option Error → ClientPool → Result ℕ
dial_result (some e) p = err e
dial_result none p = if p.closed then err net_closed else ok (length p.clients)

-- The dial of an attempt comes back once, while the attempt is in flight.
pub is_inflight : ℕ → Option ℕ → Bool
is_inflight attempt none = false
is_inflight attempt (some k) = k == attempt

pub update_client : ℕ → (Client → Client) → List Client → List Client
update_client id f [] = []
update_client id f (c ∷ cs) = (if c.id == id then f c else c) ∷ update_client id f cs

pub mark_leaving : Client → Client
mark_leaving c = record c { leaving = c.is_open }

pub close_client : Client → Client
close_client c = if c.leaving then record c { is_open = false; leaving = false } else c

-- `discard`, up to the unlock.
discard : Option ℕ → ℕ → ClientPool → ClientPool
unfolding mark_leaving
discard none id p = p
discard (some current) id p =
    if current == id
    then record p { client = none; clients = update_client id mark_leaving p.clients }
    else p

-- `close`, up to the unlock.
close_pool : Option ℕ → ClientPool → ClientPool
unfolding mark_leaving
close_pool none p = record p { closed = true }
close_pool (some current) p = record p {
  client = none;
  closed = true;
  clients = update_client current mark_leaving p.clients;
}

pub data Event : Type 0 where
  get : Event
  dial_returns : ℕ → Option Error → Event
  discards closes_client : ℕ → Event
  close : Event

pub step : ClientPool → Event → ClientPool
unfolding enter dial_done is_inflight discard close_client close_pool
step p get = (enter p).0
step p (dial_returns attempt e) =
    if is_inflight attempt p.inflight then dial_done attempt e p else p
step p (discards id) = discard p.client id p
step p (closes_client id) = record p { clients = update_client id close_client p.clients }
step p close = close_pool p.client p

pub run : ClientPool → List Event → ClientPool
unfolding step publish update_client
run p [] = p
run p (e ∷ es) = run (step p e) es

-- What a caller that waits for the handshake receives, if its `done` channel is closed.
pub outcome_of : ℕ → List Handshake → Option (Result ℕ)
outcome_of attempt [] = none
outcome_of attempt (h ∷ hs) = if h.id == attempt then h.outcome else outcome_of attempt hs

-- A client with this number is open.
pub open_of : ℕ → List Client → Bool
open_of id [] = false
open_of id (c ∷ cs) = if c.id == id then c.is_open else open_of id cs
