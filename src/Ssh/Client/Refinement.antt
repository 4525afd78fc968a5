-- ===== src/Ssh/Client/Refinement.antt =====
-- internal/ssh/client.go: clientPool as an implementation of one session that its callers share.
use terraform_provider_tunne.Base.{
  ℕ, ◌≡◌, refl, inl, inr, false, Option, none, some, List, [], ◌∷◌, arith, if◌then◌else◌,
  Bool-cases, length, ◌==◌,
}
use terraform_provider_tunne.Errors.{Error, net_closed, ok, err}
use terraform_provider_tunne.Ssh.Client.{
  ClientPool, new_pool, Turn, returns, waits, dials, enter, dialled, dial_done, is_inflight,
  discard, Event, get, dial_returns, discards, closes_client, close, step, run,
}
use terraform_provider_tunne.Ssh.Client.Numbering.{in_flight}
use terraform_provider_tunne.Ssh.Client.Invariant.{PoolInv, new-PoolInv, step-PoolInv, run-PoolInv}

-- What a caller sees of the pool: no session, one that is being dialled for, one that is there, or a
-- pool that is shut for good.
pub data Session : Type 0 where
  no_session dialling shut : Session
  session : ℕ → Session

-- How the session may change.
pub data Changes (s t : Session) : Type 0 where
  stays : t ≡ s → Changes s t
  dialled_for : s ≡ no_session → t ≡ dialling → Changes s t
  connects : (id : ℕ) → s ≡ dialling → t ≡ session id → Changes s t
  fails : s ≡ dialling → t ≡ no_session → Changes s t
  drops : (id : ℕ) → s ≡ session id → t ≡ no_session → Changes s t
  shuts : t ≡ shut → Changes s t

-- What a caller of `get` is told.
abbrev pub Answered : Session → Turn → Type 0
Answered no_session turn = (attempt : ℕ) × (turn ≡ dials attempt)
Answered dialling turn = (attempt : ℕ) × (turn ≡ waits attempt)
Answered (session id) turn = turn ≡ returns (ok id)
Answered shut turn = turn ≡ returns (err net_closed)

abbrev of_flight : Option ℕ → Session
of_flight none = no_session
of_flight (some attempt) = dialling

abbrev of_client : Option ℕ → Option ℕ → Session
of_client none inflight = of_flight inflight
of_client (some id) inflight = session id

-- The session that a pool stands for.
abbrev pub session_of : ClientPool → Session
session_of p = if p.closed then shut else of_client p.client p.inflight

pub enter-Answered : (p : ClientPool) → Answered (session_of p) (enter p).1
unfolding enter
enter-Answered p = ground arith

dial_done-Changes :
    (attempt : ℕ) (e : Option Error) (p : ClientPool)
    → p.inflight ≡ some attempt
    → PoolInv p
    → Changes (session_of p) (session_of (dial_done attempt e p))
unfolding dial_done dialled
dial_done-Changes attempt (some x) p h v = ground arith
dial_done-Changes attempt none p h v = elim (Bool-cases p.closed) [
  | inl shut_down ↦ shuts (ground arith)
  | inr still_open ↦ connects (length p.clients) (ground arith) (ground arith)
]

discard-Changes :
    (o : Option ℕ) (id : ℕ) (p : ClientPool)
    → p.client ≡ o
    → PoolInv p
    → Changes (session_of p) (session_of (discard o id p))
unfolding discard
discard-Changes none id p e v = stays refl
discard-Changes (some c) id p e v = elim (Bool-cases (c == id)) [
  | inl same ↦
      let open_pool : p.closed ≡ false = ground (arith, v.current_ok) in
      let idle : p.inflight ≡ none = ground (arith, v.current_ok) in
      simp same (drops c (ground arith) (ground arith))
  | inr other ↦ simp other (stays refl)
]

pub step-Changes :
    (p : ClientPool) (e : Event) → PoolInv p → Changes (session_of p) (session_of (step p e))
unfolding step
step-Changes p get v = ground arith
step-Changes p (dial_returns attempt e) v = elim (Bool-cases (is_inflight attempt p.inflight)) [
  | inl now ↦ simp now (dial_done-Changes attempt e p (in_flight attempt p.inflight now) v)
  | inr late ↦ simp late (stays refl)
]
step-Changes p (discards id) v = discard-Changes p.client id p refl v
step-Changes p (closes_client id) v = stays refl
step-Changes p close v = ground arith

-- The changes of a session, one after the other.
pub data ChangeTo (s : Session) : Session → Type 0 where
  here : ChangeTo s s
  next : {t u : Session} → ChangeTo s t → Changes t u → ChangeTo s u

after : (s t u : Session) → Changes s t → ChangeTo t u → ChangeTo s u
after s t u c here = next here c
after s t u c (next r d) = next (after s t _ c r) d

run-ChangeTo :
    (p : ClientPool) (es : List Event) → PoolInv p → ChangeTo (session_of p) (session_of (run p es))
unfolding run
run-ChangeTo p [] v = here
run-ChangeTo p (e ∷ es) v =
    after (session_of p) (session_of (step p e)) (session_of (run (step p e) es))
      (step-Changes p e v) (run-ChangeTo (step p e) es (step-PoolInv p e v))

-- Refinement: whatever the order of its callers, dials, discards and closes, the pool goes through
-- the changes of one shared session, which is dialled for only when there is none, comes only from a
-- dial, and never comes back once the pool is shut; and `get` answers by that session alone: it hands
-- the session out, waits for the dial, dials, or reports net.ErrClosed.
pub run_refines :
    (es : List Event)
    → let p = run new_pool es in
      ChangeTo no_session (session_of p)
      × Answered (session_of p) (enter p).1
      × ((e : Event) → Changes (session_of p) (session_of (step p e)))
unfolding new_pool
run_refines es =
    let v = run-PoolInv new_pool es new-PoolInv in
    (
      run-ChangeTo new_pool es new-PoolInv,
      enter-Answered (run new_pool es),
      λ e. step-Changes (run new_pool es) e v,
    )
