-- ===== src/Ssh/Client/Sharing.antt =====
-- internal/ssh/client.go: one handshake for all callers, one answer, and no connection left open.
use terraform_provider_tunne.Base.{
  ℕ, ◌≤◌, ◌<◌, ◌≡◌, ◌≢◌, refl, ◌∙◌, inl, inr, true, false, Option, none, some, List, [], ◌∷◌,
  length, arith, Bool-cases,
}
use terraform_provider_tunne.Errors.{err, Error, Result, ok}
use terraform_provider_tunne.Ssh.Client.{
  Client, Handshake, ClientPool, new_pool, returns, dials, enter, publish, dial_result, dial_done,
  is_inflight, Event, get, dial_returns, discards, closes_client, close, step, run, outcome_of,
  open_of,
}
use terraform_provider_tunne.Ssh.Client.Numbering.{
  pending, CurrentOk, Numbered, HandshakesNumbered, FlightOk, in_flight,
}
use terraform_provider_tunne.Ssh.Client.Invariant.{PoolInv, new-PoolInv, step-PoolInv, run-PoolInv}

flight_single : (o : Option ℕ) (hs : List Handshake) → FlightOk o hs → pending hs ≤ 1
flight_single none hs h = omega arith
flight_single (some k) [] h = elim h [ ]
flight_single (some k) (x ∷ hs) h = ground arith

-- However the callers, the dials, the discards and the close interleave, at most one handshake is
-- in flight at any time.
pub single_flight : (es : List Event) → pending (run new_pool es).handshakes ≤ 1
single_flight es =
    let v = run-PoolInv new_pool es new-PoolInv in
    flight_single _ (run new_pool es).handshakes v.flight_ok

open_current :
    (c : ℕ) (cs : List Client) → c < length cs → Numbered (some c) cs → open_of c cs ≡ true
unfolding open_of
open_current c [] h v = elim h [ ]
open_current c (x ∷ cs) h v = ground (arith, open_current c cs)

open_if :
    (o : Option ℕ) (p : ClientPool) (c : ℕ)
    → o ≡ some c
    → CurrentOk o p
    → Numbered o p.clients
    → open_of c p.clients ≡ true
open_if none p c e k v = cc
open_if (some d) p c e k v = ground (arith, open_current d p.clients)

entered : (p : ClientPool) (c : ℕ) → (enter p).1 ≡ returns (ok c) → p.client ≡ some c
unfolding enter
entered p c h = ground arith

entered_open : (p : ClientPool) (c : ℕ) → (enter p).1 ≡ returns (ok c) → p.closed ≡ false
unfolding enter
entered_open p c h = ground arith

-- A client that `get` hands out without dialling is, at that moment, one that the pool has not
-- closed, and the pool itself is not closed.
pub enter-open :
    (es : List Event) (c : ℕ)
    → (enter (run new_pool es)).1 ≡ returns (ok c)
    → (open_of c (run new_pool es).clients ≡ true) × ((run new_pool es).closed ≡ false)
enter-open es c h =
    let v = run-PoolInv new_pool es new-PoolInv in
    (
      open_if _ (run new_pool es) c (entered (run new_pool es) c h) v.current_ok v.clients_ok,
      entered_open (run new_pool es) c h,
    )

-- A number that is not given yet has no outcome.
outcome_above :
    (k : ℕ) (hs : List Handshake) → HandshakesNumbered hs → length hs ≤ k → outcome_of k hs ≡ none
unfolding outcome_of
outcome_above k [] n h = refl
outcome_above k (x ∷ hs) n h = ground (arith, outcome_above k hs n.1)

outcome-publish_ne :
    (k j : ℕ) (r : Result ℕ) (hs : List Handshake)
    → j ≢ k
    → outcome_of j (publish k r hs) ≡ outcome_of j hs
unfolding outcome_of publish
outcome-publish_ne k j r [] h = refl
outcome-publish_ne k j r (x ∷ hs) h = ground (arith, outcome-publish_ne k j r hs)

-- The handshake in flight has no outcome, and publishing gives it one.
outcome-flight :
    (k : ℕ) (hs : List Handshake)
    → HandshakesNumbered hs
    → FlightOk (some k) hs
    → outcome_of k hs ≡ none
unfolding outcome_of
outcome-flight k [] n f = elim f [ ]
outcome-flight k (x ∷ hs) n f = ground arith

outcome-publish_eq :
    (k : ℕ) (r : Result ℕ) (hs : List Handshake)
    → HandshakesNumbered hs
    → FlightOk (some k) hs
    → outcome_of k (publish k r hs) ≡ some r
unfolding outcome_of publish
outcome-publish_eq k r [] n f = elim f [ ]
outcome-publish_eq k r (x ∷ hs) n f = ground arith

handshakes-dial_done :
    (k : ℕ) (e : Option Error) (p : ClientPool)
    → (dial_done k e p).handshakes ≡ publish k (dial_result e p) p.handshakes
unfolding dial_done dial_result
handshakes-dial_done k none p = ground arith
handshakes-dial_done k (some e) p = refl

-- An outcome of a handshake is not that of another one in flight.
ne_flight :
    (k j : ℕ) {r : Result ℕ} (hs : List Handshake)
    → HandshakesNumbered hs
    → FlightOk (some k) hs
    → outcome_of j hs ≡ some r
    → j ≢ k
ne_flight k j hs n f o e = ground (arith, outcome-flight k hs n f)

enter_keeps :
    (j : ℕ) {r : Result ℕ} (p : ClientPool)
    → PoolInv p
    → outcome_of j p.handshakes ≡ some r
    → outcome_of j (enter p).0.handshakes ≡ some r
unfolding enter outcome_of
enter_keeps j p v o =
    ground (arith, outcome_above (length p.handshakes) p.handshakes v.handshakes_ok)

dial_keeps :
    (k j : ℕ) {r : Result ℕ} (e : Option Error) (p : ClientPool)
    → PoolInv p
    → p.inflight ≡ some k
    → outcome_of j p.handshakes ≡ some r
    → outcome_of j (dial_done k e p).handshakes ≡ some r
dial_keeps k j e p v i o =
    let f : FlightOk (some k) p.handshakes = rw i at v.flight_ok in
    rw (handshakes-dial_done k e p) (
      outcome-publish_ne k j (dial_result e p) p.handshakes
        (ne_flight k j p.handshakes v.handshakes_ok f o)
      ∙ o)

step_keeps :
    (j : ℕ) {r : Result ℕ} (p : ClientPool) (e : Event)
    → PoolInv p
    → outcome_of j p.handshakes ≡ some r
    → outcome_of j (step p e).handshakes ≡ some r
unfolding step
step_keeps j p get v o = enter_keeps j p v o
step_keeps j p (dial_returns k e) v o = elim (Bool-cases (is_inflight k p.inflight)) [
  | inl now ↦ simp now (dial_keeps k j e p v (in_flight k p.inflight now) o)
  | inr late ↦ simp late o
]
step_keeps j p (discards id) v o = ground arith
step_keeps j p (closes_client id) v o = o
step_keeps j p close v o = ground arith

run_keeps :
    (j : ℕ) {r : Result ℕ} (p : ClientPool) (es : List Event)
    → PoolInv p
    → outcome_of j p.handshakes ≡ some r
    → outcome_of j (run p es).handshakes ≡ some r
unfolding run
run_keeps j p [] v o = o
run_keeps j p (e ∷ es) v o = run_keeps j (step p e) es (step-PoolInv p e v) (step_keeps j p e v o)

flight_is : (k : ℕ) (o : Option ℕ) → o ≡ some k → is_inflight k o ≡ true
unfolding is_inflight
flight_is k none h = cc
flight_is k (some j) h = ground arith

dial_returns-outcome :
    (p : ClientPool) (k : ℕ) (e : Option Error)
    → PoolInv p
    → p.inflight ≡ some k
    → outcome_of k (step p (dial_returns k e)).handshakes ≡ some (dial_result e p)
unfolding step
dial_returns-outcome p k e v i =
    let f : FlightOk (some k) p.handshakes = rw i at v.flight_ok in
    simp (flight_is k p.inflight i) (
      rw (handshakes-dial_done k e p)
        (outcome-publish_eq k (dial_result e p) p.handshakes v.handshakes_ok f))

-- When the dial of the handshake in flight comes back, every caller that waits for that handshake
-- receives what the dialling caller returns, however late it looks.
pub waiters_share :
    (es fs : List Event) (k : ℕ) (e : Option Error)
    → (run new_pool es).inflight ≡ some k
    → outcome_of k (run (step (run new_pool es) (dial_returns k e)) fs).handshakes
      ≡ some (dial_result e (run new_pool es))
waiters_share es fs k e i =
    let v = run-PoolInv new_pool es new-PoolInv in
    run_keeps k _ fs (step-PoolInv _ (dial_returns k e) v)
      (dial_returns-outcome (run new_pool es) k e v i)

pub entered_client :
    (p : ClientPool) (c : ℕ) → (enter p).1 ≡ returns (ok c) → (step p get).client ≡ some c
unfolding step enter
entered_client p c h = ground arith

pub dialled_client :
    (p : ClientPool) (k c : ℕ)
    → (enter p).1 ≡ dials k
    → dial_result none (step p get) ≡ ok c
    → (step (step p get) (dial_returns k none)).client ≡ some c
unfolding step enter dial_result
dialled_client p k c e h = ground arith

pub dial_result-some : (x : Error) (p : ClientPool) → dial_result (some x) p ≡ err x
unfolding dial_result
dial_result-some x p = refl
