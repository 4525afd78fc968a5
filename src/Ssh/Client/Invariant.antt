-- ===== src/Ssh/Client/Invariant.antt =====
-- What holds of a clientPool between two events.
use terraform_provider_tunne.Ssh.Client.Numbering.{
  Numbered, HandshakesNumbered, FlightOk, CurrentOk, publish-numbered, flight_lands, Numbered-fresh,
  length-update_client, Numbered-leave, Numbered-close, in_flight, no_client, Numbered-none,
}
use terraform_provider_tunne.Base.{
  ℕ, ◌≡◌, refl, inl, inr, Option, none, some, List, [], ◌∷◌, length, arith, ◌==◌, Bool-cases,
}
use terraform_provider_tunne.Errors.{Error, net_closed, ok, err}
use terraform_provider_tunne.Ssh.Client.{
  ClientPool, new_pool, enter, dialled, dial_done, is_inflight, close_client, discard, close_pool,
  Event, get, dial_returns, discards, closes_client, close, step, run,
}

pub record PoolInv (p : ClientPool) : Type 0 where
  pub clients_ok : Numbered p.client p.clients
  pub handshakes_ok : HandshakesNumbered p.handshakes
  pub flight_ok : FlightOk p.inflight p.handshakes
  pub current_ok : CurrentOk p.client p

pub new-PoolInv : PoolInv new_pool
unfolding new_pool
new-PoolInv = ground arith

pub enter-PoolInv : (p : ClientPool) → PoolInv p → PoolInv (enter p).0
unfolding enter
enter-PoolInv p v = ground arith

dialled-PoolInv :
    (k : ℕ) (p : ClientPool)
    → p.inflight ≡ some k
    → PoolInv p
    → PoolInv (dialled k (length p.clients) p)
unfolding dialled
dialled-PoolInv k p e v =
    let idle = no_client p.client p e v.current_ok in
    let cs = Numbered-none p.client p.clients idle v.clients_ok in
    let flight : FlightOk (some k) p.handshakes = rw e at v.flight_ok in
    ground (
      arith,
      cs,
      Numbered-fresh p.clients (length p.clients) (omega arith) cs,
      flight_lands k (ok (length p.clients)) p.handshakes v.handshakes_ok flight,
      flight_lands k (err net_closed) p.handshakes v.handshakes_ok flight,
      publish-numbered k (ok (length p.clients)) p.handshakes v.handshakes_ok,
      publish-numbered k (err net_closed) p.handshakes v.handshakes_ok,
    )

dial_done-PoolInv :
    (k : ℕ) (x : Option Error) (p : ClientPool)
    → p.inflight ≡ some k
    → PoolInv p
    → PoolInv (dial_done k x p)
unfolding dial_done
dial_done-PoolInv k none p e v = dialled-PoolInv k p e v
dial_done-PoolInv k (some x) p e v =
    let idle = no_client p.client p e v.current_ok in
    let flight : FlightOk (some k) p.handshakes = rw e at v.flight_ok in
    record {
      clients_ok = v.clients_ok;
      handshakes_ok = publish-numbered k (err x) p.handshakes v.handshakes_ok;
      flight_ok = flight_lands k (err x) p.handshakes v.handshakes_ok flight;
      current_ok = rw idle tt;
    }

discard-PoolInv :
    (o : Option ℕ) (id : ℕ) (p : ClientPool) → p.client ≡ o → PoolInv p → PoolInv (discard o id p)
unfolding discard
discard-PoolInv none id p e v = v
discard-PoolInv (some c) id p e v = elim (Bool-cases (c == id)) [
  | inl same ↦
      let cs : Numbered (some id) p.clients = ground arith in
      simp same (record {
        clients_ok = Numbered-leave id p.clients cs;
        handshakes_ok = v.handshakes_ok;
        flight_ok = v.flight_ok;
        current_ok = tt;
      })
  | inr other ↦ simp other v
]

close_pool-PoolInv :
    (o : Option ℕ) (p : ClientPool) → p.client ≡ o → PoolInv p → PoolInv (close_pool o p)
unfolding close_pool
close_pool-PoolInv none p e v = record {
  clients_ok = v.clients_ok;
  handshakes_ok = v.handshakes_ok;
  flight_ok = v.flight_ok;
  current_ok = rw e tt;
}
close_pool-PoolInv (some c) p e v = record {
  clients_ok = Numbered-leave c p.clients (rw e at v.clients_ok);
  handshakes_ok = v.handshakes_ok;
  flight_ok = v.flight_ok;
  current_ok = tt;
}

CurrentOk-keep :
    (o : Option ℕ) (p q : ClientPool)
    → length q.clients ≡ length p.clients
    → q.closed ≡ p.closed
    → q.inflight ≡ p.inflight
    → CurrentOk o p
    → CurrentOk o q
CurrentOk-keep none p q l c i h = tt
CurrentOk-keep (some n) p q l c i h = ground arith

-- Every event, in every state, keeps the invariant.
pub step-PoolInv : (p : ClientPool) (e : Event) → PoolInv p → PoolInv (step p e)
unfolding step
step-PoolInv p get v = enter-PoolInv p v
step-PoolInv p (dial_returns k x) v = elim (Bool-cases (is_inflight k p.inflight)) [
  | inl now ↦ simp now (dial_done-PoolInv k x p (in_flight k p.inflight now) v)
  | inr late ↦ simp late v
]
step-PoolInv p (discards id) v = discard-PoolInv p.client id p refl v
step-PoolInv p (closes_client id) v = record {
  clients_ok = Numbered-close p.client id p.clients v.clients_ok;
  handshakes_ok = v.handshakes_ok;
  flight_ok = v.flight_ok;
  current_ok =
      CurrentOk-keep p.client p _ (length-update_client id close_client p.clients) refl refl
        v.current_ok;
}
step-PoolInv p close v = close_pool-PoolInv p.client p refl v

pub run-PoolInv : (p : ClientPool) (es : List Event) → PoolInv p → PoolInv (run p es)
unfolding run
run-PoolInv p [] v = v
run-PoolInv p (e ∷ es) v = run-PoolInv (step p e) es (step-PoolInv p e v)
