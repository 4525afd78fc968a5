-- ===== src/Ssh/Client/Leaks.antt =====
-- internal/ssh/client.go: after `close` nothing is left open.
use terraform_provider_tunne.Base.{
  ℕ, zero, suc, ◌<◌, ◌≡◌, refl, ◌⊎◌, inl, true, false, Option, none, some, List, [], ◌∷◌, length,
  arith, All,
}
use terraform_provider_tunne.Errors.{net_closed, err}
use terraform_provider_tunne.Ssh.Client.{
  Client, ClientPool, new_pool, returns, enter, update_client, close_client, Event, get,
  dial_returns, discards, closes_client, close, step, run,
}
use terraform_provider_tunne.Ssh.Client.Numbering.{CurrentOk, Numbered}
use terraform_provider_tunne.Ssh.Client.Invariant.{PoolInv, new-PoolInv, step-PoolInv, run-PoolInv}

step-closed : (p : ClientPool) (e : Event) → p.closed ≡ true → (step p e).closed ≡ true
unfolding step
step-closed p get h = ground arith
step-closed p (dial_returns k e) h = ground arith
step-closed p (discards id) h = ground arith
step-closed p (closes_client id) h = h
step-closed p close h = ground arith

run-closed : (p : ClientPool) (es : List Event) → p.closed ≡ true → (run p es).closed ≡ true
unfolding run
run-closed p [] h = h
run-closed p (e ∷ es) h = run-closed (step p e) es (step-closed p e h)

close-closed : (p : ClientPool) → (step p close).closed ≡ true
unfolding step
close-closed p = ground arith

closed_no_client : (o : Option ℕ) (p : ClientPool) → p.closed ≡ true → CurrentOk o p → o ≡ none
closed_no_client none p h k = refl
closed_no_client (some c) p h k = cc

-- Nothing but the pending `Close` of a client that was given up is still to be done.
abbrev pub IsReleasing : Client → Type 0
IsReleasing c = c.is_open ≡ c.leaving

Numbered-IsReleasing :
    (o : Option ℕ) (cs : List Client) → o ≡ none → Numbered o cs → All IsReleasing cs
Numbered-IsReleasing none [] e v = tt
Numbered-IsReleasing none (c ∷ cs) e v = (v.1, Numbered-IsReleasing none cs refl v.2)
Numbered-IsReleasing (some n) cs e v = cc

closed_enter : (p : ClientPool) → p.closed ≡ true → enter p ≡ (p, returns (err net_closed))
unfolding enter
closed_enter p h = ground arith

-- The `Close` calls of the clients below a number.
abbrev pub close_all : ℕ → List Event
close_all zero = []
close_all (suc n) = closes_client n ∷ close_all n

-- A client below the number may still be open; one above it is closed.
abbrev Unclosed : ℕ → Client → Type 0
Unclosed n c = (c.is_open ≡ c.leaving) × ((c.id < n) ⊎ (c.is_open ≡ false))

close_one :
    (n : ℕ) (cs : List Client)
    → All (Unclosed (suc n)) cs
    → All (Unclosed n) (update_client n close_client cs)
unfolding update_client close_client
close_one n [] h = tt
close_one n (c ∷ cs) h = ((ground arith, ground arith), close_one n cs h.1)

close_rest :
    (n : ℕ) (p : ClientPool)
    → All (Unclosed n) p.clients
    → All (Unclosed 0) (run p (close_all n)).clients
unfolding run step
close_rest zero p h = h
close_rest (suc n) p h = close_rest n (step p (closes_client n)) (close_one n p.clients h)

All-Unclosed :
    (cs : List Client) (n : ℕ) → length cs < suc n → Numbered none cs → All (Unclosed n) cs
All-Unclosed [] n h v = tt
All-Unclosed (c ∷ cs) n h v = ((v.1, inl (omega (arith, v.0))), All-Unclosed cs n (omega arith) v.2)

abbrev pub IsClosed : Client → Type 0
IsClosed c = c.is_open ≡ false

All-IsClosed : (cs : List Client) → All (Unclosed 0) cs → All IsClosed cs
All-IsClosed [] h = tt
All-IsClosed (c ∷ cs) h = (ground arith, All-IsClosed cs h.1)

Numbered-none : (o : Option ℕ) (cs : List Client) → o ≡ none → Numbered o cs → Numbered none cs
Numbered-none none cs e v = v
Numbered-none (some c) cs e v = cc

closed_releases :
    (p : ClientPool)
    → PoolInv p
    → p.closed ≡ true
    → All IsReleasing p.clients × All IsClosed (run p (close_all (length p.clients))).clients
closed_releases p v c =
    let idle = closed_no_client p.client p c v.current_ok in
    let cs = Numbered-none p.client p.clients idle v.clients_ok in
    (
      Numbered-IsReleasing none p.clients refl cs,
      All-IsClosed _ (close_rest _ p (All-Unclosed p.clients _ (omega arith) cs)),
    )

-- After `close`, whatever happened before and goes on after it, dials in flight included, `get`
-- answers net.ErrClosed, the only clients still open are those whose `Close` is pending, and once
-- these calls are made every client that was ever dialled is closed.
pub close_releases :
    (es fs : List Event)
    → let p = run (step (run new_pool es) close) fs in
      (enter p ≡ (p, returns (err net_closed)))
      × All IsReleasing p.clients
      × All IsClosed (run p (close_all (length p.clients))).clients
close_releases es fs =
    let p = run (step (run new_pool es) close) fs in
    let c = run-closed _ fs (close-closed (run new_pool es)) in
    let v = run-PoolInv _ fs (step-PoolInv _ close (run-PoolInv new_pool es new-PoolInv)) in
    let r = closed_releases p v c in (closed_enter p c, r.0, r.1)
