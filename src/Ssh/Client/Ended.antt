-- ===== src/Ssh/Client/Ended.antt =====
-- internal/ssh/client.go: a client whose connection has ended is not handed out again.
use terraform_provider_tunne.Base.{
  ℕ, ◌<◌, ◌≡◌, ◌≢◌, refl, inl, inr, true, false, Option, none, some, List, [], ◌∷◌, length, arith,
  Bool-cases,
}
use terraform_provider_tunne.Errors.{Error, ok}
use terraform_provider_tunne.Ssh.Client.{
  Client, ClientPool, new_pool, returns, enter, dialled, dial_done, is_inflight, update_client,
  mark_leaving, close_client, discard, close_pool, Event, get, dial_returns, discards,
  closes_client, close, step, run, open_of,
}
use terraform_provider_tunne.Ssh.Client.Numbering.{Numbered, length-update_client}
use terraform_provider_tunne.Ssh.Client.Invariant.{PoolInv, new-PoolInv, step-PoolInv, run-PoolInv}

-- The client was dialled, and is not the pool's current one.
abbrev IsGone : ℕ → ClientPool → Type 0
IsGone id p = (p.client ≢ some id) × (id < length p.clients)

dial_done-IsGone :
    (id attempt : ℕ) (e : Option Error) (p : ClientPool)
    → IsGone id p
    → IsGone id (dial_done attempt e p)
unfolding dial_done dialled
dial_done-IsGone id attempt none p h = ground arith
dial_done-IsGone id attempt (some e) p h = ground arith

discard-IsGone :
    (o : Option ℕ) (id k : ℕ) (p : ClientPool) → IsGone id p → IsGone id (discard o k p)
unfolding discard
discard-IsGone none id k p h = h
discard-IsGone (some c) id k p h = ground (arith, length-update_client k mark_leaving p.clients)

close_pool-IsGone :
    (o : Option ℕ) (id : ℕ) (p : ClientPool) → IsGone id p → IsGone id (close_pool o p)
unfolding close_pool
close_pool-IsGone none id p h = h
close_pool-IsGone (some c) id p h =
    (λ e. cc, omega (arith, length-update_client c mark_leaving p.clients))

enter-IsGone : (id : ℕ) (p : ClientPool) → IsGone id p → IsGone id (enter p).0
unfolding enter
enter-IsGone id p h = ground arith

step-IsGone : (id : ℕ) (p : ClientPool) (e : Event) → IsGone id p → IsGone id (step p e)
unfolding step
step-IsGone id p get h = enter-IsGone id p h
step-IsGone id p (dial_returns k x) h = elim (Bool-cases (is_inflight k p.inflight)) [
  | inl now ↦ simp now (dial_done-IsGone id k x p h)
  | inr late ↦ simp late h
]
step-IsGone id p (discards k) h = discard-IsGone p.client id k p h
step-IsGone id p (closes_client k) h =
    (h.0, omega (arith, length-update_client k close_client p.clients))
step-IsGone id p close h = close_pool-IsGone p.client id p h

run-IsGone : (id : ℕ) (p : ClientPool) (es : List Event) → IsGone id p → IsGone id (run p es)
unfolding run
run-IsGone id p [] h = h
run-IsGone id p (e ∷ es) h = run-IsGone id (step p e) es (step-IsGone id p e h)

discards-IsGone :
    (o : Option ℕ) (id : ℕ) (p : ClientPool)
    → p.client ≡ o
    → id < length p.clients
    → IsGone id (discard o id p)
unfolding discard
discards-IsGone none id p e h = (λ f. cc, h)
discards-IsGone (some c) id p e h = ground (arith, length-update_client id mark_leaving p.clients)

-- The `Close` of a client that is not current closes it.
close-shuts :
    (cur : Option ℕ) (id : ℕ) (cs : List Client)
    → cur ≢ some id
    → Numbered cur cs
    → open_of id (update_client id close_client cs) ≡ false
unfolding update_client close_client open_of
close-shuts cur id [] n v = refl
close-shuts none id (c ∷ cs) n v = ground (arith, close-shuts none id cs n v.2)
close-shuts (some k) id (c ∷ cs) n v = ground (arith, close-shuts (some k) id cs n v.2)

-- An update that opens no client.
open_of-update :
    (id k : ℕ) (f : Client → Client)
    → ((c : Client) → ((f c).id ≡ c.id) × ((f c).is_open ≡ true → c.is_open ≡ true))
    → (cs : List Client) → open_of id cs ≡ false
    → open_of id (update_client k f cs) ≡ false
unfolding update_client open_of
open_of-update id k f g [] h = refl
open_of-update id k f g (c ∷ cs) h = ground (arith, g c, open_of-update id k f g cs)

abbrev IsShut : ℕ → ClientPool → Type 0
IsShut id p = (open_of id p.clients ≡ false) × (id < length p.clients)

mark_leaving_keeps :
    (c : Client)
    → ((mark_leaving c).id ≡ c.id) × ((mark_leaving c).is_open ≡ true → c.is_open ≡ true)
unfolding mark_leaving
mark_leaving_keeps c = (refl, λ e. e)

close_client_keeps :
    (c : Client)
    → ((close_client c).id ≡ c.id) × ((close_client c).is_open ≡ true → c.is_open ≡ true)
unfolding close_client
close_client_keeps c = ground arith

dial_done-IsShut :
    (id attempt : ℕ) (e : Option Error) (p : ClientPool)
    → IsShut id p
    → IsShut id (dial_done attempt e p)
unfolding dial_done dialled open_of
dial_done-IsShut id attempt none p h = ground arith
dial_done-IsShut id attempt (some e) p h = h

update-IsShut :
    (id k : ℕ) (f : Client → Client)
    → ((c : Client) → ((f c).id ≡ c.id) × ((f c).is_open ≡ true → c.is_open ≡ true))
    → (cs : List Client) → (open_of id cs ≡ false) × (id < length cs)
    → (open_of id (update_client k f cs) ≡ false) × (id < length (update_client k f cs))
update-IsShut id k f g cs h =
    (open_of-update id k f g cs h.0, omega (arith, length-update_client k f cs))

discard-IsShut :
    (o : Option ℕ) (id k : ℕ) (p : ClientPool) → IsShut id p → IsShut id (discard o k p)
unfolding discard
discard-IsShut none id k p h = h
discard-IsShut (some c) id k p h =
    ground (arith, update-IsShut id k mark_leaving mark_leaving_keeps p.clients h)

close_pool-IsShut :
    (o : Option ℕ) (id : ℕ) (p : ClientPool) → IsShut id p → IsShut id (close_pool o p)
unfolding close_pool
close_pool-IsShut none id p h = h
close_pool-IsShut (some c) id p h = update-IsShut id c mark_leaving mark_leaving_keeps p.clients h

enter-IsShut : (id : ℕ) (p : ClientPool) → IsShut id p → IsShut id (enter p).0
unfolding enter
enter-IsShut id p h = ground arith

step-IsShut : (id : ℕ) (p : ClientPool) (e : Event) → IsShut id p → IsShut id (step p e)
unfolding step
step-IsShut id p get h = enter-IsShut id p h
step-IsShut id p (dial_returns k x) h = elim (Bool-cases (is_inflight k p.inflight)) [
  | inl now ↦ simp now (dial_done-IsShut id k x p h)
  | inr late ↦ simp late h
]
step-IsShut id p (discards k) h = discard-IsShut p.client id k p h
step-IsShut id p (closes_client k) h =
    update-IsShut id k close_client close_client_keeps p.clients h
step-IsShut id p close h = close_pool-IsShut p.client id p h

run-IsShut : (id : ℕ) (p : ClientPool) (es : List Event) → IsShut id p → IsShut id (run p es)
unfolding run
run-IsShut id p [] h = h
run-IsShut id p (e ∷ es) h = run-IsShut id (step p e) es (step-IsShut id p e h)

gone_enter : (id : ℕ) (p : ClientPool) → p.client ≢ some id → (enter p).1 ≢ returns (ok id)
unfolding enter
gone_enter id p n e = ground arith

step-discards : (id : ℕ) (p : ClientPool) → id < length p.clients → IsGone id (step p (discards id))
unfolding step
step-discards id p h = discards-IsGone p.client id p refl h

step-closes :
    (id : ℕ) (p : ClientPool) → PoolInv p → IsGone id p → IsShut id (step p (closes_client id))
unfolding step
step-closes id p v h = (
  close-shuts p.client id p.clients h.0 v.clients_ok,
  omega (arith, length-update_client id close_client p.clients),
)

-- A client whose connection has ended is discarded for good: from `discard` on no caller of `get` is
-- given that client again, and from the `Close` of `discard` on it is closed, whatever other events
-- come before, between and after the two.
pub ended_gone :
    (es fs gs : List Event) (id : ℕ)
    → id < length (run new_pool es).clients
    → let p = run (step (run new_pool es) (discards id)) fs in
      let q = run (step p (closes_client id)) gs in
      ((enter p).1 ≢ returns (ok id))
      × ((enter q).1 ≢ returns (ok id))
      × (open_of id q.clients ≡ false)
ended_gone es fs gs id h =
    let s = run new_pool es in
    let p = run (step s (discards id)) fs in
    let v = run-PoolInv _ fs (step-PoolInv s (discards id) (run-PoolInv new_pool es new-PoolInv)) in
    let gone = run-IsGone id _ fs (step-discards id s h) in
    let still = run-IsGone id _ gs (step-IsGone id p (closes_client id) gone) in
    let is_shut = run-IsShut id _ gs (step-closes id p v gone) in
    (gone_enter id p gone.0, gone_enter id _ still.0, is_shut.0)
