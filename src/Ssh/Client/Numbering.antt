-- ===== src/Ssh/Client/Numbering.antt =====
-- The numbers of clients and handshakes, and what the operations on both lists keep of them.
use terraform_provider_tunne.Base.{
  ℕ, ◌+◌, ◌≤◌, ◌<◌, ◌≡◌, refl, Bool, true, false, Option, none, some, List, [], ◌∷◌, length, arith,
  ◌==◌, if◌then◌else◌,
}
use terraform_provider_tunne.Errors.{Result}
use terraform_provider_tunne.Ssh.Client.{
  Client, Handshake, ClientPool, publish, is_inflight, update_client, mark_leaving, close_client,
}

abbrev is_current : Option ℕ → ℕ → Bool
is_current none id = false
is_current (some c) id = c == id

-- The current client is open and stays; of the others those are open whose Close is still to come.
abbrev ClientOk : Option ℕ → Client → Type 0
ClientOk cur c =
    if is_current cur c.id
    then (c.is_open ≡ true) × (c.leaving ≡ false)
    else (c.is_open ≡ c.leaving)

-- The clients are numbered downwards.
abbrev pub Numbered : Option ℕ → List Client → Type 0
Numbered cur [] = Unit
Numbered cur (c ∷ cs) = (c.id ≡ length cs) × ClientOk cur c × Numbered cur cs

abbrev undecided : Option (Result ℕ) → ℕ
undecided none = 1
undecided (some r) = 0

-- How many handshakes have not ended.
abbrev pub pending : List Handshake → ℕ
pending [] = 0
pending (h ∷ hs) = undecided h.outcome + pending hs

abbrev pub HandshakesNumbered : List Handshake → Type 0
HandshakesNumbered [] = Unit
HandshakesNumbered (h ∷ hs) = (h.id ≡ length hs) × HandshakesNumbered hs

-- The newest handshake is the only one that may be in flight.
abbrev pub FlightOk : Option ℕ → List Handshake → Type 0
FlightOk none hs = pending hs ≡ 0
FlightOk (some k) [] = ⊥
FlightOk (some k) (h ∷ hs) = (k ≡ length hs) × (h.outcome ≡ none) × (pending hs ≡ 0)

-- A current client exists and was not closed by the pool, and excludes a handshake in flight.
abbrev pub CurrentOk : Option ℕ → ClientPool → Type 0
CurrentOk none p = Unit
CurrentOk (some c) p = (c < length p.clients) × (p.closed ≡ false) × (p.inflight ≡ none)

pub length-publish :
    (k : ℕ) (r : Result ℕ) (hs : List Handshake) → length (publish k r hs) ≡ length hs
unfolding publish
length-publish k r [] = refl
length-publish k r (h ∷ hs) = omega (arith, length-publish k r hs)

pub publish-numbered :
    (k : ℕ) (r : Result ℕ) (hs : List Handshake)
    → HandshakesNumbered hs
    → HandshakesNumbered (publish k r hs)
unfolding publish
publish-numbered k r [] h = tt
publish-numbered k r (x ∷ hs) h =
    (ground (arith, length-publish k r hs), publish-numbered k r hs h.1)

-- Publishing decides the handshake in flight, and undoes no decision.
pending-publish :
    (k : ℕ) (r : Result ℕ) (hs : List Handshake) → pending hs ≡ 0 → pending (publish k r hs) ≡ 0
unfolding publish
pending-publish k r [] h = refl
pending-publish k r (x ∷ hs) h = ground (arith, pending-publish k r hs)

pub flight_lands :
    (k : ℕ) (r : Result ℕ) (hs : List Handshake)
    → HandshakesNumbered hs
    → FlightOk (some k) hs
    → pending (publish k r hs) ≡ 0
unfolding publish
flight_lands k r [] n h = elim h [ ]
flight_lands k r (x ∷ hs) n h = ground (arith, pending-publish k r hs)

-- A new number is not the current one, and is current of none.
pub Numbered-fresh :
    (cs : List Client) (n : ℕ) → length cs ≤ n → Numbered none cs → Numbered (some n) cs
Numbered-fresh [] n h v = tt
Numbered-fresh (c ∷ cs) n h v = (v.0, ground arith, Numbered-fresh cs n (omega arith) v.2)

pub length-update_client :
    (id : ℕ) (f : Client → Client) (cs : List Client) → length (update_client id f cs) ≡ length cs
unfolding update_client
length-update_client id f [] = refl
length-update_client id f (c ∷ cs) = omega (arith, length-update_client id f cs)

-- The current client is given up.
pub Numbered-leave :
    (id : ℕ) (cs : List Client)
    → Numbered (some id) cs
    → Numbered none (update_client id mark_leaving cs)
unfolding update_client mark_leaving
Numbered-leave id [] v = tt
Numbered-leave id (c ∷ cs) v = (
  ground (arith, length-update_client id mark_leaving cs),
  ground arith,
  Numbered-leave id cs v.2,
)

pub Numbered-close :
    (cur : Option ℕ) (id : ℕ) (cs : List Client)
    → Numbered cur cs
    → Numbered cur (update_client id close_client cs)
unfolding update_client close_client
Numbered-close cur id [] v = tt
Numbered-close cur id (c ∷ cs) v = (
  ground (arith, length-update_client id close_client cs),
  ground arith,
  Numbered-close cur id cs v.2,
)

pub in_flight : (k : ℕ) (o : Option ℕ) → is_inflight k o ≡ true → o ≡ some k
unfolding is_inflight
in_flight k none h = cc
in_flight k (some j) h = ground arith

pub no_client :
    (o : Option ℕ) (p : ClientPool) {k : ℕ} → p.inflight ≡ some k → CurrentOk o p → o ≡ none
no_client none p e h = refl
no_client (some c) p e h = cc

pub Numbered-none : (o : Option ℕ) (cs : List Client) → o ≡ none → Numbered o cs → Numbered none cs
Numbered-none none cs e v = v
Numbered-none (some c) cs e v = cc
