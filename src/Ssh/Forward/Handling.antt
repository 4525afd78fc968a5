-- ===== src/Ssh/Forward/Handling.antt =====
-- internal/ssh/forward.go: handle, with internal/libs/relay.go.
use terraform_provider_tunne.Base.{
  zero, suc, ap, [], ◌∷◌, ℕ, ◌≡◌, refl, not, false, Option, none, some, List, arith, is_some,
}
use terraform_provider_tunne.Errors.{Error, Result, ok, err}
use terraform_provider_tunne.Libs.Relay.{Stream, relay, returned, run as run_relay, Event}
use terraform_provider_tunne.Libs.Relay.Closing.{relay_returned_closes}
use terraform_provider_tunne.Ssh.Forward.{
  Dial, connected, rejected, broken, Dialled, by_dial, by_client, dial_rounds, ClientSource,
  dial_target, Handled, given_up, relays, crashes, handled, handle,
}
use terraform_provider_tunne.Ssh.Forward.Retry.{dial_target_decides}

-- The same source with a log of the connections to the target that it has opened, newest first.
abbrev log_dial : Dial → List ℕ → List ℕ
log_dial (connected c) opened = c ∷ opened
log_dial (rejected e) opened = opened
log_dial (broken e) opened = opened

abbrev pub recorded : {S : Type 0} → ClientSource S → ClientSource (S × List ℕ)
recorded source = record {
  get = λ x. (((source.get x.0).0, x.1), (source.get x.0).1);
  discard_client = λ client x. (source.discard_client client x.0, x.1);
  dial = λ client x. let (s, d) = source.dial client x.0 in ((s, log_dial d x.1), d);
}

abbrev opened_of : Option ℕ → List ℕ
opened_of none = []
opened_of (some c) = c ∷ []

module _ {S : Type 0} (source : ClientSource S) where
  abbrev AllReturned : (S × List ℕ) × Dialled → Type 0
  AllReturned r = r.0.1 ≡ opened_of r.1.conn

  by_dial-opened :
      (again : Option Error → S × List ℕ → (S × List ℕ) × Dialled) (client : ℕ) (s : S)
      (before : List ℕ) (d : Dial)
      → before ≡ []
      → ((last : Option Error) (x : S × List ℕ) → x.1 ≡ [] → AllReturned (again last x))
      → AllReturned (by_dial (recorded source) again client (s, log_dial d before) d)
  unfolding by_dial
  by_dial-opened again client s before (connected c) e ih = ap (λ l. c ∷ l) e
  by_dial-opened again client s before (rejected x) e ih = e
  by_dial-opened again client s before (broken x) e ih = ih (some x) _ e

  by_client-opened :
      (again : Option Error → S × List ℕ → (S × List ℕ) × Dialled) (s : S) (before : List ℕ)
      (r : Result ℕ)
      → before ≡ []
      → ((last : Option Error) (x : S × List ℕ) → x.1 ≡ [] → AllReturned (again last x))
      → AllReturned (by_client (recorded source) again (s, before) r)
  unfolding by_client
  by_client-opened again s before (err x) e ih = e
  by_client-opened again s before (ok client) e ih =
      by_dial-opened again client (source.dial client s).0 before (source.dial client s).1 e ih

  -- Every connection to the target that dialTarget opens is the one that it returns.
  dial_rounds-opened :
      (n : ℕ) (last : Option Error) (x : S × List ℕ)
      → x.1 ≡ []
      → AllReturned (dial_rounds (recorded source) n last x)
  unfolding dial_rounds
  dial_rounds-opened zero last x e = e
  dial_rounds-opened (suc n) last x e =
      by_client-opened (dial_rounds (recorded source) n) (source.get x.0).0 x.1 (source.get x.0).1 e
        (λ l y k. dial_rounds-opened n l y k)

  dial_target-opened : (s : S) → AllReturned (dial_target (recorded source) (s, []))
  unfolding dial_target
  dial_target-opened s = dial_rounds-opened 2 none (s, []) refl

-- What has become of a connection that was handed to `handle`, where `opened` are the connections to the
-- target that were opened for it.
abbrev pub Fate : (ℕ → Stream) → Stream → List ℕ → Option ℕ → Option Error → Handled → Type 0
Fate stream_of local opened conn error (given_up e) = (error ≡ some e) × (opened ≡ [])
Fate stream_of local opened conn error (relays r) =
    (c : ℕ) × (opened ≡ c ∷ [])
    × (r ≡ relay local (stream_of c))
    × ((es : List Event)
        → (run_relay r es).main ≡ returned
        → ((run_relay r es).a.is_open ≡ false) × ((run_relay r es).b.is_open ≡ false))
Fate stream_of local opened conn error crashes = ⊥

handled-Fate :
    (stream_of : ℕ → Stream) (local : Stream) (opened : List ℕ) (conn : Option ℕ)
    (error : Option Error)
    → is_some conn ≡ not (is_some error)
    → opened ≡ opened_of conn
    → Fate stream_of local opened conn error (handled stream_of local conn error)
unfolding handled
handled-Fate stream_of local opened none none h o = ground arith
handled-Fate stream_of local opened none (some e) h o = (refl, o)
handled-Fate stream_of local opened (some c) none h o =
    (c, o, refl, λ es m. relay_returned_closes local (stream_of c) es m)
handled-Fate stream_of local opened (some c) (some e) h o = ground arith

-- Over any source of SSH clients, seen with a log of the connections that it opens to the target,
-- `handle` either gives the local connection up with the error of dialTarget, and then no connection to
-- the target was opened, or relays it to the one connection that was opened; then, whatever the copies do, both ends are closed once the relay has returned.
-- Relay is never given a nil connection.
pub handle-Fate :
    {S : Type 0} (source : ClientSource S) (stream_of : ℕ → Stream) (local : Stream) (s : S)
    → let d = (dial_target (recorded source) (s, [])).1 in
      let ((u, log), h) = handle (recorded source) stream_of local (s, []) in
      Fate stream_of local log d.conn d.error h
unfolding handle
handle-Fate source stream_of local s =
    handled-Fate stream_of local _ _ _ (dial_target_decides (recorded source) (s, []))
      (dial_target-opened source s)
