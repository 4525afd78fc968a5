-- ===== src/Libs/Relay/Closing.antt =====
-- internal/libs/relay.go: what is closed, and when.
use terraform_provider_tunne.Base.{
  ℕ, ◌<◌, ◌≡◌, ◌≢◌, refl, ◌⊎◌, inr, Bool, true, false, List, [], ◌∷◌, ◌++◌, ◌∙◌, ap, arith,
}
use terraform_provider_tunne.Libs.Relay.{
  Stream, Main, copying, draining, forced, returned, Relay, relay_drain, relay, Event, copied_to_a,
  copied_to_b, timer, ends, step, run,
}

-- At the end both streams are closed and the other copy has ended.
abbrev EndOk : Main → Relay → Type 0
EndOk returned r = (r.a.is_open ≡ false) × (r.b.is_open ≡ false) × (r.other_done ≡ true)
EndOk _ r = Unit

step-EndOk : (r : Relay) (e : Event) → EndOk r.main r → EndOk (step r e).main (step r e)
unfolding step
step-EndOk r e h = ground arith

run-EndOk : (r : Relay) (es : List Event) → EndOk r.main r → EndOk (run r es).main (run r es)
unfolding run
run-EndOk r [] h = h
run-EndOk r (e ∷ es) h = run-EndOk (step r e) es (step-EndOk r e h)

ended :
    (r : Relay)
    → r.main ≡ returned
    → EndOk r.main r
    → (r.a.is_open ≡ false) × (r.b.is_open ≡ false) × (r.other_done ≡ true)
ended r m h = ground arith

-- When RelayDrain returns, after whatever copies, errors and timers, both streams are closed and
-- the goroutine of the other direction has ended.
pub returned_closes :
    (a b : Stream) (grace : ℕ) (es : List Event)
    → let r = run (relay_drain a b grace) es in
      r.main ≡ returned → (r.a.is_open ≡ false) × (r.b.is_open ≡ false) × (r.other_done ≡ true)
unfolding relay_drain
returned_closes a b grace es m = ended _ m (run-EndOk (relay_drain a b grace) es tt)

pub relay_returned_closes :
    (a b : Stream) (es : List Event)
    → let r = run (relay a b) es in
      r.main ≡ returned → (r.a.is_open ≡ false) × (r.b.is_open ≡ false)
unfolding relay
relay_returned_closes a b es m = let (x, y, z) = returned_closes a b 0 es m in (x, y)

-- No copy has failed and no timer has fired.
abbrev pub IsGentle : List Event → Type 0
IsGentle [] = Unit
IsGentle (copied_to_a e ∷ es) = (e ≡ false) × IsGentle es
IsGentle (copied_to_b e ∷ es) = (e ≡ false) × IsGentle es
IsGentle (timer ∷ es) = ⊥
IsGentle (ends ∷ es) = IsGentle es

abbrev OpenOk : Main → Relay → Type 0
OpenOk returned r = Unit
OpenOk copying r =
    (r.a.is_open ≡ true)
    × (r.b.is_open ≡ true)
    × (r.a.half_closes ≡ true)
    × (r.b.half_closes ≡ true)
    × (r.a.write_open ≡ true)
    × ((r.other_done ≡ true) ⊎ (r.b.write_open ≡ true))
OpenOk _ r =
    (r.a.is_open ≡ true)
    × (r.b.is_open ≡ true)
    × (r.a.half_closes ≡ true)
    × (r.b.half_closes ≡ true)
    × (r.a.write_open ≡ false)
    × ((r.other_done ≡ true) ⊎ (r.b.write_open ≡ true))

step-OpenOk :
    (r : Relay) (e : Event)
    → IsGentle (e ∷ [])
    → OpenOk r.main r
    → OpenOk (step r e).main (step r e)
unfolding step
step-OpenOk r (copied_to_a e) g h = ground arith
step-OpenOk r (copied_to_b e) g h = ground arith
step-OpenOk r timer g h = elim g [ ]
step-OpenOk r ends g h = ground arith

head-IsGentle : (e : Event) (es : List Event) → IsGentle (e ∷ es) → IsGentle (e ∷ []) × IsGentle es
head-IsGentle (copied_to_a e) es g = ((g.0, tt), g.1)
head-IsGentle (copied_to_b e) es g = ((g.0, tt), g.1)
head-IsGentle timer es g = elim g [ ]
head-IsGentle ends es g = (tt, g)

run-OpenOk :
    (r : Relay) (es : List Event)
    → IsGentle es
    → OpenOk r.main r
    → OpenOk (run r es).main (run r es)
unfolding run
run-OpenOk r [] g h = h
run-OpenOk r (e ∷ es) g h =
    let (one, rest) = head-IsGentle e es g in run-OpenOk (step r e) es rest (step-OpenOk r e one h)

abbrev pub fresh : Stream
fresh = record { is_open = true; write_open = true; half_closes = true }

still_open :
    (r : Relay)
    → r.main ≢ returned
    → OpenOk r.main r
    → (r.a.is_open ≡ true)
      × (r.b.is_open ≡ true)
      × ((r.other_done ≡ true) ⊎ (r.b.write_open ≡ true))
      × ((r.main ≡ copying) ⊎ (r.a.write_open ≡ false))
still_open r m h = ground arith

-- Half-close: between streams that support it, as long as no copy fails, no timer fires and the
-- relay has not returned, both streams stay open; `b` still takes what the other copy brings until
-- that copy ends, and `a` has got its EOF once the copy to it is over.
pub half_close_open :
    (grace : ℕ) (es : List Event)
    → IsGentle es
    → let r = run (relay_drain fresh fresh grace) es in
      r.main ≢ returned
      → (r.a.is_open ≡ true)
        × (r.b.is_open ≡ true)
        × ((r.other_done ≡ true) ⊎ (r.b.write_open ≡ true))
        × ((r.main ≡ copying) ⊎ (r.a.write_open ≡ false))
unfolding relay_drain
half_close_open grace es g m =
    still_open _ m
      (run-OpenOk (relay_drain fresh fresh grace) es g (refl, refl, refl, refl, refl, inr refl))

NotForced : Relay → Type 0
NotForced r = (r.grace ≡ 0) × (r.main ≢ forced)

step-NotForced : (r : Relay) (e : Event) → NotForced r → NotForced (step r e)
unfolding step NotForced
step-NotForced r e h = ground arith

run-NotForced : (r : Relay) (es : List Event) → NotForced r → NotForced (run r es)
unfolding run
run-NotForced r [] h = h
run-NotForced r (e ∷ es) h = run-NotForced (step r e) es (step-NotForced r e h)

-- A zero grace period waits indefinitely: the timer never closes a stream of Relay.
pub relay-ne-forced : (a b : Stream) (es : List Event) → (run (relay a b) es).main ≢ forced
unfolding relay NotForced
relay-ne-forced a b es = (run-NotForced (relay a b) es (refl, λ e. cc)).1

-- With a grace period the wait for `a` is bounded: once `b` is at EOF and the timer fires, the
-- relay returns as soon as the copy from the closed `a` has ended, with or without an error.
pub drain_bounded :
    (r : Relay) (e : Bool)
    → r.main ≡ draining
    → 0 < r.grace
    → (run r (timer ∷ copied_to_b e ∷ ends ∷ [])).main ≡ returned
unfolding run
drain_bounded r e m g = ground arith

step-grace : (r : Relay) (e : Event) → (step r e).grace ≡ r.grace
unfolding step
step-grace r e = ground arith

run-grace : (r : Relay) (es : List Event) → (run r es).grace ≡ r.grace
unfolding run
run-grace r [] = refl
run-grace r (e ∷ es) = run-grace (step r e) es ∙ step-grace r e

run-++ : (r : Relay) (es fs : List Event) → run r (es ++ fs) ≡ run (run r es) fs
unfolding run
run-++ r [] fs = refl
run-++ r (e ∷ es) fs = run-++ (step r e) es fs

-- The same after any events that leave the relay waiting for the other copy.
pub drain_returns :
    (a b : Stream) (grace : ℕ) (es : List Event) (e : Bool)
    → 0 < grace
    → (run (relay_drain a b grace) es).main ≡ draining
    → (run (relay_drain a b grace) (es ++ timer ∷ copied_to_b e ∷ ends ∷ [])).main ≡ returned
unfolding relay_drain
drain_returns a b grace es e g m =
    let r = relay_drain a b grace in
    ap (λ x. x.main) (run-++ r es (timer ∷ copied_to_b e ∷ ends ∷ []))
    ∙ drain_bounded (run r es) e m (omega (arith, run-grace r es))

-- A stream that has no half-close is closed with the copy to it.
pub no_half_close :
    (a b : Stream) (grace : ℕ) (e : Bool)
    → b.half_closes ≡ false
    → (run (relay_drain a b grace) (copied_to_b e ∷ [])).b.is_open ≡ false
unfolding run relay_drain
no_half_close a b grace e h = ground arith

pub relay_drain-a : (a b : Stream) (grace : ℕ) → (relay_drain a b grace).a ≡ a
unfolding relay_drain
relay_drain-a a b grace = refl
