-- ===== src/Libs/Relay/Traffic/Conservation.antt =====
-- internal/libs/relay.go: a relay whose copies do not fail loses none of the bytes it carries.
use terraform_provider_tunne.Base.{
  suc, ◌≤◌, ◌≡◌, refl, ◌∙◌, Bool, true, false, Option, none, some, List, [], ◌∷◌, ◌++◌, arith,
  length, joined,
}
use mathlib.Core.List.{append_assoc}
use terraform_provider_tunne.Libs.Relay.{
  Stream, Main, copying, draining, forced, returned, Relay, relay_drain,
}
use terraform_provider_tunne.Libs.Relay as Relays
use terraform_provider_tunne.Libs.Relay.Traffic.{
  Bytes, Flow, Traffic, Move, turn_to_a, turn_to_b, break_to_a, break_to_b, time_out, finish,
  forward, copy_turn, landed_a, landed_b, copy_to_a, copy_to_b, step, run,
}

-- Nothing of the chunks is lost: what has arrived and what is coming is what was sent.
abbrev pub Whole : List Bytes → Flow → Type 0
Whole sent f = (f.arrived ++ joined f.coming ≡ joined sent) × (length f.coming ≤ length sent)

-- A turn between streams that can be used moves a chunk, or ends the copy once all has arrived.
abbrev pub Turned : List Bytes → Flow → Flow × Option Bool → Type 0
Turned sent before (f, none) = Whole sent f × (suc (length f.coming) ≡ length before.coming)
Turned sent before (f, some e) = (e ≡ false) × Whole sent f × (f.coming ≡ [])

forward-Turned :
    (sent : List Bytes) (dst : Stream) (arrived : Bytes) (coming : List Bytes)
    → dst.write_open ≡ true
    → Whole sent (record { coming = coming; arrived = arrived })
    → Turned sent (record { coming = coming; arrived = arrived }) (forward dst arrived coming)
unfolding forward
forward-Turned sent dst arrived [] w h = (refl, h, refl)
forward-Turned sent dst arrived (c ∷ cs) w h =
    rw w ((append_assoc arrived c (joined cs) ∙ h.0, omega (arith, h.1)), refl)

copy_turn-Turned :
    (sent : List Bytes) (dst src : Stream) (f : Flow)
    → dst.write_open ≡ true
    → src.is_open ≡ true
    → Whole sent f
    → Turned sent f (copy_turn dst src f)
unfolding copy_turn
copy_turn-Turned sent dst src f w o h = rw o (forward-Turned sent dst f.arrived f.coming w h)

-- Of the relay: its streams are open, and half-closed where the copy to them has ended; each flow is
-- whole, and at its end where its copy has ended.
abbrev pub CopyOk : Bool → Stream → List Bytes → Flow → Type 0
CopyOk over dst sent f =
    Whole sent f × (over ≡ true → f.coming ≡ []) × (over ≡ false → dst.write_open ≡ true)

abbrev pub is_over : Main → Bool
is_over copying = false
is_over _ = true

abbrev pub StreamsOk : Main → Relay → Type 0
StreamsOk returned r = r.other_done ≡ true
StreamsOk _ r =
    (r.a.is_open ≡ true)
    × (r.b.is_open ≡ true)
    × (r.a.half_closes ≡ true)
    × (r.b.half_closes ≡ true)

pub record Conserved (from_a from_b : List Bytes) (t : Traffic) : Type 0 where
  pub streams_ok : StreamsOk t.relay.main t.relay
  pub to_a_ok : CopyOk (is_over t.relay.main) t.relay.a from_b t.to_a
  pub to_b_ok : CopyOk t.relay.other_done t.relay.b from_a t.to_b

-- No copy breaks, and the timer does not fire.
abbrev pub IsGentle : List Move → Type 0
IsGentle [] = Unit
IsGentle (break_to_a ∷ ms) = ⊥
IsGentle (break_to_b ∷ ms) = ⊥
IsGentle (time_out ∷ ms) = ⊥
IsGentle (m ∷ ms) = IsGentle ms

landed_a-Conserved :
    (from_a from_b : List Bytes) (t : Traffic) (x : Flow × Option Bool)
    → t.relay.main ≡ copying
    → Conserved from_a from_b t
    → Turned from_b t.to_a x
    → Conserved from_a from_b (landed_a x t)
unfolding landed_a Relays.step
landed_a-Conserved from_a from_b t (f, none) m c h = ground arith
landed_a-Conserved from_a from_b t (f, some e) m c h = ground arith

landed_b-Conserved :
    (from_a from_b : List Bytes) (t : Traffic) (x : Flow × Option Bool)
    → t.relay.other_done ≡ false
    → Conserved from_a from_b t
    → Turned from_a t.to_b x
    → Conserved from_a from_b (landed_b x t)
unfolding landed_b Relays.step
landed_b-Conserved from_a from_b t (f, none) m c h = ground arith
landed_b-Conserved from_a from_b t (f, some e) m c h = ground arith

pub turn_moves_a :
    (from_a from_b : List Bytes) (t : Traffic)
    → t.relay.main ≡ copying
    → Conserved from_a from_b t
    → Turned from_b t.to_a (copy_turn t.relay.a t.relay.b t.to_a)
turn_moves_a from_a from_b t m c =
    copy_turn-Turned from_b t.relay.a t.relay.b t.to_a (ground arith) (ground arith) (ground arith)

pub turn_moves_b :
    (from_a from_b : List Bytes) (t : Traffic)
    → t.relay.other_done ≡ false
    → Conserved from_a from_b t
    → Turned from_a t.to_b (copy_turn t.relay.b t.relay.a t.to_b)
turn_moves_b from_a from_b t d c =
    copy_turn-Turned from_a t.relay.b t.relay.a t.to_b (ground arith) (ground arith) (ground arith)

copy_to_a-Conserved :
    (from_a from_b : List Bytes) (t : Traffic) (m : Main)
    → t.relay.main ≡ m
    → Conserved from_a from_b t
    → Conserved from_a from_b (copy_to_a m t)
unfolding copy_to_a
copy_to_a-Conserved from_a from_b t copying m c =
    landed_a-Conserved from_a from_b t (copy_turn t.relay.a t.relay.b t.to_a) m c
      (turn_moves_a from_a from_b t m c)
copy_to_a-Conserved from_a from_b t draining m c = c
copy_to_a-Conserved from_a from_b t forced m c = c
copy_to_a-Conserved from_a from_b t returned m c = c

copy_to_b-Conserved :
    (from_a from_b : List Bytes) (t : Traffic) (d : Bool)
    → t.relay.other_done ≡ d
    → Conserved from_a from_b t
    → Conserved from_a from_b (copy_to_b d t)
unfolding copy_to_b
copy_to_b-Conserved from_a from_b t true d c = c
copy_to_b-Conserved from_a from_b t false d c =
    landed_b-Conserved from_a from_b t (copy_turn t.relay.b t.relay.a t.to_b) d c
      (turn_moves_b from_a from_b t d c)

finish-Conserved :
    (from_a from_b : List Bytes) (t : Traffic)
    → Conserved from_a from_b t
    → Conserved from_a from_b (step t finish)
unfolding step Relays.step
finish-Conserved from_a from_b t c = ground arith

pub step-Conserved :
    (from_a from_b : List Bytes) (t : Traffic) (m : Move)
    → IsGentle (m ∷ [])
    → Conserved from_a from_b t
    → Conserved from_a from_b (step t m)
unfolding step
step-Conserved from_a from_b t turn_to_a g c =
    copy_to_a-Conserved from_a from_b t t.relay.main refl c
step-Conserved from_a from_b t turn_to_b g c =
    copy_to_b-Conserved from_a from_b t t.relay.other_done refl c
step-Conserved from_a from_b t break_to_a g c = elim g [ ]
step-Conserved from_a from_b t break_to_b g c = elim g [ ]
step-Conserved from_a from_b t time_out g c = elim g [ ]
step-Conserved from_a from_b t finish g c = finish-Conserved from_a from_b t c

head-IsGentle : (m : Move) (ms : List Move) → IsGentle (m ∷ ms) → IsGentle (m ∷ []) × IsGentle ms
head-IsGentle m ms g = ground arith

pub run-Conserved :
    (from_a from_b : List Bytes) (t : Traffic) (ms : List Move)
    → IsGentle ms
    → Conserved from_a from_b t
    → Conserved from_a from_b (run t ms)
unfolding run
run-Conserved from_a from_b t [] g c = c
run-Conserved from_a from_b t (m ∷ ms) g c =
    let (one, rest) = head-IsGentle m ms g in
    run-Conserved from_a from_b (step t m) ms rest (step-Conserved from_a from_b t m one c)
