-- ===== src/Libs/Relay/Traffic.antt =====
-- internal/libs/relay.go: RelayDrain with the bytes that its two calls of io.Copy carry. io.Copy reads
-- a chunk from its source and writes it to its destination, until the source is at EOF (it returns no
-- error) or a read or write fails (it returns the error).
pub mod Conservation
pub mod Delivery
mod Tests
use terraform_provider_tunne.Base.{
  ℕ, Bool, true, false, Option, none, some, List, [], ◌∷◌, ◌++◌, if◌then◌else◌,
}
use terraform_provider_tunne.Libs.Relay.{
  Stream, Main, copying, Relay, relay_drain, copied_to_a, copied_to_b, timer, ends,
}
use terraform_provider_tunne.Libs.Relay as Relays

abbrev pub Bytes : Type 0
Bytes = List ℕ

-- One direction: the chunks that the source has still to give before its EOF, and what the
-- destination has taken.
pub record Flow : Type 0 where
  pub coming : List Bytes
  pub arrived : Bytes

-- The next chunk goes to `dst`. A destination that is closed or half-closed takes none, and io.Copy
-- has lost the chunk it read. The second component is there once io.Copy has returned; `true`: with
-- an error.
pub forward : Stream → Bytes → List Bytes → Flow × Option Bool
forward dst arrived [] = (record { coming = []; arrived = arrived }, some false)
forward dst arrived (c ∷ cs) =
    if dst.write_open
    then (record { coming = cs; arrived = arrived ++ c }, none)
    else (record { coming = cs; arrived = arrived }, some true)

-- One turn of `io.Copy(dst, src)`; a closed source cannot be read.
pub copy_turn : Stream → Stream → Flow → Flow × Option Bool
unfolding forward
copy_turn dst src f = if src.is_open then forward dst f.arrived f.coming else (f, some true)

pub record Traffic : Type 0 where
  pub relay : Relay
  pub to_a : Flow
  pub to_b : Flow

abbrev sending : List Bytes → Flow
sending chunks = record { coming = chunks; arrived = [] }

-- `RelayDrain(a, b, grace)`, where `a` sends the chunks `from_a`, and `b` the chunks `from_b`.
pub traffic : Stream → Stream → ℕ → List Bytes → List Bytes → Traffic
traffic a b grace from_a from_b = record {
  relay = relay_drain a b grace;
  to_a = sending from_b;
  to_b = sending from_a;
}

-- A turn of a copy, an error of the network in it, the timer and the end of RelayDrain.
pub data Move : Type 0 where
  turn_to_a turn_to_b break_to_a break_to_b time_out finish : Move

pub landed_a : Flow × Option Bool → Traffic → Traffic
landed_a (f, none) t = record t { to_a = f }
landed_a (f, some e) t = record t { to_a = f; relay = Relays.step t.relay (copied_to_a e) }

pub landed_b : Flow × Option Bool → Traffic → Traffic
landed_b (f, none) t = record t { to_b = f }
landed_b (f, some e) t = record t { to_b = f; relay = Relays.step t.relay (copied_to_b e) }

-- The caller's copy, `pipe(a, b)`, for as long as it runs.
pub copy_to_a : Main → Traffic → Traffic
unfolding landed_a copy_turn
copy_to_a copying t = landed_a (copy_turn t.relay.a t.relay.b t.to_a) t
copy_to_a _ t = t

-- The goroutine's copy, `pipe(b, a)`.
pub copy_to_b : Bool → Traffic → Traffic
unfolding landed_b copy_turn
copy_to_b true t = t
copy_to_b false t = landed_b (copy_turn t.relay.b t.relay.a t.to_b) t

pub step : Traffic → Move → Traffic
unfolding copy_to_a copy_to_b
step t turn_to_a = copy_to_a t.relay.main t
step t turn_to_b = copy_to_b t.relay.other_done t
step t break_to_a = record t { relay = Relays.step t.relay (copied_to_a true) }
step t break_to_b = record t { relay = Relays.step t.relay (copied_to_b true) }
step t time_out = record t { relay = Relays.step t.relay timer }
step t finish = record t { relay = Relays.step t.relay ends }

pub run : Traffic → List Move → Traffic
unfolding step
run t [] = t
run t (m ∷ ms) = run (step t m) ms
