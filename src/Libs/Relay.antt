-- ===== src/Libs/Relay.antt =====
-- internal/libs/relay.go: RelayDrain, as the interleaving of its two copies, its timer and its end.
-- What `io.Copy` reports is part of the events; the bytes it carries are in Libs.Relay.Traffic.
pub mod Closing
pub mod Traffic
mod Tests
use terraform_provider_tunne.Base.{
  ℕ, Bool, true, false, not, ◌&&◌, List, [], ◌∷◌, ltb, if◌then◌else◌,
}

-- One of the two streams. `half_closes`: it is a halfCloser, and its `CloseWrite` works.
pub record Stream : Type 0 where
  pub is_open : Bool
  pub write_open : Bool
  pub half_closes : Bool

abbrev pub close_stream : Stream → Stream
close_stream s = record s { is_open = false; write_open = false }

-- `if !HalfClose(dst) { _ = dst.Close() }`
half_close_or_close : Stream → Stream
half_close_or_close s = if s.half_closes then record s { write_open = false } else close_stream s

-- `pipe(dst, src)` once `io.Copy` has returned, with or without an error: `dst` and `src` after it.
pub pipe_end : Bool → Stream → Stream → Stream × Stream
unfolding half_close_or_close
pipe_end true dst src = (close_stream dst, close_stream src)
pipe_end false dst src = (half_close_or_close dst, src)

-- Where the caller of RelayDrain is: in `pipe(a, b)`, waiting for the other copy, waiting for it
-- after the timer has closed `a`, or past the end.
pub data Main : Type 0 where
  copying draining forced returned : Main

pub record Relay : Type 0 where
  pub a : Stream
  pub b : Stream
  pub main : Main
  pub other_done : Bool  -- the goroutine's `pipe(b, a)` has ended, and `done` is closed
  pub grace : ℕ

pub relay_drain : Stream → Stream → ℕ → Relay
relay_drain a b grace = record { a = a; b = b; main = copying; other_done = false; grace = grace }

-- `Relay(a, b)`
pub relay : Stream → Stream → Relay
unfolding relay_drain
relay a b = relay_drain a b 0

pub data Event : Type 0 where
  copied_to_a copied_to_b : Bool → Event  -- `io.Copy` has returned; `true`: with an error
  timer ends : Event

main_copied : Main → Bool → Relay → Relay
main_copied copying e r =
    let (a', b') = pipe_end e r.a r.b in record r { a = a'; b = b'; main = draining }
main_copied _ e r = r

other_copied : Bool → Relay → Relay
other_copied e r =
    let (b', a') = pipe_end e r.b r.a in
    if r.other_done then r else record r { a = a'; b = b'; other_done = true }

-- The timer runs only with a grace period; where the other copy has ended too, the `select` may take
-- either.
fire : Main → Relay → Relay
fire draining r = if ltb 0 r.grace then record r { a = close_stream r.a; main = forced } else r
fire _ r = r

-- `<-done`, and the two closes at the end.
finish : Main → Relay → Relay
finish copying r = r
finish returned r = r
finish _ r =
    if r.other_done
    then record r { a = close_stream r.a; b = close_stream r.b; main = returned }
    else r

pub step : Relay → Event → Relay
unfolding main_copied other_copied fire finish pipe_end
step r (copied_to_a e) = main_copied r.main e r
step r (copied_to_b e) = other_copied e r
step r timer = fire r.main r
step r ends = finish r.main r

pub run : Relay → List Event → Relay
unfolding step
run r [] = r
run r (e ∷ es) = run (step r e) es
