-- ===== src/Libs/Relay/Tests.antt =====
-- Relays at concrete events.
use terraform_provider_tunne.Base.{◌≡◌, refl, true, false, List, [], ◌∷◌, arith}
use terraform_provider_tunne.Libs.Relay.{
  Stream, draining, returned, forced, relay_drain, relay, Event, copied_to_a, copied_to_b, timer,
  ends, run,
}
use terraform_provider_tunne.Libs.Relay.Closing.{
  fresh, returned_closes, half_close_open, relay-ne-forced, drain_bounded,
}

abbrev no_half_close : Stream
no_half_close = record { is_open = true; write_open = true; half_closes = false }

abbrev slow : List Event
slow = copied_to_a false ∷ timer ∷ copied_to_b true ∷ ends ∷ []

slow_returns : (run (relay_drain fresh no_half_close 5) slow).main ≡ returned
unfolding run relay_drain
slow_returns = refl

returned_closes_example : (run (relay_drain fresh no_half_close 5) slow).a.is_open ≡ false
returned_closes_example = (returned_closes fresh no_half_close 5 slow slow_returns).0

half_close_open_example :
    (run (relay_drain fresh fresh 0) (copied_to_a false ∷ ends ∷ [])).b.is_open ≡ true
unfolding run relay_drain
half_close_open_example = (half_close_open 0 (copied_to_a false ∷ ends ∷ []) (refl, tt) (λ e. cc)).1

relay-ne-forced_example : (run (relay fresh no_half_close) slow).main ≡ forced → ⊥
relay-ne-forced_example = relay-ne-forced fresh no_half_close slow

drain_bounded_example :
    (run
      (record (relay_drain fresh fresh 5) { main = draining })
      (timer ∷ copied_to_b true ∷ ends ∷ [])).main
    ≡ returned
unfolding relay_drain
drain_bounded_example =
    drain_bounded (record (relay_drain fresh fresh 5) { main = draining }) true refl (omega arith)
