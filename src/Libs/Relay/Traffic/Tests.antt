-- ===== src/Libs/Relay/Traffic/Tests.antt =====
-- A relay of two short messages.
use terraform_provider_tunne.Base.{◌≡◌, refl, true, false, List, [], ◌∷◌}
use terraform_provider_tunne.Libs.Relay.{Stream, draining, returned, relay_drain}
use terraform_provider_tunne.Libs.Relay as Relays
use terraform_provider_tunne.Libs.Relay.Closing.{fresh}
use terraform_provider_tunne.Libs.Relay.Traffic.{
  Bytes, traffic, Move, turn_to_a, turn_to_b, time_out, finish, run,
}
use terraform_provider_tunne.Libs.Relay.Traffic.Delivery.{Delivered, to_the_end, relay_delivers}

abbrev request : List Bytes
request = (71 ∷ 69 ∷ []) ∷ (84 ∷ []) ∷ []

abbrev response : List Bytes
response = (79 ∷ 75 ∷ []) ∷ []

-- The request is half sent when the response is over.
abbrev early : List Move
early = turn_to_b ∷ turn_to_a ∷ turn_to_a ∷ finish ∷ []

early_waits : (run (traffic fresh fresh 0 request response) early).relay.main ≡ draining
unfolding run traffic Relays.step relay_drain
early_waits = refl

relay_delivers_example :
    Delivered request response
      (run (run (traffic fresh fresh 0 request response) early) (to_the_end request response))
relay_delivers_example = (relay_delivers 0 request response early tt).2

abbrev web_socket : Stream
web_socket = record { is_open = true; write_open = true; half_closes = false }

-- The timer closes the local stream with one chunk still to come.
abbrev cut_off : List Move
cut_off = turn_to_b ∷ turn_to_a ∷ turn_to_a ∷ time_out ∷ turn_to_b ∷ finish ∷ []

cut_off_returns : (run (traffic fresh web_socket 5 request response) cut_off).relay.main ≡ returned
unfolding run traffic Relays.step relay_drain
cut_off_returns = refl

cut_off_loses :
    (run (traffic fresh web_socket 5 request response) cut_off).to_b.arrived ≡ 71 ∷ 69 ∷ []
unfolding run traffic Relays.step relay_drain
cut_off_loses = refl
