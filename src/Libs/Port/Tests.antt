-- ===== src/Libs/Port/Tests.antt =====
-- A free port at concrete answers.
use terraform_provider_tunne.Base.{◌≡◌, refl, none, some, [], ◌∷◌, pos}
use terraform_provider_tunne.Errors.{ok}
use terraform_provider_tunne.Libs.Port.{PortCalls, listen, close_listener, get_free_port}

abbrev calls : PortCalls
calls = record { resolve = none; listen_error = none; tcp_port = some (pos 40000) }

released : get_free_port calls ≡ (listen ∷ close_listener ∷ [], ok (pos 40000))
unfolding get_free_port
released = refl
