-- ===== src/Libs/Server/Tests.antt =====
-- Runs of a ConnServer, and the theorems at them.
use terraform_provider_tunne.Base.{
  ◌≡◌, ◌≢◌, ◌≤◌, arith, ap, length, refl, false, none, some, List, [], ◌∷◌, ◌++◌,
}
use terraform_provider_tunne.Errors.{external, net_closed, wrap, accept_local}
use terraform_provider_tunne.Libs.Server.{
  Event, accept, register, accept_error, wait_over, cancel, close, handler_returns, forget, wg_done,
  returned, new_conn_server, step, run,
}
use terraform_provider_tunne.Libs.Server.Invariant.{Inv, new-Inv, step-Inv, run-Inv}
use terraform_provider_tunne.Libs.Server.Shutdown.{
  returned-IsReleased, close_drops, closed_starts_none,
}
use terraform_provider_tunne.Libs.Server.Termination.{events_left, closed_run_ends}
use terraform_provider_tunne.Libs.Server.Progress.{wind_down, wind_down-returns}

-- Two connections are served, the first one ends, and the context is cancelled.
abbrev busy : List Event
busy =
    accept
    ∷ register
    ∷ accept
    ∷ register
    ∷ handler_returns 0
    ∷ forget 0
    ∷ wg_done 0
    ∷ cancel
    ∷ close
    ∷ []

abbrev stopped : List Event
stopped =
    busy ++ (accept_error net_closed ∷ handler_returns 1 ∷ forget 1 ∷ wg_done 1 ∷ wait_over ∷ [])

-- The wait goes on while a handler is left.
busy_waits : (run new_conn_server (busy ++ wait_over ∷ [])).wg ≡ 1
unfolding run step new_conn_server
busy_waits = refl

accept_failure :
    (run new_conn_server (accept_error (external 7) ∷ wait_over ∷ [])).phase
    ≡ returned (some (wrap accept_local (external 7)))
unfolding run step new_conn_server
accept_failure = refl

step-Inv_example : Inv (step new_conn_server accept)
step-Inv_example = step-Inv new_conn_server accept new-Inv

returned-IsReleased_example : (run new_conn_server stopped).wg ≡ 0
unfolding run step new_conn_server
returned-IsReleased_example = (returned-IsReleased stopped refl).0

close_drops_example :
    (run (step (run new_conn_server (accept ∷ register ∷ [])) close) (accept ∷ [])).listener_open
    ≡ false
close_drops_example = (close_drops (accept ∷ register ∷ []) (accept ∷ [])).0

closed_starts_none_example :
    (run (run new_conn_server busy) (accept ∷ register ∷ [])).accepted
    ≡ (run new_conn_server busy).accepted
unfolding run step new_conn_server
closed_starts_none_example =
    (closed_starts_none (run new_conn_server busy) (accept ∷ register ∷ []) refl
      (run-Inv new_conn_server busy new-Inv)).1

wind_down-returns_example :
    (run
      (run new_conn_server (accept ∷ register ∷ []))
      (wind_down (run new_conn_server (accept ∷ register ∷ [])))).phase
    ≡ returned none
unfolding run step new_conn_server
wind_down-returns_example =
    wind_down-returns (run new_conn_server (accept ∷ register ∷ []))
      (run-Inv new_conn_server (accept ∷ register ∷ []) new-Inv) refl

still_waiting : step (run new_conn_server busy) (accept_error net_closed) ≢ run new_conn_server busy
unfolding run step new_conn_server
still_waiting e = ground (arith, ap (λ s. s.phase) e)

closed_run_ends_example :
    length (accept_error net_closed ∷ []) ≤ events_left (run new_conn_server busy)
unfolding run step new_conn_server
closed_run_ends_example =
    (closed_run_ends (run new_conn_server busy) refl (run-Inv new_conn_server busy new-Inv)).0
      (accept_error net_closed ∷ []) (still_waiting, tt)
