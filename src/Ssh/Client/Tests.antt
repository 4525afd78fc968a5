-- ===== src/Ssh/Client/Tests.antt =====
-- Histories of a clientPool, and the theorems at them.
use terraform_provider_tunne.Base.{
  ◌≤◌, ◌≡◌, ◌≢◌, ◌<◌, arith, refl, true, none, some, List, [], ◌∷◌, length, All,
}
use terraform_provider_tunne.Errors.{external, net_closed, ok, err}
use terraform_provider_tunne.Ssh.Client.{
  Event, new_pool, returns, waits, enter, get, dial_returns, discards, closes_client, close, step,
  run, outcome_of, open_of, dial_result,
}
use terraform_provider_tunne.Ssh.Client.Numbering.{pending}
use terraform_provider_tunne.Ssh.Client.Invariant.{PoolInv, new-PoolInv, step-PoolInv}
use terraform_provider_tunne.Ssh.Client.Sharing.{single_flight, enter-open, waiters_share}
use terraform_provider_tunne.Ssh.Client.Refinement.{Answered, session_of, run_refines}
use terraform_provider_tunne.Ssh.Client.Ended.{ended_gone}
use terraform_provider_tunne.Ssh.Client.Leaks.{close_releases, close_all, IsClosed}

-- Two callers share the first handshake; the client fails, and a second one is dialled.
abbrev reconnect : List Event
reconnect =
    get ∷ get ∷ dial_returns 0 none ∷ discards 0 ∷ closes_client 0 ∷ get ∷ dial_returns 1 none ∷ []

-- The pool is closed during a dial that then succeeds.
late_dial :
    outcome_of 0 (run new_pool (get ∷ close ∷ dial_returns 0 none ∷ [])).handshakes
    ≡ some (err net_closed)
unfolding run new_pool outcome_of
late_dial = refl

second_waits : (enter (run new_pool (get ∷ []))).1 ≡ waits 0
unfolding run new_pool enter
second_waits = refl

step-PoolInv_example : PoolInv (step new_pool get)
step-PoolInv_example = step-PoolInv new_pool get new-PoolInv

single_flight_example : pending (run new_pool reconnect).handshakes ≤ 1
single_flight_example = single_flight reconnect

enter-open_example : open_of 1 (run new_pool reconnect).clients ≡ true
unfolding run new_pool enter
enter-open_example = (enter-open reconnect 1 refl).0

waiters_share_example :
    outcome_of 0
      (run
        (step (run new_pool (get ∷ get ∷ [])) (dial_returns 0 (some (external 3))))
        (get ∷ [])).handshakes
    ≡ some (dial_result (some (external 3)) (run new_pool (get ∷ get ∷ [])))
unfolding run new_pool
waiters_share_example = waiters_share (get ∷ get ∷ []) (get ∷ []) 0 (some (external 3)) refl

close_releases_example :
    let p = run (step (run new_pool reconnect) close) (get ∷ []) in
    All IsClosed (run p (close_all (length p.clients))).clients
close_releases_example = (close_releases reconnect (get ∷ [])).2

run_refines_example : let p = run new_pool reconnect in Answered (session_of p) (enter p).1
run_refines_example = (run_refines reconnect).1

-- The first client ends while others get the second one.
two_dialled :
    1
    < length
        (run new_pool
          (get ∷ dial_returns 0 none ∷ discards 0 ∷ get ∷ dial_returns 1 none ∷ [])).clients
unfolding run new_pool
two_dialled = omega arith

ended_gone_example :
    let es = get ∷ dial_returns 0 none ∷ discards 0 ∷ get ∷ dial_returns 1 none ∷ [] in
    let p = run (step (run new_pool es) (discards 1)) (get ∷ []) in (enter p).1 ≢ returns (ok 1)
ended_gone_example =
    (ended_gone (get ∷ dial_returns 0 none ∷ discards 0 ∷ get ∷ dial_returns 1 none ∷ []) (get ∷ [])
      [] 1 two_dialled).0
