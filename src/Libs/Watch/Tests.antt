-- ===== src/Libs/Watch/Tests.antt =====
-- Waits and watches at concrete answers.
use terraform_provider_tunne.Base.{◌≡◌, refl, inl, inr, true, false, none, some, [], ◌∷◌, ◌++◌}
use terraform_provider_tunne.Errors.{
  external, not_exist, wrap, message, process_exited, process_died, not_ready, ok, err,
}
use terraform_provider_tunne.GoText.{lit}
use terraform_provider_tunne.Libs.Watch.{
  ProcessInfo, Poll, ReadyWait, PortWait, zombie, other_status, wait_for_ready_file, watch_parent,
  signal_ready_when_serving, terminate,
}
use terraform_provider_tunne.Libs.Watch.Readiness.{
  BecomesReady, SeesExit, wait_for_ready_file-eq-none_iff, signal_when_serving_iff,
  watch_parent_iff,
}

abbrev alive : ProcessInfo
alive = record { new_process = none; status = ok (other_status ∷ []); is_running = ok true }

abbrev dead : ProcessInfo
dead = record { new_process = none; status = ok (other_status ∷ zombie ∷ []); is_running = ok true }

abbrev not_yet : Poll
not_yet = record { process = alive; stat = some not_exist }

abbrev marked : Poll
marked = record { process = alive; stat = none }

abbrev good : ReadyWait
good = record { ticks = not_yet ∷ marked ∷ []; last = not_yet; ctx_err = none }

child_died :
    wait_for_ready_file (record {
      ticks = not_yet ∷ [];
      last = record { process = dead; stat = none };
      ctx_err = none;
    })
    ≡ some (wrap process_exited (message process_died))
unfolding wait_for_ready_file
child_died = refl

timeout :
    wait_for_ready_file (record { ticks = []; last = not_yet; ctx_err = none })
    ≡ some (message not_ready)
unfolding wait_for_ready_file
timeout = refl

wait_for_ready_file-eq-none_iff_example : BecomesReady (good.ticks ++ good.last ∷ [])
unfolding wait_for_ready_file
wait_for_ready_file-eq-none_iff_example = (wait_for_ready_file-eq-none_iff good).0 refl

abbrev served : PortWait
served = record { dials = some (external 1) ∷ none ∷ []; last_dial = none; port_ctx_err = none }

signal_when_serving_iff_example :
    (signal_ready_when_serving served (lit "/tmp/ready") none).written ≡ some (lit "/tmp/ready")
signal_when_serving_iff_example =
    (signal_when_serving_iff served (lit "/tmp/ready") none).1 (refl, refl, inr (inl refl))

watch_parent_iff_example : SeesExit (ok true ∷ err (external 1) ∷ ok false ∷ [])
unfolding watch_parent terminate
watch_parent_iff_example =
    (watch_parent_iff false (ok true ∷ err (external 1) ∷ ok false ∷ [])).0 refl
