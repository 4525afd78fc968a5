-- ===== src/Kubernetes/Forward/Tests.antt =====
-- A port forward that becomes ready and then ends.
use terraform_provider_tunne.Base.{◌≡◌, ◌≢◌, refl, inr, true, false, none, arith}
use terraform_provider_tunne.Errors.{ok}
use terraform_provider_tunne.Kubernetes.Forward.{
  ForwardCalls, became_ready, ended_ending, canceled_ending, run_forward,
}
use terraform_provider_tunne.Kubernetes.Forward.Readiness.{
  signals, run_forward-signals_iff, run_forward-eq-ok_iff,
}

abbrev stopped : ForwardCalls
stopped = record {
  canceled_before = false;
  startup = became_ready;
  canceled_ready = false;
  signal_ready = none;
  ending = ended_ending none;
}

run_forward-signals_iff_example : signals (run_forward stopped).0 ≡ true
run_forward-signals_iff_example = (run_forward-signals_iff stopped).1 (refl, refl, refl)

run_forward-eq-ok_iff_example :
    (run_forward (record stopped { ending = canceled_ending })).1 ≡ ok tt
run_forward-eq-ok_iff_example =
    (run_forward-eq-ok_iff (record stopped { ending = canceled_ending })).1
      (inr (inr (refl, inr (refl, refl))))

stopped_fails : (run_forward stopped).1 ≢ ok tt
stopped_fails h = ground (arith, (run_forward-eq-ok_iff stopped).0 h)
