-- ===== src/Kubernetes/Forward/Readiness.antt =====
-- internal/kubernetes/forward.go: when a port forward is announced, and how it ends.
use terraform_provider_tunne.Base.{◌≡◌, ◌↔◌, ◌⊎◌, Bool, true, false, none, List, [], ◌∷◌, arith}
use terraform_provider_tunne.Errors.{ok}
use terraform_provider_tunne.Kubernetes.Forward.{
  context_done, became_ready, canceled_ending, ForwardCalls, Effect, serve, signal, close_stop,
  run_forward,
}

-- The announcements among the effects.
abbrev pub signals : List Effect → Bool
signals [] = false
signals (signal ∷ es) = true
signals (serve ∷ es) = signals es
signals (close_stop ∷ es) = signals es

-- The tunnel is announced as ready exactly when the context is not cancelled at the start,
-- client-go reports readiness before it stops, and the context is still not cancelled then.
pub run_forward-signals_iff :
    (c : ForwardCalls)
    → (signals (run_forward c).0 ≡ true)
      ↔ ((c.canceled_before ≡ false) × (c.startup ≡ became_ready) × (c.canceled_ready ≡ false))
unfolding run_forward
run_forward-signals_iff c = ground arith

-- The run ends without an error exactly when it was cancelled: before it started, while it waited
-- for readiness, when readiness was reported, or, the announcement done, while it was forwarding.
-- So the end of client-go's forwarding is an error even where client-go gives none.
pub run_forward-eq-ok_iff :
    (c : ForwardCalls)
    → ((run_forward c).1 ≡ ok tt) ↔ (
        (c.canceled_before ≡ true)
        ⊎ ((c.startup ≡ context_done)
            ⊎ ((c.startup ≡ became_ready)
                × ((c.canceled_ready ≡ true)
                    ⊎ ((c.signal_ready ≡ none) × (c.ending ≡ canceled_ending))))))
unfolding run_forward
run_forward-eq-ok_iff c = ground arith
