-- ===== src/Kubernetes/Tunnel/Order.antt =====
-- internal/kubernetes/tunnel.go: what precedes the announcement of the tunnel.
use terraform_provider_tunne.Base.{
  ℕ, zero, suc, ◌≡◌, refl, inl, inr, true, false, Option, none, some, List, [], ◌∷◌, ◌++◌, map,
  take, arith,
}
use terraform_provider_tunne.Errors.{Error, Result, ok, err}
use terraform_provider_tunne.Effects.{Happened, Happened-take, not_in_part}
use terraform_provider_tunne.Kubernetes.Config.{TunnelConfig}
use terraform_provider_tunne.Kubernetes.Endpoints.{Endpoint, resolve_endpoint}
use terraform_provider_tunne.Kubernetes.Forward.{new_port_forward, run_forward}
use terraform_provider_tunne.Kubernetes.Forward as Forward
use terraform_provider_tunne.Kubernetes.Forward.Readiness.{signals, run_forward-signals_iff}
use terraform_provider_tunne.Kubernetes.Tunnel.{
  Effect, notify, stop_notify, forward_to, forwards, Calls, run_forwards, connect, run_tunnel,
}

-- The tunnel is announced as ready.
abbrev pub announce : Effect
announce = forwards Forward.signal

signals-announce :
    (es : List Forward.Effect)
    → Happened announce (map forwards es ++ stop_notify ∷ [])
    → signals es ≡ true
signals-announce [] h = ground arith
signals-announce (Forward.signal ∷ es) h = refl
signals-announce (Forward.serve ∷ es) h = signals-announce es (ground arith)
signals-announce (Forward.close_stop ∷ es) h = signals-announce es (ground arith)

-- A run that comes to the forwarding names its endpoint before it can announce anything.
forwarded :
    (ep : Endpoint) (n : ℕ) (es : List Forward.Effect)
    → let all = notify ∷ forward_to ep ∷ (map forwards es ++ stop_notify ∷ []) in
      Happened announce (take n all) → Happened (forward_to ep) (take n all) × (signals es ≡ true)
forwarded ep zero es h = elim h [ ]
forwarded ep (suc zero) es h = ground arith
forwarded ep (suc (suc n)) es h =
    let later : Happened announce (take n (map forwards es ++ stop_notify ∷ [])) = ground arith in
    (inr (inl refl), signals-announce es (Happened-take announce n _ later))

-- What is so once the tunnel is announced: `es` are the effects so far.
abbrev pub IsAnnounced : TunnelConfig → Calls → List Effect → Type 0
IsAnnounced cfg c es =
    (ep : Endpoint) × (resolve_endpoint cfg.target_port c.service c.pods ≡ ok ep)
    × Happened (forward_to ep) es
    × (new_port_forward c.transport c.forwarder ≡ ok tt)
    × (c.forward.canceled_before ≡ false)
    × (c.forward.startup ≡ Forward.became_ready)
    × (c.forward.canceled_ready ≡ false)

no_announcement :
    (n : ℕ) (es : List Effect) {P : Type 0}
    → (Happened announce es → ⊥)
    → Happened announce (take n es)
    → P
no_announcement n es x h = elim (not_in_part announce n es x h) [ ]

-- One clause for each call that may fail behind the resolution.
announced :
    (cfg : TunnelConfig) (c : Calls) (r k : Option Error) (n : ℕ) (q : Result Endpoint)
    (f : Result (Unit {0}))
    → c.rest_config ≡ r
    → c.new_client ≡ k
    → resolve_endpoint cfg.target_port c.service c.pods ≡ q
    → new_port_forward c.transport c.forwarder ≡ f
    → let es = take n (run_tunnel cfg c).0 in
      Happened announce es
      → (ep : Endpoint) × (q ≡ ok ep)
        × (f ≡ ok tt)
        × Happened (forward_to ep) es
        × (signals (run_forward c.forward).0 ≡ true)
unfolding run_tunnel connect run_forwards
announced cfg c (some e) k n q f er ek eq ef =
    rw er (λ h. no_announcement n _ (λ x. ground arith) h)
announced cfg c none (some e) n q f er ek eq ef =
    rw (er, ek) (λ h. no_announcement n _ (λ x. ground arith) h)
announced cfg c none none n (err e) f er ek eq ef =
    rw (er, ek, eq) (λ h. no_announcement n (notify ∷ stop_notify ∷ []) (λ x. ground arith) h)
announced cfg c none none n (ok ep) (err e) er ek eq ef =
    rw (er, ek, eq, ef) (λ h. no_announcement n (notify ∷ stop_notify ∷ []) (λ x. ground arith) h)
announced cfg c none none n (ok ep) (ok u) er ek eq ef =
    rw (er, ek, eq, ef)
      (λ h.
        let (to, signalled) = forwarded ep n (run_forward c.forward).0 h in
        (ep, refl, refl, to, signalled))

-- At any time at which the tunnel has been announced as ready, the endpoint has been resolved for the
-- configured port and is the one that is forwarded to, the forwarder has been made, and the port forward
-- has become ready without having been cancelled.
pub run_tunnel-IsAnnounced :
    (cfg : TunnelConfig) (c : Calls) (n : ℕ)
    → let es = take n (run_tunnel cfg c).0 in Happened announce es → IsAnnounced cfg c es
run_tunnel-IsAnnounced cfg c n h =
    let (ep, resolved, made, to, signalled) =
      announced cfg c c.rest_config c.new_client n _ _ refl refl refl refl h in
    let (started, ready, still) = (run_forward-signals_iff c.forward).0 signalled in
    (ep, resolved, to, made, started, ready, still)
