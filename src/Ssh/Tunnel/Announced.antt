-- ===== src/Ssh/Tunnel/Announced.antt =====
-- internal/ssh/tunnel.go: what has happened by the time at which readiness is signalled.
use terraform_provider_tunne.Base.{
  ℕ, zero, suc, ◌≡◌, refl, ap, false, inl, inr, Option, none, some, List, [], ◌∷◌, take, arith,
}
use terraform_provider_tunne.Errors.{Error, ok}
use terraform_provider_tunne.Effects.{Happened, not_in_part}
use terraform_provider_tunne.GoText.{Text, lit, is_empty, or_default, itoa, join_host_port}
use terraform_provider_tunne.Ssh.Tunnel.{
  TunnelConfig, target_endpoint, ssh_addr, local_addr, Effect, notify, dial_bastion, listen,
  open_probe, signal_ready, Calls, run_tunnel, start_remote_tunnel,
}

-- The bastion is connected, the local port bound, and the target reached.
abbrev pub IsUp : TunnelConfig → List Effect → Type 0
IsUp cfg es =
    Happened (dial_bastion (ssh_addr cfg)) es
    × Happened (listen (local_addr cfg)) es
    × Happened (open_probe (target_endpoint cfg).0 (target_endpoint cfg).1) es

-- A run that signals readiness has come up before.
IsUp-by_signal :
    (cfg : TunnelConfig) (n : ℕ) (es : List Effect)
    → let all =
        notify
        ∷ dial_bastion (ssh_addr cfg)
        ∷ listen (local_addr cfg)
        ∷ open_probe (target_endpoint cfg).0 (target_endpoint cfg).1
        ∷ es in
      Happened signal_ready (take n all) → IsUp cfg (take n all)
IsUp-by_signal cfg zero es h = elim h [ ]
IsUp-by_signal cfg (suc zero) es h = ground arith
IsUp-by_signal cfg (suc (suc zero)) es h = ground arith
IsUp-by_signal cfg (suc (suc (suc zero))) es h = ground arith
IsUp-by_signal cfg (suc (suc (suc (suc n)))) es h =
    (inr (inl refl), inr (inr (inl refl)), inr (inr (inr (inl refl))))

-- One clause for each call that may fail.
signalled :
    (cfg : TunnelConfig) (w a g l p s v : Option Error) (n : ℕ)
    → let es =
        take n
          (start_remote_tunnel (ok cfg) w (record {
            client_config = a;
            get_client = g;
            listen_error = l;
            probe_error = p;
            signal_error = s;
            serve_error = v;
          })).0 in
      Happened signal_ready es → IsUp cfg es
unfolding start_remote_tunnel run_tunnel
signalled cfg (some x) a g l p s v n h =
    elim (not_in_part signal_ready n _ (λ k. ground arith) h) [ ]
signalled cfg none (some x) g l p s v n h =
    elim (not_in_part signal_ready n _ (λ k. ground arith) h) [ ]
signalled cfg none none (some x) l p s v n h =
    elim (not_in_part signal_ready n _ (λ k. ground arith) h) [ ]
signalled cfg none none none (some x) p s v n h =
    elim (not_in_part signal_ready n _ (λ k. ground arith) h) [ ]
signalled cfg none none none none (some x) s v n h =
    elim (not_in_part signal_ready n _ (λ k. ground arith) h) [ ]
signalled cfg none none none none none (some x) v n h = IsUp-by_signal cfg n _ h
signalled cfg none none none none none none (some x) n h = IsUp-by_signal cfg n _ h
signalled cfg none none none none none none none n h = IsUp-by_signal cfg n _ h

-- At any time at which the child has signalled readiness, it is connected to the bastion, has bound
-- its local address and has reached its target.
pub signalled-IsUp :
    (cfg : TunnelConfig) (watch : Option Error) (c : Calls) (n : ℕ)
    → let es = take n (start_remote_tunnel (ok cfg) watch c).0 in
      Happened signal_ready es → IsUp cfg es
signalled-IsUp cfg watch c n h =
    signalled cfg watch c.client_config c.get_client c.listen_error c.probe_error c.signal_error
      c.serve_error n h

-- The local address of a configuration with a local host.
pub local_addr-set :
    (cfg : TunnelConfig)
    → is_empty cfg.local_host ≡ false
    → local_addr cfg ≡ join_host_port cfg.local_host (itoa cfg.local_port)
unfolding local_addr
local_addr-set cfg e =
    ap (λ h. join_host_port h (itoa cfg.local_port)) (or_default-set cfg.local_host e)
  where
    or_default-set : (h : Text) → is_empty h ≡ false → or_default h (lit "localhost") ≡ h
    or_default-set [] e = cc
    or_default-set (c ∷ h) e = refl
