-- ===== src/Ssh/Tunnel/Order.antt =====
-- internal/ssh/tunnel.go: the order of the steps, and what is cleaned up.
use terraform_provider_tunne.Base.{
  ◌≡◌, refl, ◌↔◌, ◌⊎◌, inl, inr, Bool, true, false, not, ◌&&◌, ◌||◌, none, List, [], ◌∷◌, arith,
}
use terraform_provider_tunne.GoText.{Text, lit, is_empty, itoa, join_host_port}
use terraform_provider_tunne.Ssh.Tunnel.{
  by_socket, TunnelConfig, target_endpoint, Effect, notify, stop_notify, dial_bastion, listen,
  close_pool, close_forwarder, open_probe, close_probe, signal_ready, serve, Calls, run_tunnel,
}

-- What the effects leave. `early`: readiness was signalled, or serving was begun, before the
-- bastion was connected, the local port bound and the target reached.
pub record Held : Type 0 where
  pub notified : Bool
  pub pool_used : Bool
  pub listening : Bool
  pub probing : Bool
  pub reached : Bool
  pub signalled : Bool
  pub served : Bool
  pub early : Bool

abbrev hold : Effect → Held → Held
hold notify h = record h { notified = true }
hold stop_notify h = record h { notified = false }
hold (dial_bastion addr) h = record h { pool_used = true }
hold (listen addr) h = record h { listening = true }
hold close_pool h = record h { pool_used = false }
hold close_forwarder h = record h { listening = false }
hold (open_probe network target) h = record h { probing = true; reached = true }
hold close_probe h = record h { probing = false }
hold signal_ready h = record h {
  signalled = true;
  early = h.early || not (h.pool_used && h.listening && h.reached);
}
hold serve h = record h { served = true; early = h.early || not h.signalled || not h.listening }

abbrev pub holds : List Effect → Held → Held
holds [] h = h
holds (e ∷ es) h = holds es (hold e h)

abbrev pub start : Held
start = record {
  notified = false;
  pool_used = false;
  listening = false;
  probing = false;
  reached = false;
  signalled = false;
  served = false;
  early = false;
}

abbrev Orderly : Held → Type 0
Orderly h =
    (h.early ≡ false)
    × (h.listening ≡ false)
    × (h.probing ≡ false)
    × (h.pool_used ≡ false)
    × (h.notified ≡ false)

-- runTunnel comes to serve exactly if it gets an authentication method, a client, the local port,
-- a connection to the target and its signal through; then it returns what Serve returns.
pub run_tunnel-served :
    (cfg : TunnelConfig) (c : Calls)
    → let h = holds (run_tunnel cfg c).0 start in
      (h.served ≡ true) ↔ (
        (c.client_config ≡ none)
        × (c.get_client ≡ none)
        × (c.listen_error ≡ none)
        × (c.probe_error ≡ none)
        × (c.signal_error ≡ none))
unfolding run_tunnel
run_tunnel-served cfg c = (λ h. ground arith, λ h. ground arith)

-- The target is the unix socket whenever one is set, and the TCP address otherwise.
pub target_endpoint-eq :
    (cfg : TunnelConfig)
    → ((is_empty cfg.target_socket ≡ false)
        × (target_endpoint cfg ≡ (lit "unix", cfg.target_socket)))
      ⊎ ((is_empty cfg.target_socket ≡ true)
          × (target_endpoint cfg
              ≡ (lit "tcp", join_host_port cfg.target_host (itoa cfg.target_port))))
unfolding target_endpoint
target_endpoint-eq cfg = by_cases cfg.target_socket
  where
    by_cases :
        (s : Text)
        → ((is_empty s ≡ false) × (by_socket s cfg ≡ (lit "unix", s)))
          ⊎ ((is_empty s ≡ true)
              × (by_socket s cfg
                  ≡ (lit "tcp", join_host_port cfg.target_host (itoa cfg.target_port))))
    by_cases [] = inr (refl, refl)
    by_cases (c ∷ s) = inl (refl, refl)
