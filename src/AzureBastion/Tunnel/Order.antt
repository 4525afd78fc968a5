-- ===== src/AzureBastion/Tunnel/Order.antt =====
-- internal/azurebastion/tunnel.go: what precedes the announcement, and what is cleaned up.
use terraform_provider_tunne.Base.{
  ◌≡◌, ◌↔◌, inl, inr, Bool, true, false, not, ◌&&◌, ◌||◌, none, List, [], ◌∷◌, arith,
}
use terraform_provider_tunne.Errors.{ok, Result-cases}
use terraform_provider_tunne.GoText.{is_empty}
use terraform_provider_tunne.AzureBastion.Config.{
  TunnelConfig, TunnelPlan, Library, BastionInfo, resolve, discover_bastion, validate_bastion,
}
use terraform_provider_tunne.AzureBastion.Tunnel.{
  Effect, open_client, close_client, close_listener, notify, stop_notify, close_server,
  signal_ready, serve, listen, Calls, serving, listening, start_remote_tunnel,
}

-- What the effects leave. `early`: readiness was signalled, or serving begun, without the session or
-- the listener.
pub record Held : Type 0 where
  pub session : Bool
  pub bound : Bool
  pub notified : Bool
  pub signalled : Bool
  pub served : Bool
  pub early : Bool

abbrev hold : Effect → Held → Held
hold open_client h = record h { session = true }
hold close_client h = record h { session = false }
hold (listen addr) h = record h { bound = true }
hold close_listener h = record h { bound = false }
hold close_server h = record h { bound = false }
hold notify h = record h { notified = true }
hold stop_notify h = record h { notified = false }
hold signal_ready h = record h { signalled = true; early = h.early || not (h.session && h.bound) }
hold serve h = record h {
  served = true;
  early = h.early || not (h.signalled && h.session && h.bound);
}

abbrev pub holds : List Effect → Held → Held
holds [] h = h
holds (e ∷ es) h = holds es (hold e h)

abbrev pub start : Held
start = record {
  session = false;
  bound = false;
  notified = false;
  signalled = false;
  served = false;
  early = false;
}

-- Whatever its calls answer, StartRemoteTunnel signals readiness and serves only with its session
-- and its listener, signals before it serves, and at its end holds no session, no listener and no
-- signal handler.
pub start_remote_tunnel-holds :
    (lib : Library) (cfg : TunnelConfig) (c : Calls)
    → let h = holds (start_remote_tunnel lib cfg c).0 start in
      (h.early ≡ false) × (h.session ≡ false) × (h.bound ≡ false) × (h.notified ≡ false)
unfolding start_remote_tunnel listening serving
start_remote_tunnel-holds lib cfg c = ground arith

-- StartRemoteTunnel comes to serve exactly if the configuration resolves, the ARM API describes a
-- Bastion host that supports the tunnel, and the watch, the clients, the session, the listener and
-- the signal work.
pub start_remote_tunnel-served :
    (lib : Library) (cfg : TunnelConfig) (c : Calls)
    → ((holds (start_remote_tunnel lib cfg c).0 start).served ≡ true) ↔ (
        (plan : TunnelPlan) × (info : BastionInfo) × (resolve lib cfg ≡ ok plan)
        × (discover_bastion c.response ≡ ok info)
        × (validate_bastion info (not (is_empty plan.hostname)) ≡ ok tt)
        × (c.watch ≡ none)
        × (c.credential ≡ none)
        × (c.client ≡ none)
        × (c.session ≡ none)
        × (c.listen_error ≡ none)
        × (c.signal_error ≡ none))
unfolding start_remote_tunnel listening serving
start_remote_tunnel-served lib cfg c = (
  λ h. elim (Result-cases (resolve lib cfg)) [
    | inl (e, refused) ↦ ground arith
    | inr (plan, resolved) ↦ elim (Result-cases (discover_bastion c.response)) [
      | inl (e, unread) ↦ ground arith
      | inr (info, read) ↦ (
        plan,
        info,
        resolved,
        read,
        ground arith,
        ground arith,
        ground arith,
        ground arith,
        ground arith,
        ground arith,
        ground arith,
      )
    ]
  ],
  λ h. ground arith,
)
