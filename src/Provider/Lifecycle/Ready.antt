-- ===== src/Provider/Lifecycle/Ready.antt =====
-- internal/provider/ephemeral_ssh.go, internal/libs/fork.go and watch.go, and internal/ssh/tunnel.go
-- together: a tunnel that Terraform is told of is up.
use terraform_provider_tunne.Base.{
  ℕ, ◌≡◌, sym, ◌∙◌, ◌⊎◌, inl, inr, Option, none, some, List, [], ◌∷◌, ◌++◌, take,
}
use terraform_provider_tunne.Errors.{Error, ok}
use terraform_provider_tunne.Effects.{Happened}
use terraform_provider_tunne.GoText.{lit, itoa, join_host_port}
use terraform_provider_tunne.Libs.Watch.Readiness.{BecomesReady}
use terraform_provider_tunne.Libs.Fork.{ForkCalls}
use terraform_provider_tunne.Libs.Fork.Cleanup.{fork_tunnel_ready}
use terraform_provider_tunne.Ssh.Tunnel.{
  TunnelConfig, log_name, local_addr, Effect, signal_ready, Calls, start_remote_tunnel,
}
use terraform_provider_tunne.Ssh.Tunnel.Announced.{IsUp, signalled-IsUp, local_addr-set}
use terraform_provider_tunne.Provider.{Diagnostic, Outcome, done, value_string, value_int64}
use terraform_provider_tunne.Provider.Ssh.{SshModel, Host, ssh_config}
use terraform_provider_tunne.Provider.Ssh.Target.{ssh_config-recorded}
use terraform_provider_tunne.Provider.Lifecycle.{ssh_fork, ssh_open}
use terraform_provider_tunne.Provider.Lifecycle.Closing.{open_tunnel-cases}

-- What the child of each configuration meets, and how many of its effects it has had by the time at
-- which `ForkTunnel` returns.
pub record Child : Type 0 where
  pub watch : Option Error
  pub calls : Calls
  pub so_far : ℕ

-- The child's effects up to that time.
abbrev pub effects_of : (TunnelConfig → Child) → TunnelConfig → List Effect
effects_of child cfg =
    let k = child cfg in take k.so_far (start_remote_tunnel (ok cfg) k.watch k.calls).0

-- The marker of a fork is found only after the fork's child has signalled readiness: its directory
-- is new, and no other process is given its path.
abbrev pub IsOwnMarker : (TunnelConfig → ForkCalls) → (TunnelConfig → Child) → Type 0
IsOwnMarker calls child =
    (cfg : TunnelConfig)
    → let ready = (calls cfg).ready in
      BecomesReady (ready.ticks ++ ready.last ∷ []) → Happened signal_ready (effects_of child cfg)

ssh_fork-ready :
    (calls : TunnelConfig → ForkCalls) (cfg : TunnelConfig) {pid : ℕ}
    → (ssh_fork calls cfg).1 ≡ ok pid
    → let ready = (calls cfg).ready in BecomesReady (ready.ticks ++ ready.last ∷ [])
unfolding ssh_fork
ssh_fork-ready calls cfg h = (fork_tunnel_ready (lit "ssh") (log_name cfg) (calls cfg) h).0

-- When opening an SSH tunnel stores its attributes, the tunnel of their configuration is up: its
-- process has got a client of the bastion, has bound the local host and port that the attributes name,
-- and has reached the target. This is for children that decode the configuration that they were given,
-- and under the condition IsOwnMarker: where the wait finds the marker of a fork, the fork's child has
-- signalled readiness by then.
pub ssh_open-IsUp :
    (host : Host) (calls : TunnelConfig → ForkCalls) (get : Outcome SshModel)
    (set_diags : List Diagnostic) (child : TunnelConfig → Child)
    → IsOwnMarker calls child
    → let o = ssh_open host calls get set_diags in
      (o.state ≡ none)
      ⊎ ((given : SshModel) × (filled : SshModel) × (cfg : TunnelConfig) × (o.state ≡ some filled)
          × (ssh_config host given ≡ done (filled, cfg))
          × IsUp cfg (effects_of child cfg)
          × (local_addr cfg
              ≡ join_host_port
                  (value_string filled.local_host)
                  (itoa (value_int64 filled.local_port))))
unfolding ssh_open
ssh_open-IsUp host calls get set_diags child own =
    elim (open_tunnel-cases (ssh_config host) (ssh_fork calls) get set_diags) [
      | inr (state, stored, rest) ↦ inl state
      | inl (pid, (given, filled, cfg, configured, started, forks, state, stored)) ↦
          let (h, p, sp, su, set, ssh, user) =
            ssh_config-recorded host given filled cfg configured in
          let k = child cfg in
          let ready = own cfg (ssh_fork-ready calls cfg started) in
          inr (
            given,
            filled,
            cfg,
            state,
            configured,
            signalled-IsUp cfg k.watch k.calls k.so_far ready,
            local_addr-set cfg set ∙ (λ i. join_host_port (sym h i) (itoa (sym p i))),
          )
    ]
