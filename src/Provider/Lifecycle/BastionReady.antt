-- ===== src/Provider/Lifecycle/BastionReady.antt =====
-- internal/provider/ephemeral_azure_bastion.go, internal/libs/fork.go and watch.go, and
-- internal/azurebastion/tunnel.go together: a tunnel that Terraform is told of is up.
mod Tests
use terraform_provider_tunne.Base.{
  ℕ, ◌≡◌, refl, sym, ◌∙◌, ◌⊎◌, inl, inr, not, Option, none, some, List, [], ◌∷◌, ◌++◌, take, ℤ,
}
use terraform_provider_tunne.Errors.{Error, Result, Result-cases, ok, err}
use terraform_provider_tunne.Effects.{Happened}
use terraform_provider_tunne.GoText.{
  Text, lit, is_empty, or_default, trim_space, itoa, join_host_port,
}
use terraform_provider_tunne.Libs.Watch.Readiness.{BecomesReady}
use terraform_provider_tunne.Libs.Fork.{ForkCalls}
use terraform_provider_tunne.Libs.Fork.Cleanup.{fork_tunnel_ready}
use terraform_provider_tunne.AzureBastion.Config.{
  TunnelConfig, TunnelPlan, BastionInfo, Library, resolve,
}
use terraform_provider_tunne.AzureBastion.Tunnel.{Effect, signal_ready, Calls, start_remote_tunnel}
use terraform_provider_tunne.AzureBastion.Tunnel.Announced.{IsUp, signalled-IsUp}
use terraform_provider_tunne.Provider.{Diagnostic, Outcome, done, value_string, value_int64}
use terraform_provider_tunne.Provider.AzureBastion.{AzureBastionModel, azure_bastion_config}
use terraform_provider_tunne.Provider.AzureBastion.Validated.{azure_bastion_config-recorded}
use terraform_provider_tunne.Provider.Lifecycle.{bastion_fork, bastion_forked, bastion_open}
use terraform_provider_tunne.Provider.Lifecycle.Closing.{open_tunnel-cases}

-- What the child of each configuration meets, and how many of its effects it has had by the time at
-- which `ForkTunnel` returns.
pub record Child : Type 0 where
  pub calls : Calls
  pub so_far : ℕ

module _ (lib : Library) where
  -- The child's effects up to that time.
  abbrev pub effects_of : (TunnelConfig → Child) → TunnelConfig → List Effect
  effects_of child cfg = let k = child cfg in take k.so_far (start_remote_tunnel lib cfg k.calls).0

  -- The marker of a fork is found only after the fork's child has signalled readiness: its directory
  -- is new, and no other process is given its path.
  abbrev pub IsOwnMarker : (TunnelConfig → ForkCalls) → (TunnelConfig → Child) → Type 0
  IsOwnMarker calls child =
      (cfg : TunnelConfig) (plan : TunnelPlan)
      → resolve lib cfg ≡ ok plan
      → let ready = (calls cfg).ready in
        BecomesReady (ready.ticks ++ ready.last ∷ []) → Happened signal_ready (effects_of child cfg)

  bastion_forked-ready :
      (calls : ForkCalls) (r : Result TunnelPlan) {pid : ℕ}
      → (bastion_forked calls r).1 ≡ ok pid
      → ((plan : TunnelPlan) × (r ≡ ok plan))
        × BecomesReady (calls.ready.ticks ++ calls.ready.last ∷ [])
  unfolding bastion_forked
  bastion_forked-ready calls (err e) h = cc
  bastion_forked-ready calls (ok plan) h = ((plan, refl), (fork_tunnel_ready _ _ calls h).0)

  bastion_fork-ready :
      (calls : TunnelConfig → ForkCalls) (cfg : TunnelConfig) {pid : ℕ}
      → (bastion_fork lib calls cfg).1 ≡ ok pid
      → ((plan : TunnelPlan) × (resolve lib cfg ≡ ok plan))
        × (let ready = (calls cfg).ready in BecomesReady (ready.ticks ++ ready.last ∷ []))
  unfolding bastion_fork
  bastion_fork-ready calls cfg h = bastion_forked-ready (calls cfg) (resolve lib cfg) h

  -- When opening an Azure Bastion tunnel stores its attributes, the tunnel of their configuration is
  -- up: its process has read a Bastion host with the SKU Standard or Premium, tunneling enabled, IP
  -- Connect enabled where the tunnel uses it, and a DNS name; it has its session, and has bound the
  -- local host and port that the attributes name, the host without the spaces around it, or localhost if
  -- nothing is left. This is for children that decode the configuration that they were given, and under
  -- the condition IsOwnMarker: where the wait finds the marker of a fork, the fork's child has signalled
  -- readiness by then.
  pub bastion_open-IsUp :
      (free : Result ℤ) (calls : TunnelConfig → ForkCalls) (get : Outcome AzureBastionModel)
      (set_diags : List Diagnostic) (child : TunnelConfig → Child)
      → IsOwnMarker calls child
      → let o = bastion_open lib free calls get set_diags in
        (o.state ≡ none)
        ⊎ ((given : AzureBastionModel) × (filled : AzureBastionModel) × (cfg : TunnelConfig)
            × (o.state ≡ some filled)
            × (azure_bastion_config lib free given ≡ done (filled, cfg))
            × IsUp lib cfg (child cfg).calls (effects_of child cfg)
            × (value_string filled.local_host ≡ cfg.local_host)
            × (value_int64 filled.local_port ≡ cfg.local_port))
  unfolding bastion_open
  bastion_open-IsUp free calls get set_diags child own =
      elim (open_tunnel-cases (azure_bastion_config lib free) (bastion_fork lib calls) get
        set_diags) [
          | inr (state, stored, rest) ↦ inl state
          | inl (pid, (given, filled, cfg, configured, started, forks, state, stored)) ↦
              let (valid, host, port) =
                azure_bastion_config-recorded lib free given filled cfg configured in
              let ((plan, resolved), seen) = bastion_fork-ready calls cfg started in
              let ready = own cfg plan resolved seen in
              inr (
                given,
                filled,
                cfg,
                state,
                configured,
                signalled-IsUp lib cfg (child cfg).calls (child cfg).so_far ready,
                host,
                port,
              )
        ]
