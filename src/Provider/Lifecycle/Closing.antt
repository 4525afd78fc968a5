-- ===== src/Provider/Lifecycle/Closing.antt =====
-- internal/provider/ephemeral_*.go: what is opened is what is closed.
use terraform_provider_tunne.Base.{
  ℕ, false, ◌≡◌, refl, sym, ap, ◌∙◌, ◌⊎◌, inl, inr, Option, none, some, List, [], ◌∷◌, ◌<◌, ◌^◌, ℤ,
  pos, to_int32-pos, arith,
}
use terraform_provider_tunne.Errors.{Error, Result, Result-cases, ok, err}
use terraform_provider_tunne.GoText.{lit, itoa}
use terraform_provider_tunne.GoText.Decimal.{atoi-itoa}
use terraform_provider_tunne.Libs.Watch.{interrupt}
use terraform_provider_tunne.Libs.Fork.{ForkCalls, fork_tunnel}
use terraform_provider_tunne.Libs.Fork as Fork
use terraform_provider_tunne.Libs.Fork.Cleanup.{
  leaves, nothing, child_of, running, fork_tunnel-leaves,
}
use terraform_provider_tunne.Ssh.Tunnel.{TunnelConfig, log_name}
use terraform_provider_tunne.Provider.{
  Diagnostic, fork_failed, Outcome, Outcome-cases, failed, done,
}
use terraform_provider_tunne.Provider.Ssh.{SshModel, Host, ssh_config}
use terraform_provider_tunne.Provider.Lifecycle.{
  Opened, open_tunnel, close_tunnel, ssh_fork, ssh_open,
}

-- A tunnel that is open: the fork for the configuration has returned the process, and its PID and
-- the model of that configuration are stored.
abbrev pub IsOpen :
    {M F C : Type 0} → (M → Outcome (M × C)) → (C → F × Result ℕ) → Opened M F → ℕ → Type 0
IsOpen {M} {F} {C} config fork o pid =
    (given : M) × (model : M) × (cfg : C) × (config given ≡ done (model, cfg))
    × ((fork cfg).1 ≡ ok pid)
    × (o.forks ≡ some (fork cfg).0)
    × (o.state ≡ some model)
    × (o.tunnel_pid ≡ some (itoa (pos pid)))

-- No tunnel is open: nothing is stored, and any fork has failed.
abbrev pub IsNotOpen : {M F C : Type 0} → (C → F × Result ℕ) → Opened M F → Type 0
IsNotOpen {M} {F} {C} fork o =
    (o.state ≡ none)
    × (o.tunnel_pid ≡ none)
    × ((o.forks ≡ none)
        ⊎ ((cfg : C) × (e : Error) × ((fork cfg).1 ≡ err e)
            × (o.forks ≡ some (fork cfg).0)
            × (o.diagnostics ≡ fork_failed e ∷ [])))

module _ {M F C : Type 0} (config : M → Outcome (M × C)) (fork : C → F × Result ℕ) where
  pub open_tunnel-cases :
      (get : Outcome M) (set_diags : List Diagnostic)
      → ((pid : ℕ) × IsOpen config fork (open_tunnel get config fork set_diags) pid)
        ⊎ IsNotOpen fork (open_tunnel get config fork set_diags)
  unfolding open_tunnel
  open_tunnel-cases (failed ds) set_diags = inr (refl, refl, inl refl)
  open_tunnel-cases (done m) set_diags = elim (Outcome-cases (config m)) [
    | inl (ds, refused) ↦ rw refused (inr (refl, refl, inl refl))
    | inr ((model, cfg), configured) ↦ elim (Result-cases (fork cfg).1) [
      | inl (e, lost) ↦ rw (configured, lost) (inr (refl, refl, inr (cfg, e, lost, refl, refl)))
      | inr (pid, started) ↦
          rw (configured, started)
            (inl (pid, (m, model, cfg, configured, started, refl, refl, refl)))
    ]
  ]

-- The answers of the system when the process is there and takes the signal.
abbrev pub Reachable : (ℤ → Option Error × Option Error) → ℕ → Type 0
Reachable calls pid = calls (pos pid) ≡ (none, none)

close_itoa :
    (calls : ℤ → Option Error × Option Error) (pid : ℕ)
    → pid < 2 ^ 31
    → Reachable calls pid
    → close_tunnel calls (some (itoa (pos pid)))
      ≡ record { interrupted = some (pos pid); close_diagnostics = [] }
unfolding close_tunnel interrupt
close_itoa calls pid small there =
    rw (atoi-itoa (pos pid) (omega arith), to_int32-pos pid small, there)

-- A tunnel that is opened has its PID and its model stored, and closing it interrupts exactly the
-- process that the fork has returned for that model's configuration; or no tunnel is opened, and
-- nothing is stored. This is for forks whose PIDs are below 2^31, so that Interrupt can narrow them to an
-- int32, and whose processes are there to be signalled when the tunnel is closed.
pub close_tunnel-open_tunnel :
    {M F C : Type 0} (config : M → Outcome (M × C)) (fork : C → F × Result ℕ) (get : Outcome M)
    (set_diags : List Diagnostic) (calls : ℤ → Option Error × Option Error)
    → ((cfg : C) (pid : ℕ) → (fork cfg).1 ≡ ok pid → (pid < 2 ^ 31) × Reachable calls pid)
    → let o = open_tunnel get config fork set_diags in
      ((pid : ℕ) × IsOpen config fork o pid
        × (close_tunnel calls o.tunnel_pid
            ≡ record { interrupted = some (pos pid); close_diagnostics = [] }))
      ⊎ IsNotOpen fork o
close_tunnel-open_tunnel config fork get set_diags calls pids =
    elim (open_tunnel-cases config fork get set_diags) [
      | inr closed ↦ inr closed
      | inl (pid, (given, model, cfg, configured, started, forks, state, stored)) ↦
          let (small, there) = pids cfg pid started in
          inl (
            pid,
            (given, model, cfg, configured, started, forks, state, stored),
            ap (close_tunnel calls) stored ∙ close_itoa calls pid small there,
          )
    ]

ssh_fork-leaves :
    (calls : TunnelConfig → ForkCalls) (cfg : TunnelConfig) (r : Result ℕ)
    → (ssh_fork calls cfg).1 ≡ r
    → leaves (ssh_fork calls cfg).0 nothing
      ≡ record { log = false; dir = false; child = child_of r }
unfolding ssh_fork
ssh_fork-leaves calls cfg r h =
    fork_tunnel-leaves (lit "ssh") (log_name cfg) (calls cfg)
    ∙ ap (λ s. record { log = false; dir = false; child = child_of s }) h

-- Opening an SSH tunnel, once it comes to the fork, leaves a running child exactly where it stores
-- that child's PID; otherwise no child, no open log file and no directory is left.
pub ssh_open-leaves :
    (host : Host) (calls : TunnelConfig → ForkCalls) (get : Outcome SshModel)
    (set_diags : List Diagnostic) (es : List Fork.Effect)
    → (ssh_open host calls get set_diags).forks ≡ some es
    → ((pid : ℕ) × ((ssh_open host calls get set_diags).tunnel_pid ≡ some (itoa (pos pid)))
        × (leaves es nothing ≡ record { log = false; dir = false; child = running pid }))
      ⊎ (((ssh_open host calls get set_diags).tunnel_pid ≡ none) × (leaves es nothing ≡ nothing))
unfolding ssh_open
ssh_open-leaves host calls get set_diags es h =
    elim (open_tunnel-cases (ssh_config host) (ssh_fork calls) get set_diags) [
      | inl (pid, (given, model, cfg, configured, started, forks, state, stored)) ↦
          let es_eq : es ≡ (ssh_fork calls cfg).0 = cc in
          inl (pid, stored, rw es_eq (ssh_fork-leaves calls cfg (ok pid) started))
      | inr (state, stored, inl unforked) ↦ elim (none-ne-some (sym unforked ∙ h)) [ ]
      | inr (state, stored, inr (cfg, e, lost, forks, said)) ↦
          let es_eq : es ≡ (ssh_fork calls cfg).0 = cc in
          inr (stored, rw es_eq (ssh_fork-leaves calls cfg (err e) lost))
    ]
  where
    none-ne-some : {A : Type 0} {a : A} → none ≡ some a → ⊥
    none-ne-some e = cc
