-- ===== src/Provider/Lifecycle.antt =====
-- internal/provider/ephemeral_*.go and data_source_*.go: opening, reading and closing a tunnel. What
-- the framework reads and stores is an argument; `Private` and the state are what is given to it.
pub mod Closing
pub mod Ready
pub mod BastionReady
mod Tests
use terraform_provider_tunne.Base.{
  ℕ, Bool, true, false, Option, none, some, List, [], ◌∷◌, ◌++◌, if◌then◌else◌, ℤ, pos,
}
use terraform_provider_tunne.Errors.{Error, external, Result, ok, err}
use terraform_provider_tunne.GoText.{Text, lit, itoa, atoi}
use terraform_provider_tunne.Effects.{Run}
use terraform_provider_tunne.Libs.Watch.{interrupt}
use terraform_provider_tunne.Libs.Fork.{ForkCalls, fork_tunnel}
use terraform_provider_tunne.Libs.Fork as Fork
use terraform_provider_tunne.Ssh.Tunnel as SshTunnel
use terraform_provider_tunne.Ssm.Session as SsmSession
use terraform_provider_tunne.Ssm.Tunnel as SsmTunnel
use terraform_provider_tunne.Kubernetes.Config as KubernetesConfig
use terraform_provider_tunne.Kubernetes.Tunnel as KubernetesTunnel
use terraform_provider_tunne.AzureBastion.Config as BastionConfig
use terraform_provider_tunne.Provider.{
  Diagnostic, fork_failed, bad_tunnel_pid, terminate_failed, Outcome, failed, done,
}
use terraform_provider_tunne.Provider.Ssh.{SshModel, Host, ssh_config}
use terraform_provider_tunne.Provider.Ssm.{SsmModel, ssm_config}
use terraform_provider_tunne.Provider.Kubernetes.{KubernetesModel, kubernetes_config}
use terraform_provider_tunne.Provider.AzureBastion.{AzureBastionModel, azure_bastion_config}

-- What `Open` has done: the effects `F` of the fork, if it came to one, what it stored, and its
-- diagnostics. `Read` stores nothing under "tunnel_pid".
pub record Opened (M F : Type 0) : Type 0 where
  pub forks : Option F
  pub state : Option M
  pub tunnel_pid : Option Text
  pub diagnostics : List Diagnostic

module _ {M F : Type 0} where
  stopped : Option F → List Diagnostic → Opened M F
  stopped forks ds = record { forks = forks; state = none; tunnel_pid = none; diagnostics = ds }

  open_forked : M → List Diagnostic → F × Result ℕ → Opened M F
  unfolding stopped
  open_forked model set_diags (f, err e) = stopped (some f) (fork_failed e ∷ [])
  open_forked model set_diags (f, ok pid) = record {
    forks = some f;
    state = some model;
    tunnel_pid = some (itoa (pos pid));
    diagnostics = set_diags;
  }

  open_configured :
      {C : Type 0} → (C → F × Result ℕ) → List Diagnostic → Outcome (M × C) → Opened M F
  unfolding stopped open_forked
  open_configured fork set_diags (failed ds) = stopped none ds
  open_configured fork set_diags (done (model, cfg)) = open_forked model set_diags (fork cfg)

  -- The shape that the four methods `Open` share: `get` is req.Config.Get, and `set_diags` what
  -- resp.Result.Set answers.
  pub open_tunnel :
      {C : Type 0}
      → Outcome M
      → (M → Outcome (M × C))
      → (C → F × Result ℕ)
      → List Diagnostic
      → Opened M F
  unfolding stopped open_configured
  open_tunnel (failed ds) config fork set_diags = stopped none ds
  open_tunnel (done model) config fork set_diags = open_configured fork set_diags (config model)

  -- `Read` of the four data sources: the same, with no PID to store.
  pub read_tunnel :
      {C : Type 0}
      → Outcome M
      → (M → Outcome (M × C))
      → (C → F × Result ℕ)
      → List Diagnostic
      → Opened M F
  read_tunnel get config fork set_diags = record (open_tunnel get config fork set_diags) {
    tunnel_pid = none;
  }

-- What `Close` has done: the process that it has interrupted, and its diagnostics.
pub record Closed : Type 0 where
  pub interrupted : Option ℤ
  pub close_diagnostics : List Diagnostic

close_result : Result ℤ → Closed
close_result (err e) = record { interrupted = none; close_diagnostics = terminate_failed e ∷ [] }
close_result (ok pid) = record { interrupted = some pid; close_diagnostics = [] }

-- The error of `strconv.Atoi`.
abbrev parse_error : Error
parse_error = external 0

close_pid : (ℤ → Option Error × Option Error) → Option ℤ → Closed
unfolding close_result
close_pid calls none = record {
  interrupted = none;
  close_diagnostics = bad_tunnel_pid parse_error ∷ [];
}
close_pid calls (some pid) = close_result (interrupt calls pid)

abbrev stored : Option Text → Text
stored none = []
stored (some t) = t

-- `Close`, the same in the four; `calls` are ps.NewProcess and the signal, and a key that is not
-- stored reads as "".
pub close_tunnel : (ℤ → Option Error × Option Error) → Option Text → Closed
unfolding close_pid
close_tunnel calls tunnel_pid = close_pid calls (atoi (stored tunnel_pid))

-- `ForkRemoteTunnel` of packages ssh and kubernetes.
pub ssh_fork : (SshTunnel.TunnelConfig → ForkCalls) → SshTunnel.TunnelConfig → Run Fork.Effect ℕ
ssh_fork calls cfg = fork_tunnel (lit "ssh") (SshTunnel.log_name cfg) (calls cfg)

pub kubernetes_fork :
    (KubernetesConfig.TunnelConfig → ForkCalls) → KubernetesConfig.TunnelConfig → Run Fork.Effect ℕ
kubernetes_fork calls cfg =
    fork_tunnel (lit "kubernetes") (KubernetesTunnel.log_name cfg) (calls cfg)

-- `ForkRemoteTunnel` of package azurebastion, which resolves the configuration first.
bastion_forked : ForkCalls → Result BastionConfig.TunnelPlan → Run Fork.Effect ℕ
bastion_forked calls (err e) = ([], err e)
bastion_forked calls (ok plan) =
    fork_tunnel (lit "azure_bastion")
      (lit "azure-bastion-tunnel-"
        ++ (plan.bastion.name ++ (lit "-" ++ (itoa plan.plan_target_port ++ lit ".log"))))
      calls

pub bastion_fork :
    BastionConfig.Library
    → (BastionConfig.TunnelConfig → ForkCalls)
    → BastionConfig.TunnelConfig
    → Run Fork.Effect ℕ
unfolding bastion_forked
bastion_fork lib calls cfg = bastion_forked (calls cfg) (BastionConfig.resolve lib cfg)

-- `ForkRemoteTunnel` of package ssm: `start` is StartSession with the AWS configuration.
pub ssm_fork :
    (SsmSession.AwsConfig → SsmSession.StartSessionInput → Result SsmSession.SessionParams)
    → (SsmSession.TunnelConfig → ForkCalls)
    → SsmSession.TunnelConfig × SsmSession.AwsConfig
    → Run SsmTunnel.SsmEffect ℕ
ssm_fork start calls (cfg, aws) =
    let r =
      SsmTunnel.fork_remote_tunnel cfg (start aws (SsmSession.create_session_input cfg)) calls in
    (r.effects, r.process)

-- `SSHEphemeral.Open` and `SSHDataSource.Read`
pub ssh_open :
    Host
    → (SshTunnel.TunnelConfig → ForkCalls)
    → Outcome SshModel
    → List Diagnostic
    → Opened SshModel (List Fork.Effect)
ssh_open host calls get set_diags = open_tunnel get (ssh_config host) (ssh_fork calls) set_diags

pub ssh_read :
    Host
    → (SshTunnel.TunnelConfig → ForkCalls)
    → Outcome SshModel
    → List Diagnostic
    → Opened SshModel (List Fork.Effect)
ssh_read host calls get set_diags = read_tunnel get (ssh_config host) (ssh_fork calls) set_diags

pub kubernetes_open :
    Result ℤ
    → (KubernetesConfig.TunnelConfig → ForkCalls)
    → Outcome KubernetesModel
    → List Diagnostic
    → Opened KubernetesModel (List Fork.Effect)
kubernetes_open free calls get set_diags =
    open_tunnel get (kubernetes_config free) (kubernetes_fork calls) set_diags

pub kubernetes_read :
    Result ℤ
    → (KubernetesConfig.TunnelConfig → ForkCalls)
    → Outcome KubernetesModel
    → List Diagnostic
    → Opened KubernetesModel (List Fork.Effect)
kubernetes_read free calls get set_diags =
    read_tunnel get (kubernetes_config free) (kubernetes_fork calls) set_diags

pub bastion_open :
    BastionConfig.Library
    → Result ℤ
    → (BastionConfig.TunnelConfig → ForkCalls)
    → Outcome AzureBastionModel
    → List Diagnostic
    → Opened AzureBastionModel (List Fork.Effect)
bastion_open lib free calls get set_diags =
    open_tunnel get (azure_bastion_config lib free) (bastion_fork lib calls) set_diags

pub bastion_read :
    BastionConfig.Library
    → Result ℤ
    → (BastionConfig.TunnelConfig → ForkCalls)
    → Outcome AzureBastionModel
    → List Diagnostic
    → Opened AzureBastionModel (List Fork.Effect)
bastion_read lib free calls get set_diags =
    read_tunnel get (azure_bastion_config lib free) (bastion_fork lib calls) set_diags

-- The configuration of SSM in the shape of the others.
ssm_pair :
    Outcome (SsmModel × SsmSession.TunnelConfig × SsmSession.AwsConfig)
    → Outcome (SsmModel × (SsmSession.TunnelConfig × SsmSession.AwsConfig))
ssm_pair (failed ds) = failed ds
ssm_pair (done (model, cfg, aws)) = done (model, (cfg, aws))

pub ssm_open :
    Result ℤ
    → (SsmSession.LoadOptions → Result SsmSession.AwsConfig)
    → (SsmSession.AwsConfig → SsmSession.StartSessionInput → Result SsmSession.SessionParams)
    → (SsmSession.TunnelConfig → ForkCalls)
    → Outcome SsmModel
    → List Diagnostic
    → Opened SsmModel (List SsmTunnel.SsmEffect)
unfolding ssm_pair
ssm_open free load start calls get set_diags =
    open_tunnel get (λ m. ssm_pair (ssm_config free load m)) (ssm_fork start calls) set_diags

pub ssm_read :
    Result ℤ
    → (SsmSession.LoadOptions → Result SsmSession.AwsConfig)
    → (SsmSession.AwsConfig → SsmSession.StartSessionInput → Result SsmSession.SessionParams)
    → (SsmSession.TunnelConfig → ForkCalls)
    → Outcome SsmModel
    → List Diagnostic
    → Opened SsmModel (List SsmTunnel.SsmEffect)
unfolding ssm_pair
ssm_read free load start calls get set_diags =
    read_tunnel get (λ m. ssm_pair (ssm_config free load m)) (ssm_fork start calls) set_diags
