-- ===== src/Runner/Child/Command.antt =====
-- From the provider's fork to the tunnel: internal/libs/fork.go, main.go, internal/runner and the four
-- functions StartRemoteTunnel together.
use terraform_provider_tunne.Base.{◌≡◌, refl, ◌∙◌, ap, false, none, ℤ}
use terraform_provider_tunne.Errors.{ok}
use terraform_provider_tunne.Effects.{◌>>◌, ask, result_of}
use terraform_provider_tunne.GoText.{Text, is_empty}
use terraform_provider_tunne.GoText.Decimal.{IsInt64}
use terraform_provider_tunne.Libs.Fork.{ForkCalls, command}
use terraform_provider_tunne.Runner.{Tunnel, azure_bastion, ssh, ssm, kubernetes, tunnel_type, main}
use terraform_provider_tunne.Runner.Dispatch.{main-command}
use terraform_provider_tunne.Runner.Child.{
  Decoders, ChildCalls, Running, runs_bastion, runs_ssh, runs_ssm, runs_kubernetes, call_start,
  running,
}
use terraform_provider_tunne.Ssh.Tunnel as SshTunnel
use terraform_provider_tunne.Kubernetes.Config as KubernetesConfig
use terraform_provider_tunne.Kubernetes.Tunnel as KubernetesTunnel
use terraform_provider_tunne.AzureBastion.Config as BastionConfig
use terraform_provider_tunne.AzureBastion.Tunnel as BastionTunnel
use terraform_provider_tunne.Ssm.Session as SsmSession
use terraform_provider_tunne.Ssm.Tunnel.Start as SsmStart

-- A configuration of one of the four types.
pub data Config : Type 0 where
  bastion_config : BastionConfig.TunnelConfig → Config
  ssh_config : SshTunnel.TunnelConfig → Config
  ssm_config : SsmSession.TunnelConfig → Config
  kubernetes_config : KubernetesConfig.TunnelConfig → Config

abbrev pub tunnel_of : Config → Tunnel
tunnel_of (bastion_config cfg) = azure_bastion
tunnel_of (ssh_config cfg) = ssh
tunnel_of (ssm_config cfg) = ssm
tunnel_of (kubernetes_config cfg) = kubernetes

-- The text is the JSON of the configuration.
abbrev pub Decodes : Decoders → Text → Config → Type 0
Decodes json conf (bastion_config cfg) = json.bastion_json conf ≡ ok cfg
Decodes json conf (ssh_config cfg) = json.ssh_json conf ≡ ok cfg
Decodes json conf (ssm_config cfg) = json.ssm_json conf ≡ ok cfg
Decodes json conf (kubernetes_config cfg) = json.kubernetes_json conf ≡ ok cfg

-- The tunnel of a configuration, with its parent watched.
abbrev pub tunnel_run : ChildCalls → ℤ → Config → Running
tunnel_run k pid (bastion_config cfg) = runs_bastion (
    BastionTunnel.start_remote_tunnel k.bastion_library cfg
      (record k.bastion_calls { watch = k.watch pid }))
tunnel_run k pid (ssh_config cfg) =
    runs_ssh (ask (result_of (k.watch pid)) >> SshTunnel.run_tunnel cfg k.ssh_calls)
tunnel_run k pid (ssm_config cfg) =
    runs_ssm (SsmStart.with_config cfg (record k.ssm_calls { watch = k.watch pid }))
tunnel_run k pid (kubernetes_config cfg) =
    runs_kubernetes
      (ask (result_of (k.watch pid)) >> KubernetesTunnel.run_tunnel cfg k.kubernetes_calls)

call_start-tunnel_run :
    (json : Decoders) (k : ChildCalls) (conf : Text) (pid : ℤ) (cfg : Config)
    → Decodes json conf cfg
    → call_start json k (tunnel_of cfg) conf pid ≡ tunnel_run k pid cfg
unfolding call_start SshTunnel.start_remote_tunnel KubernetesTunnel.start_remote_tunnel
    BastionTunnel.start_decoded SsmStart.start_remote_tunnel
call_start-tunnel_run json k conf pid (bastion_config cfg) h = rw h refl
call_start-tunnel_run json k conf pid (ssh_config cfg) h = rw h refl
call_start-tunnel_run json k conf pid (ssm_config cfg) h = rw h refl
call_start-tunnel_run json k conf pid (kubernetes_config cfg) h = rw h refl

-- The process that ForkTunnel starts for a configuration runs the tunnel of just that configuration,
-- of its type, and watches the process that `os.Getppid` named to ForkTunnel, whatever environment it
-- inherits; that holds for a text that is not empty and that json.Unmarshal decodes to the
-- configuration that it was made from, and for a PID of 64 bits.
pub command-runs :
    (json : Decoders) (k : ChildCalls) (cfg : Config) (conf path : Text) (c : ForkCalls)
    → Decodes json conf cfg
    → is_empty conf ≡ false
    → IsInt64 c.parent_pid
    → let cmd = command (tunnel_type (tunnel_of cfg)) conf path c in
      running json k (main (record { env = cmd.env; args = cmd.args; unsetenv = none }))
      ≡ tunnel_run k c.parent_pid cfg
unfolding running
command-runs json k cfg conf path c d n h =
    ap (running json k) (main-command (tunnel_of cfg) conf path c n h)
    ∙ call_start-tunnel_run json k conf c.parent_pid cfg d
