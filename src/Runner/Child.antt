-- ===== src/Runner/Child.antt =====
-- main.go and internal/runner/tunnel.go with the four functions StartRemoteTunnel: what a process of
-- the binary runs. What json.Unmarshal makes of a configuration is a parameter.
pub mod Command
mod Tests
use terraform_provider_tunne.Base.{Option, none, some, ℤ}
use terraform_provider_tunne.Errors.{Error, Result, ok, err}
use terraform_provider_tunne.Effects.{Run}
use terraform_provider_tunne.GoText.{Text}
use terraform_provider_tunne.Runner.{
  Tunnel, azure_bastion, ssh, ssm, kubernetes, Start, Main, serve_provider, run_tunnel,
}
use terraform_provider_tunne.Ssh.Tunnel as SshTunnel
use terraform_provider_tunne.Kubernetes.Config as KubernetesConfig
use terraform_provider_tunne.Kubernetes.Tunnel as KubernetesTunnel
use terraform_provider_tunne.AzureBastion.Config as BastionConfig
use terraform_provider_tunne.AzureBastion.Tunnel as BastionTunnel
use terraform_provider_tunne.Ssm.Session as SsmSession
use terraform_provider_tunne.Ssm.Tunnel as SsmTunnel
use terraform_provider_tunne.Ssm.Tunnel.Start as SsmStart

-- json.Unmarshal at the four types of configuration.
pub record Decoders : Type 0 where
  pub bastion_json : Text → Result BastionConfig.TunnelConfig
  pub ssh_json : Text → Result SshTunnel.TunnelConfig
  pub ssm_json : Text → Result SsmSession.TunnelConfig
  pub kubernetes_json : Text → Result KubernetesConfig.TunnelConfig

-- What the calls of the child answer; `watch` is WatchProcess for a parent's PID.
pub record ChildCalls : Type 0 where
  pub watch : ℤ → Option Error
  pub bastion_library : BastionConfig.Library
  pub bastion_calls : BastionTunnel.Calls
  pub ssh_calls : SshTunnel.Calls
  pub ssm_calls : SsmTunnel.ChildCalls
  pub kubernetes_calls : KubernetesTunnel.Calls

-- What a process runs.
pub data Running : Type 0 where
  provider : Running
  refused : Error → Running
  runs_bastion : Run BastionTunnel.Effect (Unit {0}) → Running
  runs_ssh : Run SshTunnel.Effect (Unit {0}) → Running
  runs_ssm : Run SsmStart.ChildEffect (Unit {0}) → Running
  runs_kubernetes : Run KubernetesTunnel.Effect (Unit {0}) → Running

module _ (json : Decoders) (k : ChildCalls) where
  -- The call of the package's StartRemoteTunnel, with the JSON text and the parent's PID.
  call_start : Tunnel → Text → ℤ → Running
  call_start azure_bastion conf pid = runs_bastion (
      BastionTunnel.start_decoded k.bastion_library (json.bastion_json conf)
        (record k.bastion_calls { watch = k.watch pid }))
  call_start ssh conf pid =
      runs_ssh (SshTunnel.start_remote_tunnel (json.ssh_json conf) (k.watch pid) k.ssh_calls)
  call_start ssm conf pid = runs_ssm (
      SsmStart.start_remote_tunnel (json.ssm_json conf)
        (record k.ssm_calls { watch = k.watch pid }))
  call_start kubernetes conf pid = runs_kubernetes (
      KubernetesTunnel.start_remote_tunnel (json.kubernetes_json conf) (k.watch pid)
        k.kubernetes_calls)

  started : Result Start → Running
  unfolding call_start
  started (err e) = refused e
  started (ok s) = call_start s.tunnel s.config_json s.parent_pid

  -- What `main` has come to.
  pub running : Main → Running
  unfolding started
  running serve_provider = provider
  running (run_tunnel r) = started r
