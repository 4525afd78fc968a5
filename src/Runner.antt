-- ===== src/Runner.antt =====
-- main.go and internal/runner/tunnel.go: the binary is the provider, or a tunnel when its
-- environment says so.
pub mod Dispatch
pub mod Child
mod Tests
use terraform_provider_tunne.Base.{
  Bool, true, false, Option, none, some, List, [], ◌∷◌, if◌then◌else◌, ℤ,
}
use terraform_provider_tunne.Errors.{
  Error, Result, ok, err, message, wrap, external, missing_configuration, missing_parent_pid,
  invalid_parent_pid, unknown_tunnel_type, ◌>>=◌, ◌>>◌, check, fail_if,
}
use terraform_provider_tunne.GoText.{Text, lit, text_eq, is_empty, atoi}
use terraform_provider_tunne.Libs.Fork.{Environ, getenv, tunnel_type_env, tunnel_conf_env}

pub data Tunnel : Type 0 where
  azure_bastion ssh ssm kubernetes : Tunnel

-- The constants `TunnelType` of the four packages.
abbrev pub tunnel_type : Tunnel → Text
tunnel_type azure_bastion = lit "azure_bastion"
tunnel_type ssh = lit "ssh"
tunnel_type ssm = lit "ssm"
tunnel_type kubernetes = lit "kubernetes"

-- A process of the binary: its environment, its arguments, and what `os.Unsetenv` answers.
pub record Process : Type 0 where
  pub env : Environ
  pub args : List Text
  pub unsetenv : Option Error

-- A call of a package's `StartRemoteTunnel`.
pub record Start : Type 0 where
  pub tunnel : Tunnel
  pub config_json : Text
  pub parent_pid : ℤ

-- The error of `strconv.Atoi`.
abbrev parse_error : Error
parse_error = external 0

parent_pid_of : Option ℤ → Result ℤ
parent_pid_of none = err (wrap invalid_parent_pid parse_error)
parent_pid_of (some pid) = ok pid

-- `os.Args[1]`, parsed.
pub parse_args : List Text → Result ℤ
unfolding parent_pid_of
parse_args [] = err (message missing_parent_pid)
parse_args (a ∷ []) = err (message missing_parent_pid)
parse_args (a ∷ pid ∷ rest) = parent_pid_of (atoi pid)

-- The `switch` on the tunnel's type.
select_tunnel : Text → Result Tunnel
select_tunnel tun =
    if text_eq tun (tunnel_type azure_bastion)
    then ok azure_bastion
    else if text_eq tun (tunnel_type ssh)
    then ok ssh
    else if text_eq tun (tunnel_type ssm)
    then ok ssm
    else if text_eq tun (tunnel_type kubernetes)
    then ok kubernetes
    else err (message unknown_tunnel_type)

pub start_tunnel : Text → Process → Result Start
unfolding parse_args select_tunnel
start_tunnel tun p = do
  let config_json = getenv tunnel_conf_env p.env
  fail_if (is_empty config_json) missing_configuration
  check p.unsetenv
  parent_pid ← parse_args p.args
  tunnel ← select_tunnel tun
  ok (record { tunnel = tunnel; config_json = config_json; parent_pid = parent_pid })

pub data Main : Type 0 where
  serve_provider : Main
  run_tunnel : Result Start → Main

main_of : Text → Process → Main
main_of [] p = serve_provider
main_of (c ∷ tun) p = run_tunnel (start_tunnel (c ∷ tun) p)

pub main : Process → Main
unfolding main_of
main p = main_of (getenv tunnel_type_env p.env) p
