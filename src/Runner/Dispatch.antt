-- ===== src/Runner/Dispatch.antt =====
-- main.go, internal/runner/tunnel.go and internal/libs/fork.go together.
use terraform_provider_tunne.Base.{◌≡◌, refl, ◌∙◌, ap, false, none, [], ◌∷◌, arith, ℤ}
use terraform_provider_tunne.Errors.{ok}
use terraform_provider_tunne.GoText.{Text, text_eq, is_empty, itoa}
use terraform_provider_tunne.GoText.Decimal.{IsInt64, atoi-itoa}
use terraform_provider_tunne.GoText.Equality.{eq_of_text_eq}
use terraform_provider_tunne.Libs.Fork.{getenv, ForkCalls, command, tunnel_conf_env}
use terraform_provider_tunne.Libs.Fork.Environment.{command-getenv}
use terraform_provider_tunne.Runner.{
  Tunnel, azure_bastion, ssh, ssm, kubernetes, tunnel_type, Process, Start, parse_args,
  select_tunnel, parent_pid_of, start_tunnel, run_tunnel, main_of, main,
}

select-tunnel_type : (t : Tunnel) → select_tunnel (tunnel_type t) ≡ ok t
unfolding select_tunnel text_eq
select-tunnel_type azure_bastion = refl
select-tunnel_type ssh = refl
select-tunnel_type ssm = refl
select-tunnel_type kubernetes = refl

select_sound : (s : Text) (t : Tunnel) → select_tunnel s ≡ ok t → s ≡ tunnel_type t
unfolding select_tunnel
select_sound s t h = ground (
  arith,
  eq_of_text_eq s (tunnel_type azure_bastion),
  eq_of_text_eq s (tunnel_type ssh),
  eq_of_text_eq s (tunnel_type ssm),
  eq_of_text_eq s (tunnel_type kubernetes),
)

parse_args-pid : (a : Text) (pid : ℤ) → IsInt64 pid → parse_args (a ∷ itoa pid ∷ []) ≡ ok pid
unfolding parse_args
parse_args-pid a pid h = ap parent_pid_of (atoi-itoa pid h)

start_tunnel_of :
    (t : Tunnel) (conf : Text) (pid : ℤ) (p : Process)
    → getenv tunnel_conf_env p.env ≡ conf
    → is_empty conf ≡ false
    → p.unsetenv ≡ none
    → parse_args p.args ≡ ok pid
    → start_tunnel (tunnel_type t) p
      ≡ ok (record { tunnel = t; config_json = conf; parent_pid = pid })
unfolding start_tunnel
start_tunnel_of t conf pid p e n u a = ground (arith, select-tunnel_type t)

main_of-tunnel_type :
    (t : Tunnel) (p : Process)
    → main_of (tunnel_type t) p ≡ run_tunnel (start_tunnel (tunnel_type t) p)
unfolding main_of
main_of-tunnel_type azure_bastion p = refl
main_of-tunnel_type ssh p = refl
main_of-tunnel_type ssm p = refl
main_of-tunnel_type kubernetes p = refl

-- The process that ForkTunnel starts for a tunnel runs that tunnel, with the configuration and the
-- parent's PID that ForkTunnel was given, whatever environment it inherits; that holds for each of
-- the four types, a configuration that is not empty and a PID of 64 bits.
pub main-command :
    (t : Tunnel) (conf path : Text) (c : ForkCalls)
    → is_empty conf ≡ false
    → IsInt64 c.parent_pid
    → let cmd = command (tunnel_type t) conf path c in
      main (record { env = cmd.env; args = cmd.args; unsetenv = none })
      ≡ run_tunnel (ok (record { tunnel = t; config_json = conf; parent_pid = c.parent_pid }))
unfolding main command
main-command t conf path c n h =
    let cmd = command (tunnel_type t) conf path c in
    let p : Process = record { env = cmd.env; args = cmd.args; unsetenv = none } in
    let found = command-getenv (tunnel_type t) conf path c in
    ap (λ s. main_of s p) found.0
    ∙ main_of-tunnel_type t p
    ∙ ap run_tunnel (
        start_tunnel_of t conf c.parent_pid p found.1 n refl
          (parse_args-pid c.executable c.parent_pid h))

-- The process starts a tunnel only with a configuration, a parent's PID that is a number, and a
-- type that is one of the four; it starts the tunnel of that type with just these.
pub start_tunnel-eq-ok :
    (tun : Text) (p : Process) (s : Start)
    → start_tunnel tun p ≡ ok s
    → (tun ≡ tunnel_type s.tunnel)
      × (s.config_json ≡ getenv tunnel_conf_env p.env)
      × (is_empty s.config_json ≡ false)
      × (parse_args p.args ≡ ok s.parent_pid)
unfolding start_tunnel
start_tunnel-eq-ok tun p s h =
    (select_sound tun s.tunnel (ground arith), ground arith, ground arith, ground arith)
