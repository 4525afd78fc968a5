-- ===== src/Libs/Fork.antt =====
-- internal/libs/fork.go, log.go and const.go: starting a tunnel process and waiting until it is
-- ready. `filepath.Join` is modelled without the cleaning of its result.
pub mod Cleanup
pub mod Environment
mod Tests
use terraform_provider_tunne.Base.{
  ℕ, Bool, true, false, Option, none, some, List, [], ◌∷◌, ◌++◌, if◌then◌else◌, ℤ,
}
use terraform_provider_tunne.Errors.{Error, wrap, check_log, Result, ok, err}
use terraform_provider_tunne.GoText.{Text, lit, text_eq, itoa, or_default}
use terraform_provider_tunne.Effects.{Run, ◌>>=◌, ◌>>◌, acquire, ask, defer, result_of}
use terraform_provider_tunne.Libs.Watch.{ReadyWait, wait_for_ready_file}

abbrev pub tunnel_type_env : Text
tunnel_type_env = lit "DFNS_TERRAFORM_TUNNEL_TYPE"

abbrev pub tunnel_conf_env : Text
tunnel_conf_env = lit "DFNS_TERRAFORM_TUNNEL_CONF"

abbrev pub tunnel_ready_env : Text
tunnel_ready_env = lit "DFNS_TERRAFORM_TUNNEL_READY"

abbrev pub tunnel_log_dir_env : Text
tunnel_log_dir_env = lit "DFNS_TERRAFORM_TUNNEL_LOG_DIR"

abbrev pub Environ : Type 0
Environ = List (Text × Text)

-- `os.Getenv` in a process that was started with this `cmd.Env`: of several values of one name the
-- last one counts, and a name with no value gives "".
pub getenv_from : Text → Text → Environ → Text
getenv_from found k [] = found
getenv_from found k ((j, v) ∷ m) = getenv_from (if text_eq j k then v else found) k m

unfoldable pub getenv : Text → Environ → Text
unfolding getenv_from text_eq
getenv k m = getenv_from [] k m

abbrev pub path_join : Text → Text → Text
path_join dir name = dir ++ (lit "/" ++ name)

-- `TunnelLogPath`, where `temp` is `os.TempDir()`.
pub tunnel_log_path : Environ → Text → Text → Text
unfolding getenv
tunnel_log_path env temp name = path_join (or_default (getenv tunnel_log_dir_env env) temp) name

pub record Command : Type 0 where
  pub args : List Text
  pub env : Environ

pub data Effect : Type 0 where
  open_log : Text → Effect
  close_log : Effect
  make_ready_dir remove_ready_dir : Text → Effect
  start : Command → ℕ → Effect
  kill wait : ℕ → Effect

-- What the calls of `ForkTunnel` answer.
pub record ForkCalls : Type 0 where
  pub config_json : Result Text  -- json.Marshal(cfg)
  pub open_file : Option Error
  pub mkdir_temp : Result Text
  pub ctx_err : Option Error
  pub start_pid : Result ℕ  -- cmd.Start(), and cmd.Process.Pid
  pub ready : ReadyWait
  pub environ : Environ
  pub temp_dir : Text
  pub executable : Text  -- os.Args[0]
  pub parent_pid : ℤ  -- os.Getppid()

-- `cmd` as `ForkTunnel` builds it.
unfoldable pub command : Text → Text → Text → ForkCalls → Command
command tunnel_type config_json ready_path c = record {
  args = c.executable ∷ itoa c.parent_pid ∷ [];
  env =
      c.environ
      ++ (tunnel_type_env, tunnel_type)
        ∷ (tunnel_conf_env, config_json)
        ∷ (tunnel_ready_env, ready_path)
        ∷ [];
}

-- Failed startup must not leave a child that can bind the port later.
after_wait : ℕ → Option Error → Run Effect ℕ
after_wait pid none = ask (ok pid)
after_wait pid (some e) = (kill pid ∷ wait pid ∷ [], err (wrap check_log e))

-- `cmd.Start()`
started : Command → Result ℕ → Run Effect ℕ
started cmd (ok pid) = (start cmd pid ∷ [], ok pid)
started cmd (err e) = ([], err e)

-- `os.MkdirTemp`
with_dir : Result Text → Run Effect Text
with_dir (ok dir) = (make_ready_dir dir ∷ [], ok dir)
with_dir (err e) = ([], err e)

launch : Command → ForkCalls → Run Effect ℕ
unfolding after_wait started
launch cmd c = do
  ask (result_of c.ctx_err)
  pid ← started cmd c.start_pid
  after_wait pid (wait_for_ready_file c.ready)

unfoldable pub fork_tunnel : Text → Text → ForkCalls → Run Effect ℕ
unfolding launch with_dir
fork_tunnel tunnel_type log_name c = do
  config_json ← ask c.config_json
  acquire (open_log (tunnel_log_path c.environ c.temp_dir log_name)) (result_of c.open_file)
  defer close_log (do
    dir ← with_dir c.mkdir_temp
    defer (remove_ready_dir dir)
        (launch (command tunnel_type config_json (path_join dir (lit "ready")) c) c))
