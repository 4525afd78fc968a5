-- ===== src/Libs/Fork/Environment.antt =====
-- internal/libs/fork.go: what the child finds in its environment and in its arguments.
use terraform_provider_tunne.Base.{◌≡◌, refl, [], ◌∷◌, ◌++◌, if◌then◌else◌}
use terraform_provider_tunne.GoText.{Text, text_eq}
use terraform_provider_tunne.Libs.Fork.{
  Environ, getenv_from, getenv, ForkCalls, command, tunnel_type_env, tunnel_conf_env,
  tunnel_ready_env,
}

getenv_from-append :
    (found k : Text) (m n : Environ)
    → getenv_from found k (m ++ n) ≡ getenv_from (getenv_from found k m) k n
unfolding getenv_from
getenv_from-append found k [] n = refl
getenv_from-append found k ((j, v) ∷ m) n =
    getenv_from-append (if text_eq j k then v else found) k m n

module _ (t conf path : Text) (c : ForkCalls) where
  child_type : getenv tunnel_type_env (command t conf path c).env ≡ t
  unfolding getenv command
  child_type = getenv_from-append [] tunnel_type_env c.environ _

  child_conf : getenv tunnel_conf_env (command t conf path c).env ≡ conf
  unfolding getenv command
  child_conf = getenv_from-append [] tunnel_conf_env c.environ _

  child_ready : getenv tunnel_ready_env (command t conf path c).env ≡ path
  unfolding getenv command
  child_ready = getenv_from-append [] tunnel_ready_env c.environ _

  -- The child finds the tunnel's type, its configuration and the path of the marker under their
  -- names, whatever environment the provider itself has inherited, tunnel variables included.
  pub command-getenv :
      (getenv tunnel_type_env (command t conf path c).env ≡ t)
      × (getenv tunnel_conf_env (command t conf path c).env ≡ conf)
      × (getenv tunnel_ready_env (command t conf path c).env ≡ path)
  command-getenv = (child_type, child_conf, child_ready)
