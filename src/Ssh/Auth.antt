-- ===== src/Ssh/Auth.antt =====
-- internal/ssh/auth.go: which credentials are offered to the bastion. What golang.org/x/crypto/ssh
-- makes of a key's text is a parameter; files, variables and the agent's answers are arguments.
pub mod Selection
pub mod Agent
mod Tests
use terraform_provider_tunne.Base.{
  ℕ, ◌*◌, ◌^◌, Bool, true, false, Option, none, some, List, [], ◌∷◌, ◌++◌, if◌then◌else◌,
}
use terraform_provider_tunne.Errors.{
  Error, message, wrap, no_credentials, read_key_file, parse_encrypted_key, parse_key,
  connect_agent, agent_dropped_key, Result, ok, err, wrap_err, ◌>>=◌,
}
use terraform_provider_tunne.GoText.{Text, lit, text_eq, is_empty, or_default}
use terraform_provider_tunne.Ssh.Tunnel.{TunnelConfig}

-- golang.org/x/crypto/ssh: a parsed key is known by its public key.
pub record KeyParser : Type 0 where
  pub parse_private_key : Text → Result Text
  pub parse_with_passphrase : Text → Text → Result Text

-- What the system answers.
pub record System : Type 0 where
  pub stat : Text → Bool  -- os.Stat succeeds
  pub read_file : Text → Result Text
  pub home_dir : Result Text
  pub auth_sock : Text  -- SSH_AUTH_SOCK
  pub agent_answers : Bool  -- the socket can be dialled

-- ssh.AuthMethod
pub data AuthMethod : Type 0 where
  public_keys : List Text → AuthMethod
  password : Text → AuthMethod
  agent_callback : Text → AuthMethod

abbrev pub default_ssh_user : Text
default_ssh_user = lit "root"

abbrev pub default_key_names : List Text
default_key_names =
    lit "id_rsa" ∷ lit "id_ecdsa" ∷ lit "id_ecdsa_sk" ∷ lit "id_ed25519" ∷ lit "id_ed25519_sk" ∷ []

-- ssh.HostKeyCallback, as far as the source has any.
pub data HostKeyCallback : Type 0 where
  insecure_ignore_host_key : HostKeyCallback

-- dialTimeout, in nanoseconds.
abbrev pub dial_timeout : ℕ
dial_timeout = 15 * 10 ^ 9

-- What is set of an ssh.ClientConfig.
pub record ClientConfig : Type 0 where
  pub user : Text
  pub auth : List AuthMethod
  pub host_key : HostKeyCallback
  pub timeout : ℕ

add_key : Option Text → List Text → List Text
add_key none rest = rest
add_key (some signer) rest = signer ∷ rest

module _ (parser : KeyParser) (sys : System) where
  open parser use {parse_private_key, parse_with_passphrase}
  open sys use {stat, read_file, home_dir, auth_sock, agent_answers}

  -- `pemBytes`: the file's content if the key names a file, the key itself otherwise.
  pem_bytes : Text → Result Text
  pem_bytes key = if stat key then wrap_err read_key_file (read_file key) else ok key

  parse_pem : Text → Text → Result Text
  parse_pem [] pem = wrap_err parse_key (parse_private_key pem)
  parse_pem (c ∷ passphrase) pem =
      wrap_err parse_encrypted_key (parse_with_passphrase pem (c ∷ passphrase))

  pub parse_configured_key : Text → Text → Result Text
  unfolding pem_bytes parse_pem
  parse_configured_key key passphrase = do pem ← pem_bytes key; parse_pem passphrase pem

  -- One of the default keys, if it can be read and parsed.
  pub try_key : Text → Text → Option Text
  try_key home name = elim (read_file (home ++ (lit "/.ssh/" ++ name))) [
    | err e ↦ none
    | ok pem ↦ elim (parse_private_key pem) [ err e ↦ none | ok signer ↦ some signer ]
  ]

  pub usable_keys : Text → List Text → List Text
  unfolding add_key
  usable_keys home [] = []
  usable_keys home (name ∷ names) = add_key (try_key home name) (usable_keys home names)

  pub home : Text
  home = elim home_dir [ err e ↦ lit "/root" | ok dir ↦ dir ]

  keys_method : List Text → Option AuthMethod
  keys_method [] = none
  keys_method (s ∷ signers) = some (public_keys (s ∷ signers))

  pub default_keys : Option AuthMethod
  unfolding home keys_method usable_keys try_key
  default_keys = keys_method (usable_keys home default_key_names)

  agent_at : Text → Option AuthMethod
  agent_at [] = none
  agent_at (c ∷ socket) = if agent_answers then some (agent_callback (c ∷ socket)) else none

  pub agent_keys : Option AuthMethod
  unfolding agent_at
  agent_keys = agent_at auth_sock

  key_method : Result Text → Result (List AuthMethod)
  key_method (err e) = err e
  key_method (ok signer) = ok (public_keys (signer ∷ []) ∷ [])

  configured_key : Text → Text → Result (List AuthMethod)
  unfolding key_method
  configured_key [] passphrase = ok []
  configured_key (c ∷ key) passphrase = key_method (parse_configured_key (c ∷ key) passphrase)

  configured_password : Text → List AuthMethod → List AuthMethod
  configured_password [] methods = methods
  configured_password (c ∷ pass) methods = methods ++ password (c ∷ pass) ∷ []

  append_method : List AuthMethod → Option AuthMethod → List AuthMethod
  append_method methods none = methods
  append_method methods (some m) = methods ++ m ∷ []

  none_left : List AuthMethod → Result (List AuthMethod)
  none_left [] = err (message no_credentials)
  none_left (m ∷ methods) = ok (m ∷ methods)

  -- The configured methods, or the implicit ones where none is configured.
  or_implicit : List AuthMethod → Result (List AuthMethod)
  unfolding append_method none_left
  or_implicit (m ∷ methods) = ok (m ∷ methods)
  or_implicit [] = none_left (append_method (append_method [] default_keys) agent_keys)

  methods_for : Text → Result (List AuthMethod) → Result (List AuthMethod)
  unfolding configured_password or_implicit
  methods_for pass (err e) = err e
  methods_for pass (ok methods) = or_implicit (configured_password pass methods)

  pub auth_methods : TunnelConfig → Result (List AuthMethod)
  unfolding configured_key methods_for
  auth_methods cfg =
      methods_for cfg.ssh_password (configured_key cfg.ssh_key cfg.ssh_key_passphrase)

  pub client_config : TunnelConfig → Result ClientConfig
  unfolding auth_methods
  client_config cfg = do
    methods ← auth_methods cfg
    ok (record {
      user = or_default cfg.ssh_user default_ssh_user;
      auth = methods;
      host_key = insecure_ignore_host_key;
      timeout = dial_timeout;
    })

-- A signer that the agent lists: its public key, and whether it is an ssh.AlgorithmSigner.
pub record AgentKey : Type 0 where
  pub public_key : Text
  pub algorithm_signer : Bool

-- What is asked of the agent's signer.
pub data SignRequest : Type 0 where
  with_algorithm plain : Text → SignRequest

pub find_signer : Text → List AgentKey → Result SignRequest
unfolding text_eq
find_signer pub_key [] = err (message agent_dropped_key)
find_signer pub_key (k ∷ ks) =
    let rest = find_signer pub_key ks in
    if text_eq k.public_key pub_key
    then ok (if k.algorithm_signer then with_algorithm k.public_key else plain k.public_key)
    else rest

-- `SignWithAlgorithm`: what dialling the agent and its `Signers` answer.
pub sign_with_algorithm : Text → Option Error → Result (List AgentKey) → Result SignRequest
unfolding find_signer
sign_with_algorithm pub_key (some e) signers = err (wrap connect_agent e)
sign_with_algorithm pub_key none signers = signers >>= find_signer pub_key
