-- ===== src/Ssh/Auth/Selection.antt =====
-- internal/ssh/auth.go: which methods are chosen.
use terraform_provider_tunne.Base.{
  ℕ, ◌≡◌, ◌↔◌, sym, ◌∙◌, refl, ◌⊎◌, inl, inr, true, false, Option, none, some, List, [], ◌∷◌, arith,
  All,
}
use terraform_provider_tunne.Errors.{is_ok, message, no_credentials, Result, ok, err}
use terraform_provider_tunne.GoText.{Text, text_eq, is_empty}
use terraform_provider_tunne.GoText.Equality.{eq_of_text_eq, text_eq_refl}
use terraform_provider_tunne.Ssh.Tunnel.{TunnelConfig}
use terraform_provider_tunne.Ssh.Auth.{
  default_key_names, home, keys_method, KeyParser, System, AuthMethod, public_keys, password,
  agent_callback, parse_configured_key, try_key, usable_keys, default_keys, agent_keys, or_implicit,
  key_method, methods_for, configured_key, auth_methods, AgentKey, SignRequest, with_algorithm,
  plain, find_signer, sign_with_algorithm,
}

-- Offered because the configuration holds this key or this password.
abbrev pub IsConfigured : Text → Text → AuthMethod → Type 0
IsConfigured key pass (public_keys signers) = is_empty key ≡ false
IsConfigured key pass (password p) = (p ≡ pass) × (is_empty p ≡ false)
IsConfigured key pass (agent_callback socket) = ⊥

abbrev OkAll : (AuthMethod → Type 0) → Result (List AuthMethod) → Type 0
OkAll P (err e) = Unit
OkAll P (ok ms) = All P ms

OkAll-ok :
    (P : AuthMethod → Type 0) (r : Result (List AuthMethod)) {ms : List AuthMethod}
    → r ≡ ok ms
    → OkAll P r
    → All P ms
OkAll-ok P (err e) h a = cc
OkAll-ok P (ok ms) h a = ground arith

abbrev Found : List Text → Option Text → List Text → Type 0
Found rest none signers = signers ≡ rest
Found rest (some s) signers = signers ≡ s ∷ rest

module _ (parser : KeyParser) (sys : System) where
  key_only :
      (c : ℕ) (key pass : Text) (r : Result Text)
      → OkAll (IsConfigured (c ∷ key) pass) (methods_for parser sys pass (key_method parser sys r))
  unfolding methods_for key_method
  key_only c key [] (err e) = tt
  key_only c key (d ∷ pass) (err e) = tt
  key_only c key [] (ok signer) = (refl, tt)
  key_only c key (d ∷ pass) (ok signer) = (refl, ((refl, refl), tt))

  explicit_ok :
      (key phrase pass : Text)
      → (is_empty key ≡ false) ⊎ (is_empty pass ≡ false)
      → OkAll
          (IsConfigured key pass)
          (methods_for parser sys pass (configured_key parser sys key phrase))
  unfolding configured_key
  explicit_ok (c ∷ key) phrase pass h =
      key_only c key pass (parse_configured_key parser sys (c ∷ key) phrase)
  explicit_ok [] phrase [] h = ground arith
  explicit_ok [] phrase (d ∷ pass) h = unfold methods_for in ((refl, refl), tt)

  -- Once the configuration holds a key or a password, only these are offered: neither the keys in
  -- ~/.ssh nor those of the agent, whatever the system has.
  pub explicit_only :
      (cfg : TunnelConfig) {ms : List AuthMethod}
      → (is_empty cfg.ssh_key ≡ false) ⊎ (is_empty cfg.ssh_password ≡ false)
      → auth_methods parser sys cfg ≡ ok ms
      → All (IsConfigured cfg.ssh_key cfg.ssh_password) ms
  unfolding auth_methods
  explicit_only cfg h e =
      OkAll-ok _ _ e (explicit_ok cfg.ssh_key cfg.ssh_key_passphrase cfg.ssh_password h)

  implicit_fails :
      or_implicit parser sys [] ≡ err (message no_credentials)
      → (default_keys parser sys ≡ none) × (agent_keys parser sys ≡ none)
  unfolding or_implicit
  implicit_fails h = ground arith

  implicit_of_none :
      default_keys parser sys ≡ none
      → agent_keys parser sys ≡ none
      → or_implicit parser sys [] ≡ err (message no_credentials)
  unfolding or_implicit
  implicit_of_none d a = ground arith

  no_key_usable :
      (home : Text) (names : List Text)
      → usable_keys parser sys home names ≡ []
      → All (λ name. try_key parser sys home name ≡ none) names
  unfolding usable_keys
  no_key_usable home [] h = tt
  no_key_usable home (n ∷ names) h = ground (arith, no_key_usable home names)

  All-unusable :
      (home : Text) (names : List Text)
      → All (λ name. try_key parser sys home name ≡ none) names
      → usable_keys parser sys home names ≡ []
  unfolding usable_keys
  All-unusable home [] h = refl
  All-unusable home (n ∷ names) h = ground (arith, All-unusable home names h.1)

  default_keys-none :
      (default_keys parser sys ≡ none)
      ↔ All (λ name. try_key parser sys (home parser sys) name ≡ none) default_key_names
  unfolding default_keys
  default_keys-none = (
    λ h. no_key_usable (home parser sys) default_key_names (keys_method-none _ h),
    λ h. rw (All-unusable (home parser sys) default_key_names h),
  )
    where
      keys_method-none : (ss : List Text) → keys_method parser sys ss ≡ none → ss ≡ []
      keys_method-none [] e = refl
      keys_method-none (x ∷ xs) e = cc

  unconfigured :
      (key phrase pass : Text)
      → is_empty key ≡ true
      → is_empty pass ≡ true
      → methods_for parser sys pass (configured_key parser sys key phrase)
        ≡ or_implicit parser sys []
  unfolding methods_for configured_key
  unconfigured [] phrase [] k p = refl
  unconfigured [] phrase (d ∷ pass) k p = cc
  unconfigured (c ∷ key) phrase pass k p = cc

  -- With neither a key nor a password configured, the methods are refused for want of credentials
  -- exactly if each of the five default keys cannot be read or parsed and no agent answers.
  pub no_credentials_iff :
      (cfg : TunnelConfig)
      → is_empty cfg.ssh_key ≡ true
      → is_empty cfg.ssh_password ≡ true
      → (auth_methods parser sys cfg ≡ err (message no_credentials)) ↔ (
          All (λ name. try_key parser sys (home parser sys) name ≡ none) default_key_names
          × (agent_keys parser sys ≡ none))
  unfolding auth_methods
  no_credentials_iff cfg k p =
      let e = unconfigured cfg.ssh_key cfg.ssh_key_passphrase cfg.ssh_password k p in
      (
        λ h. let (d, a) = implicit_fails (sym e ∙ h) in (default_keys-none.0 d, a),
        λ h. e ∙ implicit_of_none (default_keys-none.1 h.0) h.1,
      )

pub key_of : SignRequest → Text
key_of (with_algorithm k) = k
key_of (plain k) = k

found_key :
    (p : Text) (ks : List AgentKey) (r : SignRequest) → find_signer p ks ≡ ok r → key_of r ≡ p
unfolding find_signer key_of
found_key p [] r h = cc
found_key p (k ∷ ks) r h = ground (arith, eq_of_text_eq k.public_key p, found_key p ks r)

-- Some key of the agent has this public key.
abbrev pub Offers : Text → List AgentKey → Type 0
Offers p [] = ⊥
Offers p (k ∷ ks) = (k.public_key ≡ p) ⊎ Offers p ks

offered : (p : Text) (ks : List AgentKey) → Offers p ks → is_ok (find_signer p ks) ≡ true
unfolding find_signer
offered p [] h = elim h [ ]
offered p (k ∷ ks) (inl e) = ground (arith, text_eq_of k.public_key p e)
  where
    text_eq_of : (a b : Text) → a ≡ b → text_eq a b ≡ true
    text_eq_of a b x = rw x (text_eq_refl b)
offered p (k ∷ ks) (inr h) = ground (arith, offered p ks h)

-- A signature is asked of a key of the agent only if it is the key that was offered to the server,
-- and it is asked whenever the agent, once reached, still lists that key.
pub sign_with-key :
    (p : Text) (ks : List AgentKey)
    → ((r : SignRequest) → sign_with_algorithm p none (ok ks) ≡ ok r → key_of r ≡ p)
      × (Offers p ks → is_ok (sign_with_algorithm p none (ok ks)) ≡ true)
unfolding sign_with_algorithm
sign_with-key p ks = (found_key p ks, offered p ks)
