-- ===== src/Ssh/Auth/Agent.antt =====
-- internal/ssh/auth.go: the connections to the agent, of the callback of agentKeys and of agentSigner.
mod Tests
use terraform_provider_tunne.Base.{
  ℕ, suc, ◌≡◌, refl, ap, sym, ◌∙◌, ◌⊎◌, inl, inr, Bool, true, false, Option, none, some, List, [],
  ◌∷◌, ◌++◌, map, arith, All,
}
use terraform_provider_tunne.Errors.{
  Error, connect_agent, Result, ok, err, is_ok, wrap_err, Result-cases,
}
use terraform_provider_tunne.Effects.{Run, ◌>>=◌, ◌>>◌, acquire, ask, defer, result_of}
use terraform_provider_tunne.GoText.{Text}
use terraform_provider_tunne.Ssh.Auth.{AgentKey, SignRequest, sign_with_algorithm}
use terraform_provider_tunne.Ssh.Auth.Selection.{key_of, Offers, sign_with-key}

pub data AgentEffect : Type 0 where
  connect close_conn : AgentEffect

pub record AgentSigner : Type 0 where
  pub socket : Text
  pub public_key : Text

-- The callback that agentKeys returns; `listed` is what the agent's `List` answers.
pub agent_signers : Text → Option Error → Result (List Text) → Run AgentEffect (List AgentSigner)
agent_signers socket dial listed = do
  acquire connect (result_of dial)
  defer close_conn (do
    keys ← ask listed
    ask (ok (map (λ key. record { socket = socket; public_key = key }) keys)))

-- `SignWithAlgorithm` with its connection; `Sign` is the same without an algorithm.
pub sign_connected :
    AgentSigner → Option Error → Result (List AgentKey) → Run AgentEffect SignRequest
sign_connected s dial signers = do
  acquire connect (wrap_err connect_agent (result_of dial))
  defer close_conn (ask (sign_with_algorithm s.public_key none signers))

-- A call has not reached the agent, or has closed its connection to it.
abbrev pub IsBalanced : List AgentEffect → Type 0
IsBalanced es = (es ≡ []) ⊎ (es ≡ connect ∷ close_conn ∷ [])

signers_of : (socket : Text) (keys : List Text) → List AgentSigner
signers_of socket keys = map (λ key. record { socket = socket; public_key = key }) keys

keys-signers_of :
    (socket : Text) (keys : List Text) → map (λ s. s.public_key) (signers_of socket keys) ≡ keys
unfolding signers_of
keys-signers_of socket [] = refl
keys-signers_of socket (k ∷ keys) = ap (λ ks. k ∷ ks) (keys-signers_of socket keys)

agent_signers-keys :
    (socket : Text) (dial : Option Error) (listed : Result (List Text))
    → let r = agent_signers socket dial listed in
      IsBalanced r.0
      × ((signers : List AgentSigner)
          → r.1 ≡ ok signers
          → (dial ≡ none) × (listed ≡ ok (map (λ s. s.public_key) signers)))
unfolding agent_signers signers_of
agent_signers-keys socket (some e) listed = (inl refl, λ signers h. cc)
agent_signers-keys socket none (err e) = (inr refl, λ signers h. cc)
agent_signers-keys socket none (ok keys) = (
  inr refl,
  λ signers h.
      let e : signers_of socket keys ≡ signers = cc in
      (refl, ap ok (sym (keys-signers_of socket keys) ∙ ap (map (λ s. s.public_key)) e)),
)

sign_connected-own :
    (s : AgentSigner) (dial : Option Error) (signers : Result (List AgentKey))
    → let r = sign_connected s dial signers in
      IsBalanced r.0
      × ((request : SignRequest) → r.1 ≡ ok request → key_of request ≡ s.public_key)
      × ((ks : List AgentKey)
          → dial ≡ none
          → signers ≡ ok ks
          → Offers s.public_key ks
          → is_ok r.1 ≡ true)
unfolding sign_connected sign_with_algorithm
sign_connected-own s (some e) signers = (inl refl, λ request h. cc, λ ks h l o. cc)
sign_connected-own s none (err e) = (inr refl, λ request h. cc, λ ks h l o. cc)
sign_connected-own s none (ok keys) =
    let (own, offered) = sign_with-key s.public_key keys in
    (inr refl, own, λ ks h l o. let e : ks ≡ keys = cc in offered (rw e at o))

-- The agent is asked over a connection that is closed before the call returns, both for its keys and
-- for a signature, whatever the agent answers. The signers that the callback returns are those of the keys that the agent has
-- listed, in its order; and each of them, whenever it signs later, asks only its own key for the
-- signature, and gets to ask it if the agent is reached and still offers that key.
pub agent_signers-sign :
    (socket : Text) (dial : Option Error) (listed : Result (List Text))
    → let r = agent_signers socket dial listed in
      IsBalanced r.0
      × ((signers : List AgentSigner)
          → r.1 ≡ ok signers
          → (dial ≡ none)
            × (listed ≡ ok (map (λ s. s.public_key) signers))
            × ((s : AgentSigner) (again : Option Error) (offered : Result (List AgentKey))
                → let t = sign_connected s again offered in
                  IsBalanced t.0
                  × ((request : SignRequest) → t.1 ≡ ok request → key_of request ≡ s.public_key)
                  × ((ks : List AgentKey)
                      → again ≡ none
                      → offered ≡ ok ks
                      → Offers s.public_key ks
                      → is_ok t.1 ≡ true)))
agent_signers-sign socket dial listed =
    let (balanced, keys) = agent_signers-keys socket dial listed in
    (
      balanced,
      λ signers h.
          let (d, l) = keys signers h in
          (d, l, λ s again offered. sign_connected-own s again offered),
    )
