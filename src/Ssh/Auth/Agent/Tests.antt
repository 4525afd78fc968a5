-- ===== src/Ssh/Auth/Agent/Tests.antt =====
-- The agent at concrete answers.
use terraform_provider_tunne.Base.{◌≡◌, refl, none, [], ◌∷◌, List, map}
use terraform_provider_tunne.Errors.{ok}
use terraform_provider_tunne.GoText.{Text, lit}
use terraform_provider_tunne.Ssh.Auth.Agent.{AgentSigner, agent_signers, agent_signers-sign}

abbrev listed : List Text
listed = lit "k1" ∷ lit "k2" ∷ []

abbrev signers : List AgentSigner
signers =
    record { socket = lit "/tmp/agent"; public_key = lit "k1" }
    ∷ record { socket = lit "/tmp/agent"; public_key = lit "k2" }
    ∷ []

agent_signers-sign_example : ok listed ≡ ok (map (λ s. s.public_key) signers)
unfolding agent_signers
agent_signers-sign_example =
    ((agent_signers-sign (lit "/tmp/agent") none (ok listed)).1 signers refl).1
