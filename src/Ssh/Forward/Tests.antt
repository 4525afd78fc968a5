-- ===== src/Ssh/Forward/Tests.antt =====
-- dialTarget at concrete answers.
use terraform_provider_tunne.Base.{ℕ, zero, suc, ◌+◌, ◌≤◌, ◌≡◌, refl, not, is_some, none, some, []}
use terraform_provider_tunne.Errors.{external, ok}
use terraform_provider_tunne.Ssh.Client.{new_pool}
use terraform_provider_tunne.Ssh.Client.Invariant.{new-PoolInv}
use terraform_provider_tunne.Ssh.Forward.{
  Dial, connected, rejected, broken, ClientSource, dial_target, handle, Network, pool_source,
}
use terraform_provider_tunne.Libs.Relay.Closing.{fresh}
use terraform_provider_tunne.Ssh.Forward.Handling.{Fate, recorded, handle-Fate}
use terraform_provider_tunne.Ssh.Forward.Retry.{
  dial_target_decides, dial_target_rejected, dial_target_on_pool,
}

-- A source whose state is the number of the next dial: the first breaks, the second connects.
abbrev second_time : ℕ → Dial
second_time zero = broken (external 1)
second_time (suc n) = connected n

abbrev scripted : (ℕ → Dial) → ClientSource ℕ
scripted answers = record {
  get = λ n. (n, ok n);
  discard_client = λ client n. n;
  dial = λ client n. (suc n, answers n);
}

retried : dial_target (scripted second_time) 0 ≡ (2, record { conn = some 0; error = none })
unfolding dial_target
retried = refl

dial_target_decides_example :
    is_some (dial_target (scripted second_time) 0).1.conn
    ≡ not (is_some (dial_target (scripted second_time) 0).1.error)
dial_target_decides_example = dial_target_decides (scripted second_time) 0

abbrev refuses : ℕ → Dial
refuses n = rejected (external n)

dial_target_rejected_example :
    dial_target (scripted refuses) 0 ≡ (1, record { conn = none; error = some (external 0) })
dial_target_rejected_example = dial_target_rejected (scripted refuses) 0 0 (external 0) refl refl

abbrev network : Network
network = record { pool = new_pool; handshakes_used = 0; channels_used = 0; through = none }

dial_target_on_pool_example :
    (dial_target (pool_source (λ n. none) (λ client n. second_time n)) network).0.channels_used
    ≤ 0 + 2
dial_target_on_pool_example =
    (dial_target_on_pool (λ n. none) (λ client n. second_time n) network new-PoolInv).2

handle-Fate_example :
    let source = recorded (scripted second_time) in
    let d = (dial_target source (0, [])).1 in
    let ((n, log), h) = handle source (λ c. fresh) fresh (0, []) in
    Fate (λ c. fresh) fresh log d.conn d.error h
handle-Fate_example = handle-Fate (scripted second_time) (λ c. fresh) fresh 0
