-- ===== src/Ssh/Client/Dial/Tests.antt =====
-- dialSSH at concrete answers.
use terraform_provider_tunne.Base.{◌≡◌, refl, true, false, none, some}
use terraform_provider_tunne.Errors.{canceled, external, err}
use terraform_provider_tunne.Ssh.Client.Dial.{DialAnswers, dial_ssh}
use terraform_provider_tunne.Ssh.Client.Dial.Transport.{leaves, nothing, dial_ssh-leaves}

-- The context is cancelled during the handshake, whose transport is then closed under it.
abbrev cancelled : DialAnswers
cancelled = record {
  connect = none;
  handshake_error = some (external 1);
  fired = true;
  ctx_err = some canceled;
}

reports_context : (dial_ssh 15 cancelled).1 ≡ err canceled
unfolding dial_ssh
reports_context = refl

dial_ssh-leaves_example : (leaves (dial_ssh 15 cancelled).0 nothing).timer ≡ false
dial_ssh-leaves_example = (dial_ssh-leaves 15 cancelled (λ e. refl)).2
