-- ===== src/Ssh/Client/Dial/Transport.antt =====
-- internal/ssh/client.go: what dialSSH leaves open.
use terraform_provider_tunne.Base.{
  ◌≡◌, refl, ◌↔◌, Bool, true, false, Option, none, some, List, [], ◌∷◌, arith, is_some, ◌+◌, ℕ,
  length, ◌++◌, All,
}
use terraform_provider_tunne.Errors.{Error, is_ok}
use terraform_provider_tunne.Ssh.Client.Dial.{
  DialEffect, with_timeout, cancel_timeout, open_transport, handshake, close_transport, DialAnswers,
  dial_ssh, keepalive,
}

-- What the effects leave.
pub record Left : Type 0 where
  pub transport : Bool
  pub timer : Bool

abbrev leave : DialEffect → Left → Left
leave with_timeout l = record l { timer = true }
leave cancel_timeout l = record l { timer = false }
leave open_transport l = record l { transport = true }
leave handshake l = l
leave close_transport l = record l { transport = false }

abbrev pub leaves : List DialEffect → Left → Left
leaves [] l = l
leaves (e ∷ es) l = leaves es (leave e l)

abbrev pub nothing : Left
nothing = record { transport = false; timer = false }

-- dialSSH succeeds exactly if the connection and the handshake succeed and the context is not done
-- by then; it leaves its transport open exactly if it succeeds, and never its timer, whatever the
-- moment at which the context ended. `context.AfterFunc` calls its function only once its context is
-- done.
pub dial_ssh-leaves :
    (timeout : ℕ) (a : DialAnswers)
    → (a.fired ≡ true → is_some a.ctx_err ≡ true)
    → let r = dial_ssh timeout a in
      ((is_ok r.1 ≡ true) ↔ ((a.connect ≡ none) × (a.ctx_err ≡ none) × (a.handshake_error ≡ none)))
      × ((leaves r.0 nothing).transport ≡ is_ok r.1)
      × ((leaves r.0 nothing).timer ≡ false)
unfolding dial_ssh
dial_ssh-leaves timeout a h = ((λ e. ground arith, λ e. ground arith), ground arith, ground arith)

-- keepalive goes on as long as its requests are answered, and returns at the first that fails.
pub keepalive-fails :
    (answers later : List (Option Error)) (e : Error)
    → All (λ a. a ≡ none) answers
    → (keepalive answers ≡ (length answers, false))
      × (keepalive (answers ++ some e ∷ later) ≡ (length answers + 1, true))
unfolding keepalive
keepalive-fails [] later e h = (refl, refl)
keepalive-fails (none ∷ answers) later e h = ground (arith, keepalive-fails answers later e h.1)
keepalive-fails (some x ∷ answers) later e h = cc
