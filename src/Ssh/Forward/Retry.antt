-- ===== src/Ssh/Forward/Retry.antt =====
-- internal/ssh/forward.go: when dialTarget tries again.
use terraform_provider_tunne.Base.{
  ℕ, zero, suc, ◌+◌, ◌≤◌, ◌≡◌, refl, ap, ◌∙◌, ◌⊎◌, inl, inr, false, not, Option, none, some, arith,
  is_some,
}
use terraform_provider_tunne.Errors.{Error, Result, ok, err}
use terraform_provider_tunne.Ssh.Client.{
  ClientPool, Turn, returns, waits, dials, get as get_event, dial_returns, discards, step, enter,
  dial_result,
}
use terraform_provider_tunne.Ssh.Client.Sharing.{entered_client, dialled_client, dial_result-some}
use terraform_provider_tunne.Ssh.Client.Invariant.{PoolInv, step-PoolInv}
use terraform_provider_tunne.Ssh.Forward.{
  Dial, connected, rejected, broken, ClientSource, Dialled, dial_rounds, dial_target, Network,
  by_dial, by_client, after_enter, pool_source,
}

module _ {S : Type 0} (source : ClientSource S) where
  -- dialTarget returns either a connection or an error, never both and never neither.
  pub dial_target_decides :
      (s : S) → is_some (dial_target source s).1.conn ≡ not (is_some (dial_target source s).1.error)
  unfolding dial_target
  dial_target_decides s = ground arith

  -- A target that rejects the channel is no reason to give the client up or to try again: the
  -- state is the one after that dial, and the rejection is the error.
  pub dial_target_rejected :
      (s : S) (client : ℕ) (e : Error)
      → (source.get s).1 ≡ ok client
      → (source.dial client (source.get s).0).1 ≡ rejected e
      → dial_target source s
        ≡ ((source.dial client (source.get s).0).0, record { conn = none; error = some e })
  unfolding dial_target
  dial_target_rejected s client e g d = ground arith

  -- A rule for the rounds: `P n` holds with `n` rounds left, and `R` of the result.
  module _ (P : ℕ → S → Type 0) (R : S × Dialled → Type 0) where
    abbrev Over : Type 0
    Over = (last : Option Error) (s : S) → P 0 s → R (s, record { conn = none; error = last })

    abbrev Fails : Type 0
    Fails =
        (n : ℕ) (s : S) (e : Error)
        → P (suc n) s
        → (source.get s).1 ≡ err e
        → R ((source.get s).0, record { conn = none; error = some e })

    abbrev Dials : Type 0
    Dials =
        (n : ℕ) (s : S) (client : ℕ)
        → P (suc n) s
        → (source.get s).1 ≡ ok client
        → let t = (source.dial client (source.get s).0).0 in
          ((d : Dialled) → R (t, d)) × P n (source.discard_client client t)

    by_dial_rule :
        (n : ℕ) (client : ℕ) (t : S) (d : Dial)
        → ((last : Option Error) (s : S) → P n s → R (dial_rounds source n last s))
        → ((x : Dialled) → R (t, x))
        → P n (source.discard_client client t)
        → R (by_dial source (dial_rounds source n) client t d)
    unfolding by_dial
    by_dial_rule n client t (connected c) ih r p = r _
    by_dial_rule n client t (rejected e) ih r p = r _
    by_dial_rule n client t (broken e) ih r p = ih (some e) _ p

    by_client_rule :
        (n : ℕ) (s : S) (x : Result ℕ)
        → (source.get s).1 ≡ x
        → ((last : Option Error) (s : S) → P n s → R (dial_rounds source n last s))
        → Fails
        → Dials
        → P (suc n) s
        → R (by_client source (dial_rounds source n) (source.get s).0 x)
    unfolding by_client
    by_client_rule n s (err e) g ih f d p = f n s e p g
    by_client_rule n s (ok client) g ih f d p =
        let (r, q) = d n s client p g in by_dial_rule n client _ _ ih r q

    rounds_rule :
        (n : ℕ) (last : Option Error) (s : S)
        → Over
        → Fails
        → Dials
        → P n s
        → R (dial_rounds source n last s)
    unfolding dial_rounds
    rounds_rule zero last s o f d p = o last s p
    rounds_rule (suc n) last s o f d p =
        by_client_rule n s (source.get s).1 refl (λ l t q. rounds_rule n l t o f d q) f d p

module _ (ssh_dial : ℕ → Option Error) (channel : ℕ → ℕ → Dial) where
  after_enter_keeps :
      (s : Network) (t : Turn)
      → PoolInv s.pool
      → PoolInv (after_enter ssh_dial channel s (step s.pool get_event) t).0.pool
  unfolding after_enter
  after_enter_keeps s (returns r) v = step-PoolInv s.pool get_event v
  after_enter_keeps s (waits k) v = step-PoolInv s.pool get_event v
  after_enter_keeps s (dials k) v =
      step-PoolInv _ (dial_returns k (ssh_dial s.handshakes_used)) (step-PoolInv s.pool get_event v)

  after_enter_uses :
      (s : Network) (p : ClientPool) (t : Turn)
      → let r = (after_enter ssh_dial channel s p t).0 in
        (r.handshakes_used ≤ s.handshakes_used + 1) × (r.channels_used ≡ s.channels_used)
  unfolding after_enter
  after_enter_uses s p (returns r) = (omega arith, refl)
  after_enter_uses s p (waits k) = (omega arith, refl)
  after_enter_uses s p (dials k) = (omega arith, refl)

  dialled_holds :
      (x : Option Error) (p : ClientPool) (k c : ℕ)
      → (enter p).1 ≡ dials k
      → dial_result x (step p get_event) ≡ ok c
      → (step (step p get_event) (dial_returns k x)).client ≡ some c
  dialled_holds none p k c e h = dialled_client p k c e h
  dialled_holds (some x) p k c e h = cc (dial_result-some x (step p get_event))

  after_enter_client :
      (s : Network) (t : Turn) (c : ℕ)
      → (enter s.pool).1 ≡ t
      → (after_enter ssh_dial channel s (step s.pool get_event) t).1 ≡ ok c
      → (after_enter ssh_dial channel s (step s.pool get_event) t).0.pool.client ≡ some c
  unfolding after_enter
  after_enter_client s (returns r) c e h = entered_client s.pool c (e ∙ ap returns h)
  after_enter_client s (waits k) c e h = cc
  after_enter_client s (dials k) c e h = dialled_holds (ssh_dial s.handshakes_used) s.pool k c e h

  -- With `n` rounds left, and of the result: the pool is well-formed, and the handshakes and the
  -- channels asked for so far are within the bound.
  abbrev Within : Network → ℕ → Network → Type 0
  Within s₀ n s =
      PoolInv s.pool
      × (s.handshakes_used + n ≤ s₀.handshakes_used + 2)
      × (s.channels_used + n ≤ s₀.channels_used + 2)

  abbrev Kept : Network → Network × Dialled → Type 0
  Kept s₀ r =
      PoolInv r.0.pool
      × (r.0.handshakes_used ≤ s₀.handshakes_used + 2)
      × (r.0.channels_used ≤ s₀.channels_used + 2)
      × ((is_some r.1.conn ≡ false)
          ⊎ ((c : ℕ) × (r.0.through ≡ some c) × (r.0.pool.client ≡ some c)))

  source_fails :
      (s₀ : Network) (s : Network) (n : ℕ) (t : Turn)
      → Within s₀ (suc n) s
      → (enter s.pool).1 ≡ t
      → let r = (after_enter ssh_dial channel s (step s.pool get_event) t).0 in
        PoolInv r.pool
        × (r.handshakes_used + n ≤ s₀.handshakes_used + 2)
        × (r.channels_used + suc n ≤ s₀.channels_used + 2)
  source_fails s₀ s n t w e =
      let uses = after_enter_uses s (step s.pool get_event) t in
      (after_enter_keeps s t w.0, omega arith, omega arith)

  dial_target_keeps :
      (s₀ : Network) (n : ℕ) (last : Option Error) (s : Network)
      → Within s₀ n s
      → Kept s₀ (dial_rounds (pool_source ssh_dial channel) n last s)
  unfolding pool_source
  dial_target_keeps s₀ n last s w =
      rounds_rule (pool_source ssh_dial channel) (Within s₀) (Kept s₀) n last s
        (λ l t q. (q.0, omega arith, omega arith, inl refl))
        (λ m t e q g.
          let f = source_fails s₀ t m (enter t.pool).1 q refl in
          (f.0, omega arith, omega arith, inl refl))
        (λ m t client q g.
          let f = source_fails s₀ t m (enter t.pool).1 q refl in
          let c = after_enter_client t (enter t.pool).1 client refl g in
          (
            λ d. (f.0, omega arith, omega arith, inr (client, refl, c)),
            (step-PoolInv _ (discards client) f.0, omega arith, omega arith),
          ))
        w

  -- Over a pool that no other caller changes meanwhile, dialTarget keeps the pool well-formed, asks for
  -- at most two handshakes and two channels, and the client through which it gets the connection that it
  -- returns is the one that the pool has then.
  pub dial_target_on_pool :
      (s : Network)
      → PoolInv s.pool
      → let r = dial_target (pool_source ssh_dial channel) s in
        PoolInv r.0.pool
        × (r.0.handshakes_used ≤ s.handshakes_used + 2)
        × (r.0.channels_used ≤ s.channels_used + 2)
        × ((is_some r.1.conn ≡ false)
            ⊎ ((c : ℕ) × (r.0.through ≡ some c) × (r.0.pool.client ≡ some c)))
  unfolding dial_target
  dial_target_on_pool s v = dial_target_keeps s 2 none s (v, omega arith, omega arith)
