-- ===== src/Libs/Server/Progress.antt =====
-- internal/libs/server.go: Serve comes to an end.
use terraform_provider_tunne.Base.{
  ℕ, ◌≡◌, refl, ◌∙◌, ◌⊎◌, inl, Bool, true, false, ◌||◌, none, List, [], ◌∷◌, ◌++◌, map, arith, All,
  ◌==◌, if◌then◌else◌,
}
use terraform_provider_tunne.Errors.{net_closed}
use terraform_provider_tunne.Libs.Server.{
  Conn, finished, accepting, returned, ConnServer, Event, accept_error, wait_over, handler_returns,
  forget, wg_done, update_conn, handler_close, handler_forget, handler_done, step, run,
}
use terraform_provider_tunne.Libs.Server.Invariant.{active, Inv, run-Inv}

abbrev ids : List Conn → List ℕ
ids = map λ c. c.id

-- The events by which the handlers of these connections come to their ends, one after another.
abbrev pub settle : List ℕ → List Event
settle [] = []
settle (id ∷ rest) = handler_returns id ∷ forget id ∷ wg_done id ∷ settle rest

-- All handlers end, then Accept fails on the closed listener, and Serve stops waiting.
abbrev pub wind_down : ConnServer → List Event
wind_down s = settle (ids s.conns) ++ accept_error net_closed ∷ wait_over ∷ []

known : ℕ → List ℕ → Bool
known id [] = false
known id (j ∷ js) = id == j || known id js

-- Only the connections with these ids may still have a handler.
abbrev Pending : List ℕ → Conn → Type 0
Pending js c = (known c.id js ≡ true) ⊎ (c.stage ≡ finished)

settle_conn :
    (j : ℕ) (js : List ℕ) (c : Conn)
    → Pending (j ∷ js) c
    → Pending js (
        let c₁ = if c.id == j then handler_close c.stage c else c in
        let c₂ = if c₁.id == j then handler_forget c₁.stage c₁ else c₁ in
        if c₂.id == j then handler_done c₂.stage c₂ else c₂)
unfolding known handler_close handler_forget handler_done
settle_conn j js c h = ground arith

abbrev settled : ℕ → List Conn → List Conn
settled j cs =
    update_conn j (λ c. handler_done c.stage c)
      (update_conn j (λ c. handler_forget c.stage c)
        (update_conn j (λ c. handler_close c.stage c) cs))

settled-Pending :
    (j : ℕ) (js : List ℕ) (cs : List Conn)
    → All (Pending (j ∷ js)) cs
    → All (Pending js) (settled j cs)
unfolding update_conn
settled-Pending j js [] h = tt
settled-Pending j js (c ∷ cs) h = (settle_conn j js c h.0, settled-Pending j js cs h.1)

-- Apart from the handlers' own state, the events of `settle` change nothing but the counter.
run-settle :
    (js : List ℕ) (s : ConnServer)
    → All (Pending js) s.conns
    → All (Pending []) (run s (settle js)).conns × ((run s (settle js)).phase ≡ s.phase)
unfolding run step
run-settle [] s h = (h, refl)
run-settle (j ∷ js) s h =
    run-settle js (step (step (step s (handler_returns j)) (forget j)) (wg_done j))
      (settled-Pending j js s.conns h)

run-append : (s : ConnServer) (es fs : List Event) → run s (es ++ fs) ≡ run (run s es) fs
unfolding run
run-append s [] fs = refl
run-append s (e ∷ es) fs = run-append (step s e) es fs

active-finished : (cs : List Conn) → All (Pending []) cs → active cs ≡ 0
unfolding known
active-finished [] h = refl
active-finished (c ∷ cs) h = ground (arith, active-finished cs h.1)

known_self : (j : ℕ) (js : List ℕ) → known j (j ∷ js) ≡ true
unfolding known
known_self j js = ground arith

Pending-weaken :
    (j : ℕ) (js : List ℕ) (cs : List Conn) → All (Pending js) cs → All (Pending (j ∷ js)) cs
unfolding known
Pending-weaken j js [] h = tt
Pending-weaken j js (c ∷ cs) h = (ground arith, Pending-weaken j js cs h.1)

Pending-ids : (cs : List Conn) → All (Pending (ids cs)) cs
Pending-ids [] = tt
Pending-ids (c ∷ cs) =
    (inl (known_self c.id (ids cs)), Pending-weaken c.id (ids cs) cs (Pending-ids cs))

finish_serve :
    (s : ConnServer)
    → s.phase ≡ accepting
    → s.wg ≡ 0
    → (run s (accept_error net_closed ∷ wait_over ∷ [])).phase ≡ returned none
unfolding run step
finish_serve s p w = ground arith

-- Serve can always come to its end: from any state with the invariant in which it accepts, once
-- the handlers in flight have come to their ends and Accept has met the closed listener, the wait
-- is over and Serve returns without an error.
pub wind_down-returns :
    (s : ConnServer) → Inv s → s.phase ≡ accepting → (run s (wind_down s)).phase ≡ returned none
wind_down-returns s v p =
    let (done, same) = run-settle (ids s.conns) s (Pending-ids s.conns) in
    let after = run-Inv s (settle (ids s.conns)) v in
    rw (run-append s (settle (ids s.conns)) (accept_error net_closed ∷ wait_over ∷ []))
      (finish_serve _ (same ∙ p) (after.wg_counts ∙ active-finished _ done))
