-- ===== src/Libs/Server/Termination.antt =====
-- internal/libs/server.go: after Close, only so many events change the server, and when none does any
-- more, Serve has returned.
use terraform_provider_tunne.Base.{
  ℕ, ◌+◌, ◌-◌, ◌≤◌, ◌<◌, ap, ◌∙◌, ◌≡◌, ◌≢◌, refl, ◌⊎◌, inl, inr, Bool, true, false, Option, List,
  [], ◌∷◌, arith, length, ◌==◌, ==_iff,
}
use terraform_provider_tunne.Errors.{Error, net_closed}
use terraform_provider_tunne.Libs.Server.{
  Conn, Stage, handling, closing, forgetting, finished, Phase, accepting, registering, waiting,
  returned, ConnServer, Event, accept, register, accept_error, wait_over, cancel, close,
  handler_returns, forget, wg_done, update_conn, dones, handler_close, handler_forget, handler_done,
  serve_accept, serve_error, serve_register, serve_wait, server_close, step,
}
use terraform_provider_tunne.Libs.Server.Invariant.{Inv, active_of, active, step-Inv}
use terraform_provider_tunne.Libs.Server.Shutdown.{step-closed}

-- How many events a handler has still to come.
abbrev stage_left : Stage → ℕ
stage_left handling = 3
stage_left closing = 2
stage_left forgetting = 1
stage_left finished = 0

abbrev handlers_left : List Conn → ℕ
handlers_left [] = 0
handlers_left (c ∷ cs) = stage_left c.stage + handlers_left cs

abbrev phase_left : Phase → ℕ
phase_left accepting = 2
phase_left (registering id) = 2
phase_left (waiting r) = 1
phase_left (returned r) = 0

abbrev cancel_left : Bool → ℕ
cancel_left true = 0
cancel_left false = 1

-- A bound on the events that can change a closed server.
abbrev pub events_left : ConnServer → ℕ
events_left s = phase_left s.phase + (handlers_left s.conns + cancel_left s.ctx_done)

-- An update that advances a connection or leaves it, does so with the list.
update_left :
    (id : ℕ) (f : Conn → Conn)
    → ((c : Conn) → (f c ≡ c) ⊎ (stage_left (f c).stage < stage_left c.stage))
    → (cs : List Conn)
    → (update_conn id f cs ≡ cs) ⊎ (handlers_left (update_conn id f cs) < handlers_left cs)
unfolding update_conn
update_left id f less [] = inl refl
update_left id f less (c ∷ cs) = ground (arith, less c, update_left id f less cs)

close_left :
    (c : Conn)
    → (handler_close c.stage c ≡ c)
      ⊎ (stage_left (handler_close c.stage c).stage < stage_left c.stage)
unfolding handler_close
close_left c = ground arith

forget_left :
    (c : Conn)
    → (handler_forget c.stage c ≡ c)
      ⊎ (stage_left (handler_forget c.stage c).stage < stage_left c.stage)
unfolding handler_forget
forget_left c = ground arith

-- `wg.Done` is called where a connection advances.
done_left :
    (id : ℕ) (cs : List Conn)
    → ((update_conn id (λ c. handler_done c.stage c) cs ≡ cs) × (dones id cs ≡ 0))
      ⊎ (handlers_left (update_conn id (λ c. handler_done c.stage c) cs) < handlers_left cs)
unfolding update_conn handler_done dones
done_left id [] = inl (refl, refl)
done_left id (c ∷ cs) = ground (arith, done_left id cs)

update_step :
    (s : ConnServer) (id : ℕ) (f : Conn → Conn)
    → (update_conn id f s.conns ≡ s.conns)
      ⊎ (handlers_left (update_conn id f s.conns) < handlers_left s.conns)
    → let t = record s { conns = update_conn id f s.conns } in
      (t ≡ s) ⊎ (events_left t < events_left s)
update_step s id f (inl same) = inl (λ i. record s { conns = same i })
update_step s id f (inr less) = inr (omega arith)

-- An event that changes a closed server lowers the bound.
step_left :
    (s : ConnServer) (e : Event)
    → s.closed ≡ true
    → Inv s
    → (step s e ≡ s) ⊎ (events_left (step s e) < events_left s)
unfolding step serve_accept serve_error serve_register serve_wait server_close
step_left s accept h v = ground arith
step_left s register h v = ground arith
step_left s (accept_error x) h v = ground arith
step_left s wait_over h v = ground arith
step_left s cancel h v = ground arith
step_left s close h v = ground arith
step_left s (handler_returns id) h v = update_step s id _ (update_left id _ close_left s.conns)
step_left s (forget id) h v = update_step s id _ (update_left id _ forget_left s.conns)
step_left s (wg_done id) h v = elim (done_left id s.conns) [
  | inl (same, none_done) ↦
      let wg_same : s.wg - dones id s.conns ≡ s.wg = omega arith in
      inl (λ i. record s { conns = same i; wg = wg_same i })
  | inr less ↦ inr (omega arith)
]

-- Every event of the list changes the server.
abbrev pub AllChange : ConnServer → List Event → Type 0
AllChange s [] = Unit
AllChange s (e ∷ es) = (step s e ≢ s) × AllChange (step s e) es

bounded :
    (s : ConnServer) (es : List Event)
    → s.closed ≡ true
    → Inv s
    → AllChange s es
    → length es ≤ events_left s
bounded s [] h v c = omega arith
bounded s (e ∷ es) h v (changed, more) = elim (step_left s e h v) [
  | inl same ↦ elim (changed same) [ ]
  | inr less ↦ omega (arith, bounded (step s e) es (step-closed s e h) (step-Inv s e v) more)
]

-- No event changes the server any more.
abbrev pub IsQuiet : ConnServer → Type 0
IsQuiet s = (e : Event) → step s e ≡ s

cons_parts : {x y : Conn} {xs ys : List Conn} → x ∷ xs ≡ y ∷ ys → (x ≡ y) × (xs ≡ ys)
cons_parts e = (cc, cc)

quiet_stage :
    (c : Conn)
    → (handler_close c.stage c).stage ≡ c.stage
    → (handler_forget c.stage c).stage ≡ c.stage
    → (handler_done c.stage c).stage ≡ c.stage
    → active_of c.stage ≡ 0
unfolding handler_close handler_forget handler_done
quiet_stage c a b d = ground arith

-- The update for a connection's own number is the update of that connection.
own_update :
    (f : Conn → Conn) (c : Conn) (cs : List Conn)
    → ((id : ℕ) → update_conn id f (c ∷ cs) ≡ c ∷ cs)
    → (f c ≡ c) × ((id : ℕ) → update_conn id f cs ≡ cs)
unfolding update_conn
own_update f c cs h =
    let own : (c.id == c.id) ≡ true = (==_iff c.id c.id).1 refl in
    let here = h c.id in ((cons_parts (rw own at here)).0, λ id. (cons_parts (h id)).1)

-- Where no update changes the connections, each handler has ended.
quiet_active :
    (cs : List Conn)
    → ((id : ℕ) → update_conn id (λ c. handler_close c.stage c) cs ≡ cs)
    → ((id : ℕ) → update_conn id (λ c. handler_forget c.stage c) cs ≡ cs)
    → ((id : ℕ) → update_conn id (λ c. handler_done c.stage c) cs ≡ cs)
    → active cs ≡ 0
quiet_active [] a b d = refl
quiet_active (c ∷ cs) a b d =
    let (close_eq, close_rest) = own_update _ c cs a in
    let (forget_eq, forget_rest) = own_update _ c cs b in
    let (done_eq, done_rest) = own_update _ c cs d in
    let head =
      quiet_stage c (ap (λ x. x.stage) close_eq) (ap (λ x. x.stage) forget_eq)
        (ap (λ x. x.stage) done_eq) in
    omega (arith, head, quiet_active cs close_rest forget_rest done_rest)

quiet_phase :
    (p : Phase) (s : ConnServer)
    → s.closed ≡ true
    → s.wg ≡ 0
    → (serve_error p net_closed s).phase ≡ p
    → (serve_register p s).phase ≡ p
    → (serve_wait p s).phase ≡ p
    → (r : Option Error) × (p ≡ returned r)
unfolding serve_error serve_register serve_wait
quiet_phase accepting s h w x y z = cc
quiet_phase (registering id) s h w x y z = ground arith
quiet_phase (waiting r) s h w x y z = ground arith
quiet_phase (returned r) s h w x y z = (r, refl)

quiet-returned :
    (s : ConnServer)
    → s.closed ≡ true
    → Inv s
    → IsQuiet s
    → (r : Option Error) × (s.phase ≡ returned r)
unfolding step
quiet-returned s h v q =
    let idle =
      quiet_active s.conns (λ id. ap (λ r. r.conns) (q (handler_returns id)))
        (λ id. ap (λ r. r.conns) (q (forget id))) (λ id. ap (λ r. r.conns) (q (wg_done id))) in
    quiet_phase s.phase s h (v.wg_counts ∙ idle) (ap (λ r. r.phase) (q (accept_error net_closed)))
      (ap (λ r. r.phase) (q register)) (ap (λ r. r.phase) (q wait_over))

-- Once a server is closed, a run in which every event changes it is no longer than the bound
-- `events_left`, and in a state that no event changes Serve has returned: so Serve ends, however the
-- events of its goroutines are ordered, as long as those that can still come do come.
pub closed_run_ends :
    (s : ConnServer)
    → s.closed ≡ true
    → Inv s
    → ((es : List Event) → AllChange s es → length es ≤ events_left s)
      × (IsQuiet s → (r : Option Error) × (s.phase ≡ returned r))
closed_run_ends s h v = (λ es c. bounded s es h v c, λ q. quiet-returned s h v q)
