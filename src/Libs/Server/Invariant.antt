-- ===== src/Libs/Server/Invariant.antt =====
-- What holds of a ConnServer between two events.
use terraform_provider_tunne.Base.{
  ℕ, suc, ◌+◌, ◌≤◌, sym, ◌∙◌, ◌≡◌, refl, ◌⊎◌, inl, inr, Bool, true, false, List, [], ◌∷◌, map,
  arith, length, All, ◌==◌, Bool-cases,
}
use terraform_provider_tunne.Errors.{Error}
use terraform_provider_tunne.Libs.Server.{
  Conn, Stage, handling, closing, forgetting, finished, Phase, accepting, registering, waiting,
  returned, ConnServer, Event, accept, register, accept_error, wait_over, cancel, close,
  handler_returns, forget, wg_done, new_conn_server, update_conn, dones, drop_tracked,
  handler_close, handler_forget, handler_done, serve_accept, serve_error, serve_register,
  serve_wait, server_close, step, run,
}

-- A connection in its handler is in the map, and is closed once Close has run; past the handler's
-- `conn.Close` it is closed, and past `forget` it is out of the map.
abbrev StageOk : Bool → Stage → Bool → Bool → Type 0
StageOk closed handling tracked is_open = (tracked ≡ true) × ((closed ≡ false) ⊎ (is_open ≡ false))
StageOk closed closing tracked is_open = (tracked ≡ true) × (is_open ≡ false)
StageOk closed forgetting tracked is_open = (tracked ≡ false) × (is_open ≡ false)
StageOk closed finished tracked is_open = (tracked ≡ false) × (is_open ≡ false)

abbrev pub ConnOk : Bool → Conn → Type 0
ConnOk closed c = StageOk closed c.stage c.tracked c.is_open

abbrev pub active_of : Stage → ℕ
active_of finished = 0
active_of _ = 1

-- The handlers that have not called `wg.Done`.
abbrev pub active : List Conn → ℕ
active [] = 0
active (c ∷ cs) = active_of c.stage + active cs

abbrev PhaseOk : Phase → ConnServer → Type 0
PhaseOk accepting s = length s.conns ≡ s.accepted
PhaseOk (registering id) s = suc (length s.conns) ≡ s.accepted
PhaseOk (waiting r) s = length s.conns ≡ s.accepted
PhaseOk (returned r) s = (length s.conns ≡ s.accepted) × (s.wg ≡ 0)

pub record Inv (s : ConnServer) : Type 0 where
  pub conns_ok : All (ConnOk s.closed) s.conns
  pub wg_counts : s.wg ≡ active s.conns
  pub phase_ok : PhaseOk s.phase s
  pub listener_ok : (s.closed ≡ false) ⊎ (s.listener_open ≡ false)

pub new-Inv : Inv new_conn_server
unfolding new_conn_server
new-Inv = record { conns_ok = tt; wg_counts = refl; phase_ok = refl; listener_ok = inl refl }

length-update_conn :
    (id : ℕ) (f : Conn → Conn) (cs : List Conn) → length (update_conn id f cs) ≡ length cs
unfolding update_conn
length-update_conn id f [] = refl
length-update_conn id f (c ∷ cs) = omega (arith, length-update_conn id f cs)

length-map_drop : (cs : List Conn) → length (map drop_tracked cs) ≡ length cs
length-map_drop [] = refl
length-map_drop (c ∷ cs) = omega (arith, length-map_drop cs)

-- An update that keeps each connection right keeps the map right.
All-update_conn :
    (b : Bool) (id : ℕ) (f : Conn → Conn)
    → ((c : Conn) → ConnOk b c → ConnOk b (f c))
    → (cs : List Conn) → All (ConnOk b) cs
    → All (ConnOk b) (update_conn id f cs)
unfolding update_conn
All-update_conn b id f keep [] h = tt
All-update_conn b id f keep (c ∷ cs) h = elim (Bool-cases (c.id == id)) [
  | inl e ↦ rw e (keep c h.0, All-update_conn b id f keep cs h.1)
  | inr e ↦ rw e (h.0, All-update_conn b id f keep cs h.1)
]

All-drop : (b : Bool) (cs : List Conn) → All (ConnOk b) cs → All (ConnOk true) (map drop_tracked cs)
unfolding drop_tracked
All-drop b [] h = tt
All-drop b (c ∷ cs) h = (ground arith, All-drop b cs h.1)

active-drop : (cs : List Conn) → active (map drop_tracked cs) ≡ active cs
unfolding drop_tracked
active-drop [] = refl
active-drop (c ∷ cs) = ground (arith, active-drop cs)

-- An update that calls no `wg.Done` keeps the count.
active-update_conn :
    (id : ℕ) (f : Conn → Conn)
    → ((c : Conn) → active_of (f c).stage ≡ active_of c.stage)
    → (cs : List Conn) → active (update_conn id f cs) ≡ active cs
unfolding update_conn
active-update_conn id f keep [] = refl
active-update_conn id f keep (c ∷ cs) = elim (Bool-cases (c.id == id)) [
  | inl e ↦ rw (e, keep c, active-update_conn id f keep cs)
  | inr e ↦ rw (e, active-update_conn id f keep cs)
]

active-done :
    (id : ℕ) (cs : List Conn)
    → active (update_conn id (λ c. handler_done c.stage c) cs) + dones id cs ≡ active cs
unfolding update_conn handler_done dones
active-done id [] = refl
active-done id (c ∷ cs) = ground (arith, active-done id cs)

close_keeps : (b : Bool) (c : Conn) → ConnOk b c → ConnOk b (handler_close c.stage c)
unfolding handler_close
close_keeps b c h = ground arith

forget_keeps : (b : Bool) (c : Conn) → ConnOk b c → ConnOk b (handler_forget c.stage c)
unfolding handler_forget
forget_keeps b c h = ground arith

done_keeps : (b : Bool) (c : Conn) → ConnOk b c → ConnOk b (handler_done c.stage c)
unfolding handler_done
done_keeps b c h = ground arith

-- `closed` never changes back, and one connection at most changes its stage in an event.
accept-Inv : (p : Phase) (s : ConnServer) → s.phase ≡ p → Inv s → Inv (serve_accept p s)
unfolding serve_accept
accept-Inv accepting s e v = ground arith
accept-Inv _ s e v = v

error-Inv : (p : Phase) (x : Error) (s : ConnServer) → s.phase ≡ p → Inv s → Inv (serve_error p x s)
unfolding serve_error
error-Inv accepting x s e v = ground arith
error-Inv _ x s e v = v

register-Inv : (p : Phase) (s : ConnServer) → s.phase ≡ p → Inv s → Inv (serve_register p s)
unfolding serve_register
register-Inv (registering id) s e v = ground arith
register-Inv accepting s e v = v
register-Inv _ s e v = v

wait-Inv : (p : Phase) (s : ConnServer) → s.phase ≡ p → Inv s → Inv (serve_wait p s)
unfolding serve_wait
wait-Inv (waiting r) s e v = ground arith
wait-Inv accepting s e v = v
wait-Inv _ s e v = v

PhaseOk-of :
    (p : Phase) (s t : ConnServer)
    → length t.conns ≡ length s.conns
    → t.accepted ≡ s.accepted
    → t.wg ≤ s.wg
    → PhaseOk p s
    → PhaseOk p t
PhaseOk-of accepting s t l a w h = omega arith
PhaseOk-of (registering id) s t l a w h = omega arith
PhaseOk-of (waiting r) s t l a w h = omega arith
PhaseOk-of (returned r) s t l a w h = omega arith

close-Inv : (s : ConnServer) → Inv s → Inv (server_close s)
unfolding server_close
close-Inv s v = elim (Bool-cases s.closed) [
  | inl e ↦ simp e v
  | inr e ↦ simp e (record {
    conns_ok = All-drop s.closed s.conns v.conns_ok;
    wg_counts = v.wg_counts ∙ sym (active-drop s.conns);
    phase_ok = PhaseOk-of s.phase s _ (length-map_drop s.conns) refl (omega arith) v.phase_ok;
    listener_ok = inr refl;
  })
]

update-Inv :
    (s : ConnServer) (id : ℕ) (f : Conn → Conn)
    → ((c : Conn) → ConnOk s.closed c → ConnOk s.closed (f c))
    → ((c : Conn) → active_of (f c).stage ≡ active_of c.stage)
    → Inv s
    → Inv (record s { conns = update_conn id f s.conns })
update-Inv s id f keep same v = record {
  conns_ok = All-update_conn s.closed id f keep s.conns v.conns_ok;
  wg_counts = v.wg_counts ∙ sym (active-update_conn id f same s.conns);
  phase_ok = PhaseOk-of s.phase s _ (length-update_conn id f s.conns) refl (omega arith) v.phase_ok;
  listener_ok = v.listener_ok;
}

close_same : (c : Conn) → active_of (handler_close c.stage c).stage ≡ active_of c.stage
unfolding handler_close
close_same c = ground arith

forget_same : (c : Conn) → active_of (handler_forget c.stage c).stage ≡ active_of c.stage
unfolding handler_forget
forget_same c = ground arith

done-Inv : (s : ConnServer) (id : ℕ) → Inv s → Inv (step s (wg_done id))
unfolding step
done-Inv s id v = record {
  conns_ok =
      All-update_conn s.closed id (λ c. handler_done c.stage c) (done_keeps s.closed) s.conns
        v.conns_ok;
  wg_counts = omega (arith, active-done id s.conns, v.wg_counts);
  phase_ok = PhaseOk-of s.phase s _ (length-update_conn id _ s.conns) refl (omega arith) v.phase_ok;
  listener_ok = v.listener_ok;
}

-- Every event, in every state, keeps the invariant.
pub step-Inv : (s : ConnServer) (e : Event) → Inv s → Inv (step s e)
unfolding step
step-Inv s accept v = accept-Inv s.phase s refl v
step-Inv s register v = register-Inv s.phase s refl v
step-Inv s (accept_error x) v = error-Inv s.phase x s refl v
step-Inv s wait_over v = wait-Inv s.phase s refl v
step-Inv s cancel v = record {
  conns_ok = v.conns_ok;
  wg_counts = v.wg_counts;
  phase_ok = PhaseOk-of s.phase s _ refl refl (omega arith) v.phase_ok;
  listener_ok = v.listener_ok;
}
step-Inv s close v = close-Inv s v
step-Inv s (handler_returns id) v = update-Inv s id _ (close_keeps s.closed) close_same v
step-Inv s (forget id) v = update-Inv s id _ (forget_keeps s.closed) forget_same v
step-Inv s (wg_done id) v = done-Inv s id v

pub run-Inv : (s : ConnServer) (es : List Event) → Inv s → Inv (run s es)
unfolding run
run-Inv s [] v = v
run-Inv s (e ∷ es) v = run-Inv (step s e) es (step-Inv s e v)
