-- ===== src/Libs/Server/Shutdown.antt =====
-- internal/libs/server.go: what Close and the end of Serve guarantee.

use terraform_provider_tunne.Base.{
  ℕ, ◌+◌, ◌≤◌, ◌≡◌, refl, ◌∙◌, Bool, true, false, Option, List, [], ◌∷◌, map, arith, length, All,
}
use terraform_provider_tunne.Errors.{Error}
use terraform_provider_tunne.Libs.Server.{
  Conn, Stage, handling, finished, returned, ConnServer, Event, close, handler_returns, forget,
  wg_done, new_conn_server, update_conn, drop_tracked, handler_close, handler_forget, handler_done,
  step, run,
}
use terraform_provider_tunne.Libs.Server.Invariant.{ConnOk, active, Inv, new-Inv, step-Inv, run-Inv}

-- A connection that is closed, out of the map, and whose handler has ended.
abbrev pub IsReleased : Conn → Type 0
IsReleased c = (c.is_open ≡ false) × (c.tracked ≡ false) × (c.stage ≡ finished)

All-IsReleased : (b : Bool) (cs : List Conn) → All (ConnOk b) cs → active cs ≡ 0 → All IsReleased cs
All-IsReleased b [] h a = tt
All-IsReleased b (c ∷ cs) h a = (ground arith, All-IsReleased b cs h.1 (omega arith))

returned-IsReleased' :
    (s : ConnServer) {r : Option Error}
    → Inv s
    → s.phase ≡ returned r
    → (s.wg ≡ 0) × All IsReleased s.conns × (length s.conns ≡ s.accepted)
returned-IsReleased' s v h =
    let idle : s.wg ≡ 0 = ground (arith, v.phase_ok) in
    (
      idle,
      All-IsReleased s.closed s.conns v.conns_ok (omega (arith, v.wg_counts)),
      ground (arith, v.phase_ok),
    )

-- When Serve has returned, after whatever events, no handler is left, and each of the connections
-- that the listener handed out is closed and is no key of the map.
pub returned-IsReleased :
    (es : List Event) {r : Option Error}
    → (run new_conn_server es).phase ≡ returned r
    → ((run new_conn_server es).wg ≡ 0)
      × All IsReleased (run new_conn_server es).conns
      × (length (run new_conn_server es).conns ≡ (run new_conn_server es).accepted)
returned-IsReleased es h = returned-IsReleased' _ (run-Inv new_conn_server es new-Inv) h

pub step-closed : (s : ConnServer) (e : Event) → s.closed ≡ true → (step s e).closed ≡ true
unfolding step
step-closed s e h = ground arith

run-closed : (s : ConnServer) (es : List Event) → s.closed ≡ true → (run s es).closed ≡ true
unfolding run
run-closed s [] h = h
run-closed s (e ∷ es) h = run-closed (step s e) es (step-closed s e h)

close-closed : (s : ConnServer) → (step s close).closed ≡ true
unfolding step
close-closed s = ground arith

abbrev pub IsClosed : Conn → Type 0
IsClosed c = c.is_open ≡ false

All-IsClosed : (b : Bool) (cs : List Conn) → b ≡ true → All (ConnOk b) cs → All IsClosed cs
All-IsClosed b [] e h = tt
All-IsClosed b (c ∷ cs) e h = (ground arith, All-IsClosed b cs e h.1)

closed_drops :
    (s : ConnServer) → s.closed ≡ true → Inv s → (s.listener_open ≡ false) × All IsClosed s.conns
closed_drops s h v = (ground (arith, v.listener_ok), All-IsClosed s.closed s.conns h v.conns_ok)

-- Once Close has been called, whatever events came before it and come after it, the listener and
-- every connection that Serve has registered or refused are closed.
pub close_drops :
    (es fs : List Event)
    → let s = run (step (run new_conn_server es) close) fs in
      (s.listener_open ≡ false) × All IsClosed s.conns
close_drops es fs =
    closed_drops _ (run-closed _ fs (close-closed (run new_conn_server es)))
      (run-Inv _ fs (step-Inv _ close (run-Inv new_conn_server es new-Inv)))

abbrev is_handling : Stage → ℕ
is_handling handling = 1
is_handling _ = 0

-- The handlers that are still in their `handle`.
abbrev pub in_handle : List Conn → ℕ
in_handle [] = 0
in_handle (c ∷ cs) = is_handling c.stage + in_handle cs

in_handle-drop : (cs : List Conn) → in_handle (map drop_tracked cs) ≡ in_handle cs
unfolding drop_tracked
in_handle-drop [] = refl
in_handle-drop (c ∷ cs) = ground (arith, in_handle-drop cs)

in_handle-update :
    (id : ℕ) (f : Conn → Conn)
    → ((c : Conn) → is_handling (f c).stage ≤ is_handling c.stage)
    → (cs : List Conn) → in_handle (update_conn id f cs) ≤ in_handle cs
unfolding update_conn
in_handle-update id f less [] = omega arith
in_handle-update id f less (c ∷ cs) = ground (arith, less c, in_handle-update id f less cs)

close_less : (c : Conn) → is_handling (handler_close c.stage c).stage ≤ is_handling c.stage
unfolding handler_close
close_less c = ground arith

forget_less : (c : Conn) → is_handling (handler_forget c.stage c).stage ≤ is_handling c.stage
unfolding handler_forget
forget_less c = ground arith

done_less : (c : Conn) → is_handling (handler_done c.stage c).stage ≤ is_handling c.stage
unfolding handler_done
done_less c = ground arith

step_starts_none :
    (s : ConnServer) (e : Event)
    → s.closed ≡ true
    → Inv s
    → (in_handle (step s e).conns ≤ in_handle s.conns) × ((step s e).accepted ≡ s.accepted)
unfolding step
step_starts_none s (handler_returns id) h v = (in_handle-update id _ close_less s.conns, refl)
step_starts_none s (forget id) h v = (in_handle-update id _ forget_less s.conns, refl)
step_starts_none s (wg_done id) h v = (in_handle-update id _ done_less s.conns, refl)
step_starts_none s close h v = (ground arith, ground arith)
step_starts_none s e h v = (ground (arith, v.listener_ok), ground (arith, v.listener_ok))

-- After Close no connection is accepted and no handler is started.
pub closed_starts_none :
    (s : ConnServer) (es : List Event)
    → s.closed ≡ true
    → Inv s
    → (in_handle (run s es).conns ≤ in_handle s.conns) × ((run s es).accepted ≡ s.accepted)
unfolding run
closed_starts_none s [] h v = (omega arith, refl)
closed_starts_none s (e ∷ es) h v =
    let one = step_starts_none s e h v in
    let more = closed_starts_none (step s e) es (step-closed s e h) (step-Inv s e v) in
    (omega (arith, one.0, more.0), more.1 ∙ one.1)
