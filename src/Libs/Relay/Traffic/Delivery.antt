-- ===== src/Libs/Relay/Traffic/Delivery.antt =====
-- internal/libs/relay.go: what a relay delivers of the bytes that its two ends send.
use terraform_provider_tunne.Base.{
  ℕ, suc, zero, ◌<◌, ◌≡◌, ◌≢◌, refl, sym, ap, ◌∙◌, ◌⊎◌, inl, inr, Bool, true, false, Option, none,
  some, List, [], ◌∷◌, ◌++◌, arith, length, joined,
}
use mathlib.Core.List.{append-nil}
use terraform_provider_tunne.Libs.Relay.{
  Stream, Main, copying, draining, forced, returned, Relay, relay_drain,
}
use terraform_provider_tunne.Libs.Relay as Relays
use terraform_provider_tunne.Libs.Relay.Closing.{fresh}
use terraform_provider_tunne.Libs.Relay.Traffic.{
  Bytes, Flow, Traffic, traffic, Move, turn_to_a, turn_to_b, finish, copy_turn, landed_a, landed_b,
  copy_to_a, copy_to_b, step, run,
}
use terraform_provider_tunne.Libs.Relay.Traffic.Conservation.{
  Whole, is_over, Conserved, Turned, IsGentle, turn_moves_a, turn_moves_b, step-Conserved,
  run-Conserved,
}

-- `n` times the same move.
abbrev pub times : ℕ → Move → List Move
times zero m = []
times (suc n) m = m ∷ times n m

-- One copy with all its turns, then the other, then the end: each copy needs a turn for every chunk and
-- one for the EOF.
abbrev pub to_the_end : List Bytes → List Bytes → List Move
to_the_end from_a from_b =
    times (suc (length from_b)) turn_to_a ++ times (suc (length from_a)) turn_to_b ++ finish ∷ []

-- The caller's copy is over within `n` turns.
abbrev EndsA : ℕ → Traffic → Type 0
EndsA n t = (is_over t.relay.main ≡ true) ⊎ (length t.to_a.coming < n)

abbrev EndsB : ℕ → Traffic → Type 0
EndsB n t = (t.relay.other_done ≡ true) ⊎ (length t.to_b.coming < n)

landed_a-EndsA :
    (from_b : List Bytes) (n : ℕ) (t : Traffic) (x : Flow × Option Bool)
    → t.relay.main ≡ copying
    → length t.to_a.coming < suc n
    → Turned from_b t.to_a x
    → EndsA n (landed_a x t)
unfolding landed_a Relays.step
landed_a-EndsA from_b n t (f, none) m l h = inr (omega (arith, h.1))
landed_a-EndsA from_b n t (f, some e) m l h = ground arith

landed_b-EndsB :
    (from_a : List Bytes) (n : ℕ) (t : Traffic) (x : Flow × Option Bool)
    → t.relay.other_done ≡ false
    → length t.to_b.coming < suc n
    → Turned from_a t.to_b x
    → EndsB n (landed_b x t) × ((landed_b x t).relay.main ≡ t.relay.main)
unfolding landed_b Relays.step
landed_b-EndsB from_a n t (f, none) m l h = (inr (omega (arith, h.1)), refl)
landed_b-EndsB from_a n t (f, some e) m l h = ground arith

copy_to_a-EndsA :
    (from_a from_b : List Bytes) (n : ℕ) (t : Traffic) (m : Main)
    → t.relay.main ≡ m
    → Conserved from_a from_b t
    → EndsA (suc n) t
    → EndsA n (copy_to_a m t)
unfolding copy_to_a
copy_to_a-EndsA from_a from_b n t copying m c h =
    landed_a-EndsA from_b n t (copy_turn t.relay.a t.relay.b t.to_a) m (ground arith)
      (turn_moves_a from_a from_b t m c)
copy_to_a-EndsA from_a from_b n t draining m c h = inl (ground arith)
copy_to_a-EndsA from_a from_b n t forced m c h = inl (ground arith)
copy_to_a-EndsA from_a from_b n t returned m c h = inl (ground arith)

copy_to_b-EndsB :
    (from_a from_b : List Bytes) (n : ℕ) (t : Traffic) (d : Bool)
    → t.relay.other_done ≡ d
    → Conserved from_a from_b t
    → EndsB (suc n) t
    → EndsB n (copy_to_b d t) × ((copy_to_b d t).relay.main ≡ t.relay.main)
unfolding copy_to_b
copy_to_b-EndsB from_a from_b n t true d c h = (inl d, refl)
copy_to_b-EndsB from_a from_b n t false d c h =
    landed_b-EndsB from_a n t (copy_turn t.relay.b t.relay.a t.to_b) d (ground arith)
      (turn_moves_b from_a from_b t d c)

turns_to_a :
    (from_a from_b : List Bytes) (n : ℕ) (t : Traffic)
    → Conserved from_a from_b t
    → EndsA n t
    → let u = run t (times n turn_to_a) in Conserved from_a from_b u × (is_over u.relay.main ≡ true)
unfolding run step
turns_to_a from_a from_b zero t c h = (c, ground arith)
turns_to_a from_a from_b (suc n) t c h =
    turns_to_a from_a from_b n (step t turn_to_a) (step-Conserved from_a from_b t turn_to_a tt c)
      (copy_to_a-EndsA from_a from_b n t t.relay.main refl c h)

turns_to_b :
    (from_a from_b : List Bytes) (n : ℕ) (t : Traffic)
    → Conserved from_a from_b t
    → EndsB n t
    → is_over t.relay.main ≡ true
    → let u = run t (times n turn_to_b) in
      Conserved from_a from_b u × (is_over u.relay.main ≡ true) × (u.relay.other_done ≡ true)
unfolding run step
turns_to_b from_a from_b zero t c h o = (c, o, ground arith)
turns_to_b from_a from_b (suc n) t c h o =
    let (ends_b, same) = copy_to_b-EndsB from_a from_b n t t.relay.other_done refl c h in
    turns_to_b from_a from_b n (step t turn_to_b) (step-Conserved from_a from_b t turn_to_b tt c)
      ends_b (ap is_over same ∙ o)

finish_returns :
    (t : Traffic)
    → is_over t.relay.main ≡ true
    → t.relay.other_done ≡ true
    → (step t finish).relay.main ≡ returned
unfolding step Relays.step
finish_returns t o d = ground arith

run-++ : (t : Traffic) (ms ns : List Move) → run t (ms ++ ns) ≡ run (run t ms) ns
unfolding run
run-++ t [] ns = refl
run-++ t (m ∷ ms) ns = run-++ (step t m) ms ns

-- Each end has all that the other one sent, in its order.
abbrev pub Delivered : List Bytes → List Bytes → Traffic → Type 0
Delivered from_a from_b t = (t.to_a.arrived ≡ joined from_b) × (t.to_b.arrived ≡ joined from_a)

arrived_all :
    (sent : List Bytes) (f : Flow) → Whole sent f → f.coming ≡ [] → f.arrived ≡ joined sent
arrived_all sent f h e =
    sym (append-nil f.arrived) ∙ ap (λ cs. f.arrived ++ joined cs) (sym e) ∙ h.0

returned-Delivered :
    (from_a from_b : List Bytes) (t : Traffic)
    → t.relay.main ≡ returned
    → Conserved from_a from_b t
    → Delivered from_a from_b t
returned-Delivered from_a from_b t m c = (
  arrived_all from_b t.to_a (ground arith) (ground arith),
  arrived_all from_a t.to_b (ground arith) (ground arith),
)

run_parts :
    (t : Traffic) (ms ns : List Move)
    → run t (ms ++ ns ++ finish ∷ []) ≡ step (run (run t ms) ns) finish
unfolding run
run_parts t ms ns = run-++ t (ms ++ ns) (finish ∷ []) ∙ ap (λ u. step u finish) (run-++ t ms ns)

run-to_the_end :
    (from_a from_b : List Bytes) (t : Traffic)
    → run t (to_the_end from_a from_b)
      ≡ step
          (run
            (run t (times (suc (length from_b)) turn_to_a))
            (times (suc (length from_a)) turn_to_b))
          finish
run-to_the_end from_a from_b t =
    run_parts t (times (suc (length from_b)) turn_to_a) (times (suc (length from_a)) turn_to_b)

finished :
    (from_a from_b : List Bytes) (t u : Traffic)
    → u ≡ step t finish
    → Conserved from_a from_b t
    → is_over t.relay.main ≡ true
    → t.relay.other_done ≡ true
    → (u.relay.main ≡ returned) × Delivered from_a from_b u
finished from_a from_b t u e c o d =
    let m = finish_returns t o d in
    rw e (
      m,
      returned-Delivered from_a from_b (step t finish) m
          (step-Conserved from_a from_b t finish tt c),
    )

at_the_end :
    (from_a from_b : List Bytes) (t : Traffic)
    → Conserved from_a from_b t
    → let u = run t (to_the_end from_a from_b) in
      (u.relay.main ≡ returned) × Delivered from_a from_b u
at_the_end from_a from_b t c =
    let (after_a, over) = turns_to_a from_a from_b (suc (length from_b)) t c (inr (ground arith)) in
    let u = run t (times (suc (length from_b)) turn_to_a) in
    let (after_b, still_over, other) =
      turns_to_b from_a from_b (suc (length from_a)) u after_a (inr (ground arith)) over in
    finished from_a from_b (run u (times (suc (length from_a)) turn_to_b))
      (run t (to_the_end from_a from_b)) (run-to_the_end from_a from_b t) after_b still_over other

start-Conserved :
    (grace : ℕ) (from_a from_b : List Bytes)
    → Conserved from_a from_b (traffic fresh fresh grace from_a from_b)
unfolding traffic relay_drain
start-Conserved grace from_a from_b = record {
  streams_ok = (refl, refl, refl, refl);
  to_a_ok = ((refl, omega arith), λ e. cc, λ e. refl);
  to_b_ok = ((refl, omega arith), λ e. cc, λ e. refl);
}

any-Delivered :
    (from_a from_b : List Bytes) (t : Traffic) (m : Main)
    → t.relay.main ≡ m
    → Conserved from_a from_b t
    → (t.relay.main ≢ returned) ⊎ Delivered from_a from_b t
any-Delivered from_a from_b t copying e c = inl (λ r. ground arith)
any-Delivered from_a from_b t draining e c = inl (λ r. ground arith)
any-Delivered from_a from_b t forced e c = inl (λ r. ground arith)
any-Delivered from_a from_b t returned e c = inr (returned-Delivered from_a from_b t e c)

-- Between two streams that half-close, whatever the order in which the two copies take their turns: as
-- long as neither fails and the timer does not fire, a relay that has returned has delivered to each end
-- all that the other one sent, in its order. From any point on, it returns with all delivered when the
-- caller's copy takes one turn for every chunk and one for the EOF, then the other copy as many for
-- its own, and then RelayDrain its end.
pub relay_delivers :
    (grace : ℕ) (from_a from_b : List Bytes) (ms : List Move)
    → IsGentle ms
    → let t = run (traffic fresh fresh grace from_a from_b) ms in
      let u = run t (to_the_end from_a from_b) in
      ((t.relay.main ≢ returned) ⊎ Delivered from_a from_b t)
      × (u.relay.main ≡ returned)
      × Delivered from_a from_b u
relay_delivers grace from_a from_b ms g =
    let start = traffic fresh fresh grace from_a from_b in
    let c = run-Conserved from_a from_b start ms g (start-Conserved grace from_a from_b) in
    let (ends, all) = at_the_end from_a from_b (run start ms) c in
    (any-Delivered from_a from_b (run start ms) _ refl c, ends, all)
