-- ===== src/Libs/Watch/Readiness.antt =====
-- internal/libs/watch.go: when a wait ends, and with which answer.
use terraform_provider_tunne.Base.{
  ◌≡◌, ◌↔◌, refl, ◌⊎◌, inl, inr, Bool, true, false, Option, none, some, List, [], ◌∷◌, ◌++◌, arith,
}
use terraform_provider_tunne.Errors.{Error, is_not_exist, Result, ok, err}
use terraform_provider_tunne.GoText.{Text, is_empty}
use terraform_provider_tunne.Libs.Watch.{
  signal_ready_when_serving, Poll, ReadyWait, PortWait, check_process_exists, poll_once,
  wait_rounds, wait_for_ready_file, Signalled, terminate, watch_parent, dial_rounds,
  wait_for_local_port,
}

-- The process is there and the marker file is not: the wait goes on.
abbrev pub IsPending : Poll → Type 0
IsPending p =
    (check_process_exists p.process ≡ none)
    × ((e : Error) × (p.stat ≡ some e) × (is_not_exist e ≡ true))

-- The process is there and the marker file too.
abbrev pub IsReady : Poll → Type 0
IsReady p = (check_process_exists p.process ≡ none) × (p.stat ≡ none)

-- Some round finds the tunnel ready, and every round before it finds it pending.
abbrev pub BecomesReady : List Poll → Type 0
BecomesReady [] = ⊥
BecomesReady (p ∷ ps) = IsReady p ⊎ (IsPending p × BecomesReady ps)

ready_of : (p : Poll) (r : Option Error) → wait_rounds [] p r ≡ none → BecomesReady (p ∷ [])
unfolding wait_rounds poll_once
ready_of p r h = ground arith

rounds_sound :
    (ps : List Poll) (p : Poll) (r : Option Error)
    → wait_rounds ps p r ≡ none
    → BecomesReady (ps ++ p ∷ [])
unfolding wait_rounds poll_once
rounds_sound [] p r h = ready_of p r h
rounds_sound (q ∷ qs) p r h = ground (arith, rounds_sound qs p r)

rounds_complete :
    (ps : List Poll) (p : Poll) (r : Option Error)
    → BecomesReady (ps ++ p ∷ [])
    → wait_rounds ps p r ≡ none
unfolding wait_rounds poll_once
rounds_complete [] p r h = ground arith
rounds_complete (q ∷ qs) p r (inl h) = ground arith
rounds_complete (q ∷ qs) p r (inr h) = ground (arith, rounds_complete qs p r h.1)

-- WaitForReadyFile reports success exactly if some round, the last one included, finds the process
-- there with the marker file in place, and every round before it finds the process there and the
-- file missing.
pub wait_for_ready_file-eq-none_iff :
    (w : ReadyWait) → (wait_for_ready_file w ≡ none) ↔ BecomesReady (w.ticks ++ w.last ∷ [])
unfolding wait_for_ready_file
wait_for_ready_file-eq-none_iff w =
    (rounds_sound w.ticks w.last w.ctx_err, rounds_complete w.ticks w.last w.ctx_err)

-- Some dial connects.
abbrev pub Connects : List (Option Error) → Type 0
Connects [] = ⊥
Connects (d ∷ ds) = (d ≡ none) ⊎ Connects ds

dials_sound :
    (ds : List (Option Error)) (d : Option Error) (r : Option Error)
    → dial_rounds ds d r ≡ none
    → Connects (ds ++ d ∷ [])
unfolding dial_rounds
dials_sound [] d r h = ground arith
dials_sound (x ∷ xs) d r h = ground (arith, dials_sound xs d r)

dials_complete :
    (ds : List (Option Error)) (d : Option Error) (r : Option Error)
    → Connects (ds ++ d ∷ [])
    → dial_rounds ds d r ≡ none
unfolding dial_rounds
dials_complete [] d r h = ground arith
dials_complete (x ∷ xs) d r (inl h) = ground arith
dials_complete (x ∷ xs) d r (inr h) = ground (arith, dials_complete xs d r h)

module _ (w : PortWait) (path : Text) (write : Option Error) where
  signal_asked :
      (signal_ready_when_serving w path write).written ≡ some path → is_empty path ≡ false
  unfolding signal_ready_when_serving
  signal_asked h = ground arith

  signal_write : (signal_ready_when_serving w path write).written ≡ some path → write ≡ none
  unfolding signal_ready_when_serving
  signal_write h = ground arith

  signal_served :
      (signal_ready_when_serving w path write).written ≡ some path → wait_for_local_port w ≡ none
  unfolding signal_ready_when_serving
  signal_served h = ground arith

  signal_done :
      is_empty path ≡ false
      → write ≡ none
      → wait_for_local_port w ≡ none
      → (signal_ready_when_serving w path write).written ≡ some path
  unfolding signal_ready_when_serving
  signal_done a b c = ground arith

-- SignalReadyWhenServing writes the marker exactly if the process was asked to, the write works,
-- and some dial to the local port connects before the wait ends.
pub signal_when_serving_iff :
    (w : PortWait) (path : Text) (write : Option Error)
    → ((signal_ready_when_serving w path write).written ≡ some path)
      ↔ ((is_empty path ≡ false) × (write ≡ none) × Connects (w.dials ++ w.last_dial ∷ []))
unfolding signal_ready_when_serving wait_for_local_port
signal_when_serving_iff w path write = (
  λ h. (
    signal_asked w path write h,
    signal_write w path write h,
    dials_sound w.dials w.last_dial w.port_ctx_err (signal_served w path write h),
  ),
  λ h. signal_done w path write h.0 h.1 (dials_complete w.dials w.last_dial w.port_ctx_err h.2),
)

-- A round that finds the parent gone.
abbrev pub SeesExit : List (Result Bool) → Type 0
SeesExit [] = ⊥
SeesExit (r ∷ rs) = (r ≡ ok false) ⊎ SeesExit rs

exit_sound :
    (b : Bool) (rs : List (Result Bool)) (s : Signalled)
    → watch_parent b rs ≡ some s
    → SeesExit rs × (s ≡ terminate b)
unfolding watch_parent
exit_sound b [] s h = cc
exit_sound b (err e ∷ rs) s h = ground (arith, exit_sound b rs s)
exit_sound b (ok true ∷ rs) s h = ground (arith, exit_sound b rs s)
exit_sound b (ok false ∷ rs) s h = ground arith

exit_complete :
    (b : Bool) (rs : List (Result Bool)) → SeesExit rs → watch_parent b rs ≡ some (terminate b)
unfolding watch_parent
exit_complete b (err e ∷ rs) h = ground (arith, exit_complete b rs)
exit_complete b (ok true ∷ rs) h = ground (arith, exit_complete b rs)
exit_complete b (ok false ∷ rs) h = refl
exit_complete b [] h = elim h [ ]

-- The watch on the parent terminates its own process, by the system's way to do so, exactly if a
-- round finds the parent gone; a round whose check fails ends neither the watch nor the process.
pub watch_parent_iff :
    (b : Bool) (rs : List (Result Bool)) → (watch_parent b rs ≡ some (terminate b)) ↔ SeesExit rs
watch_parent_iff b rs = (λ h. (exit_sound b rs (terminate b) h).0, exit_complete b rs)
