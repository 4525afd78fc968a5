-- ===== src/Libs/Watch.antt =====
-- internal/libs/watch.go: the watch on the parent process, and the two waits for readiness. What
-- the processes, the files and the network answer is an argument.
pub mod Readiness
mod Tests
use terraform_provider_tunne.Base.{
  ℕ, Bool, true, false, not, Option, none, some, List, [], ◌∷◌, if◌then◌else◌, ℤ, is_some, to_int32,
}
use terraform_provider_tunne.Errors.{
  Error, message, wrap, process_died, process_exited, check_readiness, wait_readiness, not_ready,
  wait_port, port_not_accepting, signal_readiness, is_not_exist, Result, ok, err,
}
use terraform_provider_tunne.GoText.{Text}

-- What `gopsutil` answers about a process, the one whose number is `int32(pid)`.
pub data Status : Type 0 where
  zombie other_status : Status

pub record ProcessInfo : Type 0 where
  pub new_process : Option Error  -- ps.NewProcess
  pub status : Result (List Status)
  pub is_running : Result Bool

pub has_zombie : List Status → Bool
has_zombie [] = false
has_zombie (zombie ∷ ss) = true
has_zombie (other_status ∷ ss) = has_zombie ss

by_running : Result Bool → Option Error
by_running (err e) = some e
by_running (ok true) = none
by_running (ok false) = some (message process_died)

by_status : Result (List Status) → Result Bool → Option Error
by_status (ok stats) running = if has_zombie stats then some (message process_died) else none
by_status (err e) running = by_running running

check_new : Option Error → ProcessInfo → Option Error
check_new (some e) p = some e
check_new none p = by_status p.status p.is_running

unfoldable pub check_process_exists : ProcessInfo → Option Error
unfolding check_new by_status by_running
check_process_exists p = check_new p.new_process p

-- One round of the loop in `WaitForReadyFile`: what the process and `os.Stat(path)` answer.
pub record Poll : Type 0 where
  pub process : ProcessInfo
  pub stat : Option Error

by_stat : Option Error → Option (Option Error)
by_stat none = some none
by_stat (some e) = if is_not_exist e then none else some (some (wrap check_readiness e))

by_process : Option Error → Option Error → Option (Option Error)
by_process (some e) stat = some (some (wrap process_exited e))
by_process none stat = by_stat stat

-- `some r`: the loop returns `r`; `none`: it goes on to its `select`.
pub poll_once : Poll → Option (Option Error)
unfolding by_process by_stat
poll_once p = by_process (check_process_exists p.process) p.stat

-- The rounds whose `select` takes the ticker, in order; the round after them, whose `select` takes
-- `waitCtx.Done()`; and `ctx.Err()` then. The deadline of 30 s makes every run of this form.
pub record ReadyWait : Type 0 where
  pub ticks : List Poll
  pub last : Poll
  pub ctx_err : Option Error

deadline_error : Option Error → Option Error
deadline_error (some e) = some (wrap wait_readiness e)
deadline_error none = some (message not_ready)

stop_or : Option (Option Error) → Option Error → Option Error
stop_or (some r) next = r
stop_or none next = next

wait_rounds : List Poll → Poll → Option Error → Option Error
unfolding stop_or deadline_error
wait_rounds [] last ctx_err = stop_or (poll_once last) (deadline_error ctx_err)
wait_rounds (p ∷ ps) last ctx_err = stop_or (poll_once p) (wait_rounds ps last ctx_err)

unfoldable pub wait_for_ready_file : ReadyWait → Option Error
unfolding wait_rounds poll_once check_process_exists has_zombie
wait_for_ready_file w = wait_rounds w.ticks w.last w.ctx_err

-- `waitForLocalPort`: the errors of the dials whose `select` takes the ticker, `none` for a dial
-- that connects; the last dial, whose `select` takes `waitCtx.Done()`; and `ctx.Err()` then.
pub record PortWait : Type 0 where
  pub dials : List (Option Error)
  pub last_dial : Option Error
  pub port_ctx_err : Option Error

port_error : Option Error → Option Error
port_error (some e) = some (wrap wait_port e)
port_error none = some (message port_not_accepting)

dial_or : Option Error → Option Error → Option Error
dial_or none next = none
dial_or (some e) next = next

dial_rounds : List (Option Error) → Option Error → Option Error → Option Error
unfolding dial_or port_error
dial_rounds [] last ctx_err = dial_or last (port_error ctx_err)
dial_rounds (d ∷ ds) last ctx_err = dial_or d (dial_rounds ds last ctx_err)

pub wait_for_local_port : PortWait → Option Error
unfolding dial_rounds
wait_for_local_port w = dial_rounds w.dials w.last_dial w.port_ctx_err

-- The file that `SignalReady` writes, and the error of the write.
pub record Signal : Type 0 where
  pub written : Option Text
  pub error : Option Error

-- `SignalReady(path)`, when the write answers `write`.
signal_ready : Text → Option Error → Signal
signal_ready path none = record { written = some path; error = none }
signal_ready path (some e) = record { written = none; error = some (wrap signal_readiness e) }

-- The argument is the value of `TunnelReadyEnv`; outside a forked tunnel it is empty.
pub signal_ready_if_requested : Text → Option Error → Signal
unfolding signal_ready
signal_ready_if_requested [] write = record { written = none; error = none }
signal_ready_if_requested (c ∷ path) write = signal_ready (c ∷ path) write

serving : Option Error → Text → Option Error → Signal
serving (some e) path write = record { written = none; error = some e }
serving none path write = signal_ready_if_requested path write

pub signal_ready_when_serving : PortWait → Text → Option Error → Signal
unfolding serving signal_ready_if_requested
signal_ready_when_serving w path write = serving (wait_for_local_port w) path write

-- `terminate`: how a process is asked to end.
pub data Signalled : Type 0 where
  terminated interrupted : Signalled

pub terminate : Bool → Signalled
terminate windows = if windows then terminated else interrupted

-- What the goroutine of `WatchProcess` has done after the rounds of its loop: nothing yet, or it
-- has terminated its own process and returned.
pub watch_parent : Bool → List (Result Bool) → Option Signalled
unfolding terminate
watch_parent windows [] = none
watch_parent windows (err e ∷ rounds) = watch_parent windows rounds
watch_parent windows (ok true ∷ rounds) = watch_parent windows rounds
watch_parent windows (ok false ∷ rounds) = some (terminate windows)

watch_found : Option Error → Option Error → Option Error
watch_found (some e) child = some e
watch_found none child = child

-- `WatchProcess(pid)` in the process `own`: the goroutine is started when both processes are found.
-- `find` is ps.NewProcess.
pub watch_process : (ℤ → Option Error) → ℤ → ℤ → Option Error
unfolding watch_found
watch_process find pid own = watch_found (find (to_int32 pid)) (find (to_int32 own))

interrupt_found : ℤ → Option Error → Option Error → Result ℤ
interrupt_found pid (some e) signal = err e
interrupt_found pid none (some e) = err e
interrupt_found pid none none = ok pid

-- `Interrupt(pid)`: the process that gets the signal, or the error. `calls` are ps.NewProcess and the
-- signal.
unfoldable pub interrupt : (ℤ → Option Error × Option Error) → ℤ → Result ℤ
unfolding interrupt_found
interrupt calls pid = let p = to_int32 pid in interrupt_found p (calls p).0 (calls p).1
