-- ===== src/Libs/Fork/Cleanup.antt =====
-- internal/libs/fork.go: what ForkTunnel leaves behind.
use terraform_provider_tunne.Base.{
  ℕ, ◌≡◌, Bool, true, false, none, List, [], ◌∷◌, ◌++◌, arith, ◌==◌, if◌then◌else◌,
}
use terraform_provider_tunne.Errors.{Result, ok, err}
use terraform_provider_tunne.GoText.{Text}
use terraform_provider_tunne.Libs.Watch.{wait_for_ready_file}
use terraform_provider_tunne.Libs.Watch.Readiness.{BecomesReady, wait_for_ready_file-eq-none_iff}
use terraform_provider_tunne.Libs.Fork.{
  Effect, open_log, close_log, make_ready_dir, remove_ready_dir, start, kill, wait, ForkCalls,
  fork_tunnel,
}

pub data Child : Type 0 where
  no_child : Child
  running killed : ℕ → Child

-- `Process.Kill` of the process `pid`, and `Wait` for it. A Wait returns only once the process has ended,
-- which this one does when it is killed.
abbrev strike : ℕ → Child → Child
strike pid no_child = no_child
strike pid (running p) = if p == pid then killed p else running p
strike pid (killed p) = killed p

abbrev reap : ℕ → Child → Child
reap pid no_child = no_child
reap pid (running p) = running p
reap pid (killed p) = if p == pid then no_child else killed p

-- What the effects leave: an open log file, a directory for the marker, a child process.
pub record Left : Type 0 where
  pub log : Bool
  pub dir : Bool
  pub child : Child

abbrev leave : Effect → Left → Left
leave (open_log path) s = record s { log = true }
leave close_log s = record s { log = false }
leave (make_ready_dir dir) s = record s { dir = true }
leave (remove_ready_dir dir) s = record s { dir = false }
leave (start cmd pid) s = record s { child = running pid }
leave (kill pid) s = record s { child = strike pid s.child }
leave (wait pid) s = record s { child = reap pid s.child }

abbrev pub leaves : List Effect → Left → Left
leaves [] s = s
leaves (e ∷ es) s = leaves es (leave e s)

abbrev pub nothing : Left
nothing = record { log = false; dir = false; child = no_child }

abbrev pub child_of : Result ℕ → Child
child_of (ok pid) = running pid
child_of (err e) = no_child

pub fork_tunnel-leaves :
    (t name : Text) (c : ForkCalls)
    → let r = fork_tunnel t name c in
      leaves r.0 nothing ≡ record { log = false; dir = false; child = child_of r.1 }
unfolding fork_tunnel
fork_tunnel-leaves t name c = ground arith

fork_waited :
    (t name : Text) (c : ForkCalls) {pid : ℕ}
    → (fork_tunnel t name c).1 ≡ ok pid
    → wait_for_ready_file c.ready ≡ none
unfolding fork_tunnel
fork_waited t name c h = ground arith

-- ForkTunnel returns a process only if the wait for the marker has seen it running with the marker
-- in place, with every round before pending.
pub fork_tunnel_ready :
    (t name : Text) (c : ForkCalls) {pid : ℕ}
    → (fork_tunnel t name c).1 ≡ ok pid
    → BecomesReady (c.ready.ticks ++ c.ready.last ∷ [])
      × (c.start_pid ≡ ok pid)
      × (c.ctx_err ≡ none)
unfolding fork_tunnel
fork_tunnel_ready t name c h = (
  (wait_for_ready_file-eq-none_iff c.ready).0 (fork_waited t name c h),
  ground arith,
  ground arith,
)
