-- ===== src/Process/Lifecycle.antt =====
-- process/lifecycle.go and the health check of process/manager.go as steps of threads. A step is one
-- access of what the threads share, or the section that `startMu` guards; it runs on the manager and
-- on one process. The script registry and the PID tracker are not part of it.
use go_cli_server.Prelude.{
  ℕ, suc, ◌-◌, Bool, true, false, ◌&&◌, ◌||◌, ltb, not, Option, none, some, List, if◌then◌else◌,
  Result, ok, err, ℤ, pos, negsuc,
}
use go_cli_server.Text.{is_some}
use go_cli_server.Process.Managed.{
  ManagedProcess, ProcessError, pending, starting, running, stopping, stopped, failed, same_state,
  set_state, compare_and_swap_state, cancel, set_descendants, to_int32,
}
use go_cli_server.Process.Manager.{Heap, ProcessManager, register, remove_by_path, increment_failed}

-- Where a thread of `Start` or of `waitForProcess` is: it holds its ticket and has not claimed the
-- process yet; it has claimed it; the registry refused it; it has registered it; its `failStart` has set the state, or has left
-- only `close` to do; it waits for the command; it found that nobody stopped the command; or it has
-- settled the state, and has left only `close` to do.
pub data Point : Type 0 where
  ticketed claimed refused registered failing unstarted waiting unasked settled : Point

-- What `cmd.Start` and the pipe before it say, and what `cmd.Wait` says: an exit of its own, which
-- `ErrWaitDelay` counts as, an exit with a code, or another error.
pub data Spawn : Type 0 where
  no_pipe no_command : Spawn
  spawned_as : ℕ → Spawn

pub data Exit : Type 0 where
  exited : Exit
  exit_error : ℤ → Exit
  other_error : Exit

-- What the system says to a step, and the time of it.
pub record Outcome : Type 0 where
  pub spawn : Spawn
  pub exit : Exit
  pub now : ℕ

abbrev pub Shared : Type 0
Shared = ProcessManager × ManagedProcess

-- `wg.Done()`.
abbrev pub give_back : ProcessManager → ProcessManager
give_back m = record m { wait_group = m.wait_group - 1 }

-- `close(proc.done)` behind `proc.cancel()`.
abbrev pub close_done : ManagedProcess → ManagedProcess
close_done p = record p { cancelled = true; closes = suc p.closes }

-- The first section of `Start` under `startMu`: the ticket, or `ErrShuttingDown`.
unfoldable pub take_ticket : ProcessManager → Option ProcessManager
take_ticket m =
    if m.is_shutting_down then none else some (record m { wait_group = suc m.wait_group })

-- The first step of `failStart`.
unfoldable pub fail_start : ManagedProcess → ManagedProcess × Option Point
unfolding set_state
fail_start p = (set_state failed p, some failing)

-- What `Start` records of a spawned command before it lets `startMu` go.
unfoldable pub publish : ℕ → ℕ → ManagedProcess → ManagedProcess
unfolding to_int32
publish now os_pid p = record p {
  spawned = some os_pid;
  start_time = some now;
  pid = to_int32 (pos os_pid);
  state = running;
}

unfoldable pub started : Outcome → ManagedProcess → Spawn → ManagedProcess × Option Point
unfolding fail_start publish
started o p no_pipe = fail_start p
started o p no_command = fail_start p
started o p (spawned_as os_pid) = (publish o.now os_pid p, some waiting)

-- The last check of the flag and the spawn, one section under `startMu`; a pipe that fails comes first.
unfoldable pub spawn_step :
    Outcome → ProcessManager → ManagedProcess → ManagedProcess × Option Point
unfolding started fail_start
spawn_step o m p = if m.is_shutting_down then fail_start p else started o p o.spawn

abbrev pub code_of : Exit → ℤ
code_of exited = pos 0
code_of (exit_error code) = code
code_of other_error = negsuc 0

-- The end of `waitForProcess` up to its first access of the state.
unfoldable pub reap : Outcome → ManagedProcess → ManagedProcess
unfolding to_int32
reap o p = record p {
  stdin_open = false;
  end_time = some o.now;
  exit_code = to_int32 (code_of o.exit);
}

unfoldable pub settle_exit : ManagedProcess → Exit → ManagedProcess × Option Point
unfolding set_state compare_and_swap_state
settle_exit p exited = (set_state stopped p, some settled)
settle_exit p (exit_error code) =
    let swap = compare_and_swap_state stopping stopped p in
    (swap.0, some (if swap.1 then settled else unasked))
settle_exit p other_error =
    let swap = compare_and_swap_state stopping stopped p in
    (swap.0, some (if swap.1 then settled else unasked))

-- `Wait` has returned: the exit code is recorded, and a stop that was asked for is no failure.
unfoldable pub wait_step : Outcome → ManagedProcess → ManagedProcess × Option Point
unfolding reap settle_exit
wait_step o p = settle_exit (reap o p) o.exit

abbrev pub registered_or_refused :
    ManagedProcess → ProcessManager × Result ProcessError Bool → Shared × Option Point
registered_or_refused p (m, ok b) = ((m, p), some registered)
registered_or_refused p (m, err e) = ((m, p), some refused)

-- The second part of `failStart`: the failure is counted, and the process leaves the registry.
abbrev count_failed_start : ProcessManager → ManagedProcess → ProcessManager
count_failed_start m p = (remove_by_path (increment_failed m) p.id p.project_path).0

-- A command that nobody stopped has failed.
abbrev settle_failed : ProcessManager → ManagedProcess → Shared
settle_failed m p = (increment_failed m, set_state failed p)

-- The swap of `Start` from Pending to Starting; without it the ticket goes back.
abbrev pub claim_step : ProcessManager → ManagedProcess → Shared × Option Point
claim_step m p =
    let swap = compare_and_swap_state pending starting p in
    if swap.1 then ((m, swap.0), some claimed) else ((give_back m, p), none)

-- What `Start` does when `Register` refuses.
abbrev pub undo_claim : ProcessManager → ManagedProcess → Shared × Option Point
undo_claim m p = ((give_back m, set_state pending p), none)

-- The end of `waitForProcess`.
abbrev pub end_wait : ProcessManager → ManagedProcess → Shared × Option Point
end_wait m p = ((give_back m, close_done p), none)

-- The next step of a thread on the process `i`; without a point to go to, the thread has ended. The
-- points up to `unstarted` are those of `Start` and its `failStart`, where the step from `registered`
-- hands the ticket over to `waitForProcess`, whose points are the others.
unfoldable pub act : Outcome → Heap → ProcessManager → ℕ → Point → Shared × Option Point
unfolding compare_and_swap_state set_state register remove_by_path increment_failed spawn_step
    wait_step
act o heap m i ticketed = claim_step m (heap i)
act o heap m i claimed = registered_or_refused (heap i) (register heap m i)
act o heap m i refused = undo_claim m (heap i)
act o heap m i registered = let next = spawn_step o m (heap i) in ((m, next.0), next.1)
act o heap m i failing = ((count_failed_start m (heap i), heap i), some unstarted)
act o heap m i unstarted = ((give_back m, close_done (heap i)), none)
act o heap m i waiting = let next = wait_step o (heap i) in ((m, next.0), next.1)
act o heap m i unasked = (settle_failed m (heap i), some settled)
act o heap m i settled = end_wait m (heap i)

-- What else touches a process: the swap at the start of `StopProcess`, the snapshot behind it, the
-- loop of `forceKill`, a cancelled context, and the checks of `performHealthCheck`.
pub data Access : Type 0 where
  ask_stop force_kill cancel_context check_running check_stopping : Access
  snapshot_descendants : List ℕ → Access
  check_starting : ℕ → Access

-- `forceKill` up to the signal: nothing without a spawned command.
unfoldable pub mark_killed : ManagedProcess → ManagedProcess
unfolding set_state
mark_killed p =
    let over =
      same_state p.state stopping || same_state p.state stopped || same_state p.state failed in
    if is_some p.spawned && not over then set_state stopping p else p

-- The limit of `checkStartingProcess`, 30 seconds.
abbrev pub start_limit : ℕ
start_limit = 30000000000

abbrev pub started_long_ago : ℕ → Option ℕ → Bool
started_long_ago now none = false
started_long_ago now (some start) = ltb start_limit (now - start)

unfoldable pub touch : Access → ProcessManager → ManagedProcess → Shared
unfolding compare_and_swap_state mark_killed cancel set_descendants increment_failed
touch ask_stop m p = (m, (compare_and_swap_state running stopping p).0)
touch force_kill m p = (m, mark_killed p)
touch cancel_context m p = (m, cancel p)
touch check_running m p =
    (m, (if ltb 0 p.closes then (compare_and_swap_state running failed p).0 else p))
touch check_stopping m p =
    (m, (if ltb 0 p.closes then (compare_and_swap_state stopping stopped p).0 else p))
touch (snapshot_descendants pids) m p = (m, set_descendants pids p)
touch (check_starting now) m p =
    let swap = compare_and_swap_state starting failed p in
    if started_long_ago now p.start_time
    then ((if swap.1 then increment_failed m else m), swap.0)
    else (m, p)
