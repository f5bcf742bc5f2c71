-- ===== src/Tests/Managing.antt =====
-- The theorems on process/process.go, process/manager.go and process/lifecycle.go at concrete inputs.
use go_cli_server.Prelude.{
  ℕ, zero, suc, true, false, List, [], ◌∷◌, ◌≡◌, refl, arith, some, none, ok, err, pos, negsuc,
}
use go_cli_server.Text.{Bytes}
use go_cli_server.Text.Decimal.{atoi}
use go_cli_server.Protocol.{text}
use go_cli_server.Process.Managed.{
  ProcessConfig, process_exists, new_managed_process, itoa, is_done, stopping,
}
use go_cli_server.Process.Itoa.{atoi-itoa}
use go_cli_server.Process.Manager.{
  Heap, ProcessManager, new_process_manager, register, remove_by_path, get_by_path,
}
use go_cli_server.Process.Maps.{Distinct}
use go_cli_server.Process.Counting.{
  IsConsistent, Keyed, Call, register_call, remove_call, remove_by_path_call, run_calls,
  run_calls-IsConsistent, register-new,
}
use go_cli_server.Process.Finding.{Answers, get-Answers}
use go_cli_server.Process.Lifecycle.{
  Outcome, ask_stop, force_kill, spawned_as, exit_error, no_pipe, no_command, exited, other_error,
}
use go_cli_server.Process.World.{
  World, Event, call_start, step_thread, access, set_shutdown, end_health_loop, step, run,
}
use go_cli_server.Process.Run.{IsOwned, step-IsOwned, run-IsOwned}
use go_cli_server.Process.Done.{initial, initial-IsOwned, ClosedWhenDone, run-ClosedWhenDone}
use go_cli_server.Process.Ending.{Over, Settled, run-Settled}
use go_cli_server.Process.Moves.{Moves, step-Moves}
use go_cli_server.Process.Shutdown.{NoSpawn, run-NoSpawn}
use go_cli_server.Process.Draining.{steps_left, drain}
use go_cli_server.Process.Ended.{AllEnded, run-AllEnded, drain-AllEnded}
use go_cli_server.Process.Restart.{start_or_reuse, IsReuse, start_or_reuse-IsReuse}

atoi-itoa_example : (s : Bytes) × (itoa (negsuc 14) ≡ some s) × (atoi s ≡ some (negsuc 14))
atoi-itoa_example = atoi-itoa (negsuc 14) (omega arith)

abbrev config : ProcessConfig
config = record {
  id = text "dev";
  project_path = text "/p";
  working_dir = [];
  command = text "make";
  args = [];
  env = [];
  labels = none;
  buffer_size = pos 4;
  timeout = pos 0;
  enable_stdin = false;
  output_callback = false;
}

-- The processes with even and odd numbers have two paths.
abbrev heap : Heap
heap zero = new_managed_process config
heap (suc n) = new_managed_process (record config { project_path = text "/q" })

-- A manager with health checks.
abbrev manager : ProcessManager
manager = new_process_manager (pos 10)

empty-IsConsistent : IsConsistent heap manager
empty-IsConsistent =
    unfold new_process_manager Distinct Keyed in
    record { counted = refl; distinct = tt; keyed = tt }

abbrev calls : List Call
calls =
    register_call 0
    ∷ register_call 1
    ∷ register_call 0
    ∷ remove_call (text "dev")
    ∷ remove_by_path_call (text "dev") (text "/q")
    ∷ []

run_calls-IsConsistent_example : IsConsistent heap (run_calls heap calls manager)
run_calls-IsConsistent_example = run_calls-IsConsistent heap calls manager empty-IsConsistent

register-new_example :
    let m = (register heap manager 0).0 in
    let removed = remove_by_path m (heap 0).id (heap 0).project_path in
    ((register heap manager 0).1 ≡ ok true)
    × (get_by_path m (heap 0).id (heap 0).project_path ≡ ok 0)
    × (register heap m 0 ≡ (m, err process_exists))
    × (removed.1 ≡ true)
    × (removed.0.processes ≡ manager.processes)
    × (removed.0.active_count ≡ manager.active_count)
register-new_example =
    register-new heap manager 0 (unfold new_process_manager in refl)
      (unfold get_by_path new_process_manager in refl)

get-Answers_example : Answers heap (text "dev") (run_calls heap calls manager)
get-Answers_example =
    get-Answers heap (text "dev") (run_calls heap calls manager)
      (run_calls-IsConsistent heap calls manager empty-IsConsistent)

abbrev configs : ℕ → ProcessConfig
configs n = config

-- A command that gets the process ID 7 and dies by a signal.
abbrev outcome : Outcome
outcome = record { spawn = spawned_as 7; exit = exit_error (negsuc 0); now = 5 }

-- Two starts of one process, a stop, and the flag.
abbrev events : List Event
events =
    call_start 0
    ∷ call_start 0
    ∷ step_thread outcome 1
    ∷ step_thread outcome 0
    ∷ step_thread outcome 0
    ∷ step_thread outcome 0
    ∷ access ask_stop 0
    ∷ set_shutdown
    ∷ []

run-ClosedWhenDone_example : ClosedWhenDone ((run events (initial (pos 10) configs)).heap 0)
run-ClosedWhenDone_example = run-ClosedWhenDone (pos 10) configs events 0

-- The answers of the system behind them: the command is killed, and what is asked then.
abbrev answers : List Outcome
answers =
    outcome
    ∷ record { spawn = no_command; exit = exited; now = 6 }
    ∷ record { spawn = no_pipe; exit = other_error; now = 7 }
    ∷ []

-- The world behind these events, and the one where the command has died as well.
world : World
world = run events (initial (pos 10) configs)

ended : World
ended = step end_health_loop (run (drain answers) world)

world-IsOwned : IsOwned world
world-IsOwned =
    unfold world in run-IsOwned events (initial (pos 10) configs) (initial-IsOwned (pos 10) configs)

ended-IsOwned : IsOwned ended
ended-IsOwned =
    unfold ended in
    step-IsOwned end_health_loop (run (drain answers) world)
      (run-IsOwned (drain answers) world world-IsOwned)

world-down : world.manager.is_shutting_down ≡ true
unfolding world run initial new_process_manager
world-down = refl

run-NoSpawn_example : NoSpawn world (run (call_start 1 ∷ access force_kill 0 ∷ []) world)
run-NoSpawn_example = run-NoSpawn (call_start 1 ∷ access force_kill 0 ∷ []) world world-down

ended-Over : Over (ended.heap 0)
unfolding ended world run initial drain new_process_manager new_managed_process is_done
ended-Over = (refl, refl)

run-Settled_example :
    Settled
      (ended.heap 0)
      ((run (access force_kill 0 ∷ call_start 0 ∷ step_thread outcome 0 ∷ []) ended).heap 0)
run-Settled_example =
    run-Settled (access force_kill 0 ∷ call_start 0 ∷ step_thread outcome 0 ∷ []) ended 0
      ended-IsOwned ended-Over

step-Moves_example : Moves (world.heap 0).state ((step (step_thread outcome 0) world).heap 0).state
step-Moves_example = step-Moves (step_thread outcome 0) world 0 world-IsOwned

three_left : steps_left world.threads ≡ 3
unfolding world run initial new_process_manager steps_left
three_left = refl

drain-AllEnded_example : AllEnded (step end_health_loop (run (drain answers) world))
drain-AllEnded_example =
    drain-AllEnded answers world world-IsOwned world-down (omega (arith, three_left))

run-AllEnded_example : AllEnded (run (call_start 1 ∷ step_thread outcome 0 ∷ []) ended)
run-AllEnded_example =
    run-AllEnded ended (call_start 1 ∷ step_thread outcome 0 ∷ []) ended-IsOwned
      (unfold ended world run initial drain new_process_manager in refl)
      (unfold ended world run initial drain new_process_manager in refl)

-- A process that is stopping, which leaves while `StartOrReuse` waits.
abbrev stopping_heap : Heap
stopping_heap i = record (heap i) { state = stopping }

start_or_reuse-IsReuse_example :
    let m = run_calls heap calls manager in
    IsReuse stopping_heap m
      (some m)
      (text "dev")
      (text "/p")
      (start_or_reuse stopping_heap m (some m) (text "dev") (text "/p"))
start_or_reuse-IsReuse_example =
    start_or_reuse-IsReuse stopping_heap (run_calls heap calls manager)
      (some (run_calls heap calls manager)) (text "dev") (text "/p")
