-- ===== src/Process/World.antt =====
-- The threads of process/lifecycle.go in any order: the manager, the processes, and where the threads
-- of `Start` and `waitForProcess` are, and whether the loop of health checks runs.
use go_cli_server.Prelude.{
  ℕ, zero, suc, Bool, true, false, ◌==◌, Option, none, some, List, [], ◌∷◌, ◌++◌, if◌then◌else◌,
}
use go_cli_server.Process.Managed.{ManagedProcess}
use go_cli_server.Process.Manager.{Heap, ProcessManager}
use go_cli_server.Process.Lifecycle.{
  Outcome, Point, ticketed, Access, Shared, take_ticket, act, touch, give_back,
}

abbrev pub Thread : Type 0
Thread = ℕ × Point

pub record World : Type 0 where
  pub manager : ProcessManager
  pub heap : Heap
  pub threads : List Thread
  pub health_loop : Bool

-- A call of `Start`, the next step of a thread, an access from elsewhere, the flag that `Shutdown`
-- sets under `startMu`, and the return of `healthCheckLoop`, which waits for it.
pub data Event : Type 0 where
  call_start : ℕ → Event
  step_thread : Outcome → ℕ → Event
  access : Access → ℕ → Event
  set_shutdown : Event
  end_health_loop : Event

-- The heap where one process has changed.
unfoldable pub put : Heap → ℕ → ManagedProcess → Heap
put heap i p j = if i == j then p else heap j

abbrev pub Split : Type 0
Split = Option (List Thread × Thread × List Thread)

abbrev pub behind : Thread → Split → Split
behind t none = none
behind t (some (a, u, b)) = some (t ∷ a, u, b)

-- The threads before and behind the one at a place.
unfoldable pub split_at : ℕ → List Thread → Split
split_at k [] = none
split_at zero (t ∷ ts) = some ([], t, ts)
split_at (suc k) (t ∷ ts) = behind t (split_at k ts)

unfoldable pub with_thread : ℕ → Option Point → List Thread → List Thread
with_thread i none ts = ts
with_thread i (some pt) ts = (i, pt) ∷ ts

abbrev pub ticket_taken : World → ℕ → Option ProcessManager → World
ticket_taken w i none = w
ticket_taken w i (some m) = record w { manager = m; threads = (i, ticketed) ∷ w.threads }

unfoldable pub moved : World → ℕ → List Thread → List Thread → Shared × Option Point → World
unfolding put with_thread
moved w i a b r = record w {
  manager = r.0.0;
  heap = put w.heap i r.0.1;
  threads = a ++ with_thread i r.1 b;
}

unfoldable pub thread_moved : Outcome → World → Split → World
unfolding moved act
thread_moved o w none = w
thread_moved o w (some (a, (i, pt), b)) = moved w i a b (act o w.heap w.manager i pt)

unfoldable pub touched : World → ℕ → Shared → World
unfolding put with_thread
touched w i r = record w { manager = r.0; heap = put w.heap i r.1 }

-- The ticket of the loop of health checks.
abbrev pub loop_tickets : Bool → ℕ
loop_tickets b = if b then 1 else 0

-- `healthCheckLoop` returns once `Shutdown` has begun: the flag, and whether the loop still runs.
abbrev pub health_loop_ended : World → Bool → Bool → World
health_loop_ended w true true = record w { manager = give_back w.manager; health_loop = false }
health_loop_ended w true false = w
health_loop_ended w false b = w

unfoldable pub step : Event → World → World
unfolding take_ticket thread_moved split_at touched touch
step (call_start i) w = ticket_taken w i (take_ticket w.manager)
step (step_thread o k) w = thread_moved o w (split_at k w.threads)
step (access x i) w = touched w i (touch x w.manager (w.heap i))
step set_shutdown w = record w { manager = record w.manager { is_shutting_down = true } }
step end_health_loop w = health_loop_ended w w.manager.is_shutting_down w.health_loop

unfoldable pub run : List Event → World → World
unfolding step
run [] w = w
run (e ∷ es) w = run es (step e w)
