-- ===== src/Tests/Scheduler.antt =====
-- The theorems on scheduler/ at concrete inputs.
use go_cli_server.Prelude.{
  List, some, ok, ℕ, true, false, ◌+◌, ◌≡◌, ◌≢◌, refl, arith, none, [], ◌∷◌, ◌++◌, ℤ, pos, negsuc,
  ltb,
}
use go_cli_server.Text.{Bytes}
use go_cli_server.Scheduler.{Task, pending, cancelled}
use go_cli_server.Protocol.{text}
use go_cli_server.Scheduler.Store.{Os, Codec, not_exist, other}
use go_cli_server.Scheduler.Operations.{schedule, new_task, check_schedule, cancel, get}
use go_cli_server.Scheduler.Ticks.{check_due_tasks-check_due_tasks}
use go_cli_server.Scheduler.Lookup.{cancel-schedule}
use go_cli_server.Scheduler.Tasks.{
  check_due_tasks, Scheduler, default_config, dispatch_task, is_due, resolve, cancel_task,
}
use go_cli_server.Scheduler.Life.{
  Step, dispatched, resolved, was_cancelled, Reachable, made, stepped, IsSound, Reachable-IsSound,
  status_final,
}

abbrev later : ℕ → ℤ → ℕ
later t (pos n) = t + n
later t (negsuc n) = t

abbrev fresh : Task ℕ
fresh = record {
  id = 116 ∷ [];
  target_id = 97 ∷ [];
  payload = 98 ∷ [];
  deliver_at = 5;
  created_at = 0;
  project_path = [];
  status = pending;
  attempts = 0;
  last_error = [];
  delivering = false;
}

abbrev in_flight : Task ℕ
in_flight = dispatch_task ltb 6 fresh

abbrev cancelled_in_flight : Task ℕ
cancelled_in_flight = record fresh { delivering = true; status = cancelled }

dispatch : Step ltb later 3 (pos 10) fresh in_flight
dispatch = dispatched 6 (unfold is_due in refl)

reached_in_flight : Reachable ltb later 3 (pos 10) in_flight
reached_in_flight = stepped (made refl (omega arith) refl) dispatch

reached_cancelled : Reachable ltb later 3 (pos 10) cancelled_in_flight
unfolding dispatch_task is_due cancel_task
reached_cancelled = stepped reached_in_flight (was_cancelled refl)

Reachable-IsSound_example : IsSound ltb later 3 (pos 10) cancelled_in_flight
Reachable-IsSound_example = Reachable-IsSound ltb later 3 (pos 10) reached_cancelled

status_not_pending : cancelled ≢ pending
status_not_pending e = cc

abbrev late : Task ℕ
late = record cancelled_in_flight { delivering = false }

late_result : Step ltb later 3 (pos 10) cancelled_in_flight late
unfolding resolve
late_result = resolved 9 false none refl

status_final_example : late.status ≡ cancelled_in_flight.status
status_final_example =
    status_final ltb later 3 (pos 10) reached_cancelled status_not_pending late_result

-- Files that cannot be made, and texts that are not read.
abbrev no_files : Os (Unit {0})
no_files = record {
  mkdir_all = λ f p. (f, some other);
  read_file = λ f p. (some not_exist, []);
  open_file = λ f p. (f, some other);
  write_synced = λ f p c. (f, some other);
  remove = λ f p. (f, some not_exist);
  rename = λ f p q. (f, some other);
  stat = λ f p. some not_exist;
}

abbrev no_codec : Codec ℕ
no_codec = record {
  marshal = λ s. none;
  unmarshal = λ c. none;
  join_path = λ a b c. a ++ (b ++ c);
  dir = λ p. p;
}

abbrev empty_scheduler : Scheduler (Unit {0}) ℕ
empty_scheduler = record {
  config = default_config;
  state_manager = none;
  tasks = [];
  started = true;
  total_scheduled = 0;
  total_delivered = 0;
  total_failed = 0;
  total_cancelled = 0;
  next_task_id = 6;
}

abbrev first_task : Task ℕ
first_task = new_task later 0 7 (text "ab12") (pos 5) (text "hello") []

abbrev one_task : Scheduler (Unit {0}) ℕ
one_task = record empty_scheduler {
  tasks = (first_task.id, first_task) ∷ [];
  total_scheduled = 1;
  next_task_id = 7;
}

first_scheduled :
    schedule no_files no_codec [] later 0 empty_scheduler (text "ab12") (pos 5) (text "hello") []
    ≡ ok (one_task, first_task)
unfolding schedule new_task check_schedule default_config
first_scheduled = refl

cancel-schedule_example :
    (get one_task first_task.id ≡ some first_task)
    × ((s : Scheduler (Unit {0}) ℕ) × (cancel no_files no_codec [] one_task first_task.id ≡ ok s)
        × (get s first_task.id ≡ none)
        × (s.total_scheduled ≡ 1)
        × (s.total_cancelled ≡ 1))
cancel-schedule_example =
    cancel-schedule no_files no_codec [] later 0 empty_scheduler (text "ab12") (pos 5)
      (text "hello") [] first_scheduled

abbrev due_and_not : List (Bytes × Task ℕ)
due_and_not = (49 ∷ [], fresh) ∷ (50 ∷ [], cancelled_in_flight) ∷ []

check_due_tasks-check_due_tasks_example :
    check_due_tasks ltb 6 (check_due_tasks ltb 6 due_and_not).0
    ≡ ((check_due_tasks ltb 6 due_and_not).0, [])
check_due_tasks-check_due_tasks_example = check_due_tasks-check_due_tasks ltb 6 due_and_not

first_tick : (check_due_tasks ltb 6 due_and_not).1 ≡ (49 ∷ []) ∷ []
unfolding check_due_tasks is_due
first_tick = refl
