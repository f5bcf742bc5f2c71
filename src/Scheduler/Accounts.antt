-- ===== src/Scheduler/Accounts.antt =====
-- `deliverTask` of scheduler/scheduler.go: the map, the counters and the state file behind a delivery.
use go_cli_server.Prelude.{◌+◌, true, ◌≡◌, none, some, length, if◌then◌else◌}
use go_cli_server.Text.{Bytes, is_some}
use go_cli_server.Protocol.Registry.{lookup}
use go_cli_server.Scheduler.{Task}
use go_cli_server.Scheduler.Store.{Os, Codec}
use go_cli_server.Scheduler.Tasks.{Scheduler, is_pending, Rest}
use go_cli_server.Scheduler.Operations.{update_task, saved, removed, finish}
use go_cli_server.Process.Maps.{Distinct}
use go_cli_server.Scheduler.Updates.{count_delivered, count_failed}

module _ {F T : Type 0} (os : Os F) (json : Codec T) (stamp : Bytes) where
  -- The task `u` after its delivery: it is in the map, and its file is written, as long as it is
  -- pending; else it is in neither of them, and it is counted under its status.
  pub record IsAccounted (s s' : Scheduler F T) (u : Task T) : Type 0 where
    pub kept : lookup u.id s'.tasks ≡ (if is_pending u.status then some u else none)
    pub filed : s'.state_manager ≡ (
        if is_pending u.status
        then saved os json stamp s.state_manager u
        else removed os json stamp s.state_manager u)
    pub counted_delivered : s'.total_delivered ≡ s.total_delivered + count_delivered u.status
    pub counted_failed : s'.total_failed ≡ s.total_failed + count_failed u.status
    pub counted_cancelled : s'.total_cancelled ≡ s.total_cancelled
    pub conserved :
        length s'.tasks + s'.total_delivered + s'.total_failed
        ≡ length s.tasks + s.total_delivered + s.total_failed
    pub distinct : Distinct s'.tasks

  module _ (s : Scheduler F T) (d : Distinct s.tasks) (u : Task T)
      (found : is_some (lookup u.id s.tasks) ≡ true) where
    abbrev updated : Scheduler F T
    updated = record s { tasks = update_task u s.tasks }

    abbrev after : Rest → Scheduler F T
    after r = finish os json stamp updated u r
