-- ===== src/Scheduler.antt =====
-- scheduler/: tasks that are delivered later, retried, and kept in a file per project.
-- The task and the scheduler of scheduler/scheduler.go. Time is what package `time` counts with, a
-- parameter: `T`, with the sum of a time and a duration.
pub mod Clock
pub mod Store
pub mod Tasks
pub mod Operations
pub mod Life
pub mod Lookup
pub mod Updates
pub mod Accounts
pub mod Ticks
use go_cli_server.Prelude.{ℕ, Bool, List, Option, ℤ}
use go_cli_server.Text.{Bytes}

pub data TaskStatus : Type 0 where
  pending delivered failed cancelled : TaskStatus

-- `Task`, without its lock. `attempts` is never negative.
pub record Task (T : Type 0) : Type 0 where
  pub id : Bytes
  pub target_id : Bytes
  pub payload : Bytes
  pub deliver_at : T
  pub created_at : T
  pub project_path : Bytes
  pub status : TaskStatus
  pub attempts : ℕ
  pub last_error : Bytes
  pub delivering : Bool
