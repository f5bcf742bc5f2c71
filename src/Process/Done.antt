-- ===== src/Process/Done.antt =====
-- process/lifecycle.go: `done` is closed once, when the process is over.
use go_cli_server.Prelude.{
  arith, ℤ, pos, ltb_ℤ, ℕ, true, ◌||◌, ◌≡◌, refl, ◌⊎◌, inl, inr, Option, List, [], ◌∷◌,
}
use go_cli_server.Process.Managed.{
  ManagedProcess, ProcessConfig, ProcessState, pending, starting, running, stopping, stopped,
  failed, same_state, is_done, new_managed_process,
}
use go_cli_server.Process.Manager.{new_process_manager}
use go_cli_server.Process.World.{World, Event, run}
use go_cli_server.Process.Owner.{Hold, holds, OwnedBy}
use go_cli_server.Process.Run.{IsOwned, run-IsOwned}

-- Nothing is started, and every process is new; the period is that of the health checks.
unfoldable pub initial : ℤ → (ℕ → ProcessConfig) → World
unfolding new_managed_process new_process_manager
initial period configs = record {
  manager = new_process_manager period;
  heap = λ i. new_managed_process (configs i);
  threads = [];
  health_loop = ltb_ℤ (pos 0) period;
}

pub initial-IsOwned : (period : ℤ) (configs : ℕ → ProcessConfig) → IsOwned (initial period configs)
unfolding initial holds new_managed_process new_process_manager
initial-IsOwned period configs = record { owned = λ i. (refl, tt, tt); tickets = omega arith }

-- The process is not done, and `done` is open, or it is done, and `done` was closed once.
abbrev pub ClosedWhenDone : ManagedProcess → Type 0
ClosedWhenDone p = (p.closes ≡ 0) ⊎ ((p.closes ≡ 1) × (is_done p ≡ true))

owned-ClosedWhenDone :
    (s : ProcessState) (closes : ℕ) (spawned start : Option ℕ) (hs : List Hold)
    → OwnedBy s closes spawned start hs
    → (closes ≡ 0) ⊎ ((closes ≡ 1) × ((same_state s stopped || same_state s failed) ≡ true))
owned-ClosedWhenDone pending closes spawned start [] o = inl o.0
owned-ClosedWhenDone starting closes spawned start [] o = absurd o
owned-ClosedWhenDone running closes spawned start [] o = absurd o
owned-ClosedWhenDone stopping closes spawned start [] o = absurd o
owned-ClosedWhenDone stopped closes spawned start [] o = inr (o, refl)
owned-ClosedWhenDone failed closes spawned start [] o = inr (o, refl)
owned-ClosedWhenDone s closes spawned start (h ∷ []) o = inl o.0
owned-ClosedWhenDone s closes spawned start (h ∷ i ∷ hs) o = absurd o

-- Starting from new processes, with or without a loop of health checks, and whatever the order of
-- the calls of `Start`, the steps of their threads, stops, kills, health checks and a shutdown: the
-- channel `done` of every process is open, or it was closed exactly once and the process is stopped
-- or failed.
pub run-ClosedWhenDone :
    (period : ℤ) (configs : ℕ → ProcessConfig) (es : List Event) (i : ℕ)
    → ClosedWhenDone ((run es (initial period configs)).heap i)
unfolding is_done
run-ClosedWhenDone period configs es i =
    let v = run-IsOwned es (initial period configs) (initial-IsOwned period configs) in
    let w = run es (initial period configs) in
    let p = w.heap i in
    owned-ClosedWhenDone p.state p.closes p.spawned p.start_time (holds i w.threads) (v.owned i)
