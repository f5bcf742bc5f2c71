-- ===== src/Process/Owner.antt =====
-- process/lifecycle.go: who owns a process. At most one thread works on a process that is claimed, and
-- the state of the process tells what this thread may be at.
use go_cli_server.Prelude.{
  ℕ, ◌==◌, ◌≡◌, refl, Option, none, some, List, [], ◌∷◌, ◌++◌, if◌then◌else◌,
}
use go_cli_server.Process.Managed.{
  ManagedProcess, ProcessState, pending, starting, running, stopping, stopped, failed,
}
use go_cli_server.Process.Lifecycle.{
  Point, ticketed, claimed, refused, registered, failing, unstarted, waiting, unasked, settled,
}
use go_cli_server.Process.World.{Thread}

-- What a thread holds: nothing yet, a process that is not started, one that will not start, a command,
-- or a process with only `close` left to do.
pub data Hold : Type 0 where
  early broken live over : Hold

abbrev pub hold_of : Point → List Hold
hold_of ticketed = []
hold_of claimed = early ∷ []
hold_of refused = early ∷ []
hold_of registered = early ∷ []
hold_of failing = broken ∷ []
hold_of unstarted = broken ∷ []
hold_of waiting = live ∷ []
hold_of unasked = live ∷ []
hold_of settled = over ∷ []

-- What the threads on the process `i` hold.
unfoldable pub holds : ℕ → List Thread → List Hold
holds i [] = []
holds i ((j, pt) ∷ ts) = let rest = holds i ts in if j == i then hold_of pt ++ rest else rest

abbrev pub Unspawned : Option ℕ → Type 0
Unspawned none = Unit
Unspawned (some n) = ⊥

abbrev pub Spawned : Option ℕ → Type 0
Spawned none = ⊥
Spawned (some n) = Unit

-- A process that nobody holds: it is not started, or it is done.
abbrev pub Free : ProcessState → ℕ → Option ℕ → Option ℕ → Type 0
Free pending closes spawned start = (closes ≡ 0) × Unspawned spawned × Unspawned start
Free starting closes spawned start = ⊥
Free running closes spawned start = ⊥
Free stopping closes spawned start = ⊥
Free stopped closes spawned start = closes ≡ 1
Free failed closes spawned start = closes ≡ 1

-- A process that a thread holds.
abbrev pub Held : Hold → ProcessState → Option ℕ → Option ℕ → Type 0
Held early starting spawned start = Unspawned spawned × Unspawned start
Held broken failed spawned start = Unspawned spawned
Held live running spawned start = Spawned spawned
Held live stopping spawned start = Spawned spawned
Held over stopped spawned start = Spawned spawned
Held over failed spawned start = Spawned spawned
Held h s spawned start = ⊥

abbrev pub OwnedBy : ProcessState → ℕ → Option ℕ → Option ℕ → List Hold → Type 0
OwnedBy s closes spawned start [] = Free s closes spawned start
OwnedBy s closes spawned start (h ∷ []) = (closes ≡ 0) × Held h s spawned start
OwnedBy s closes spawned start (h ∷ i ∷ hs) = ⊥

abbrev pub Owned : ManagedProcess → List Hold → Type 0
Owned p hs = OwnedBy p.state p.closes p.spawned p.start_time hs

-- An owner is the only one.
pub alone :
    (s : ProcessState) (closes : ℕ) (spawned start : Option ℕ) (a : List Hold) (h : Hold)
    (b : List Hold)
    → OwnedBy s closes spawned start (a ++ h ∷ b)
    → (a ≡ []) × (b ≡ []) × OwnedBy s closes spawned start (h ∷ [])
alone s closes spawned start [] h [] o = (refl, refl, o)
alone s closes spawned start [] h (i ∷ b) o = absurd o
alone s closes spawned start (i ∷ []) h b o = absurd o
alone s closes spawned start (i ∷ j ∷ a) h b o = absurd o

-- A process that is not started has no owner.
pub pending_free :
    (closes : ℕ) (spawned start : Option ℕ) (hs : List Hold)
    → OwnedBy pending closes spawned start hs
    → (hs ≡ []) × (closes ≡ 0) × Unspawned spawned × Unspawned start
pending_free closes spawned start [] o = (refl, o.0, o.1, o.2)
pending_free closes spawned start (early ∷ []) o = absurd o.1
pending_free closes spawned start (broken ∷ []) o = absurd o.1
pending_free closes spawned start (live ∷ []) o = absurd o.1
pending_free closes spawned start (over ∷ []) o = absurd o.1
pending_free closes spawned start (h ∷ i ∷ hs) o = absurd o
