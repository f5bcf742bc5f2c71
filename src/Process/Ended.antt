-- ===== src/Process/Ended.antt =====
-- process/lifecycle.go and `Shutdown` of process/manager.go: what is left when no thread runs.
use go_cli_server.Prelude.{
  ℕ, suc, ◌≤◌, Bool, true, false, ◌||◌, ◌≡◌, refl, ap, ◌∙◌, subst, arith, ◌⊎◌, inl, inr, Option,
  none, some, List, [], ◌∷◌, if◌then◌else◌, length,
}
use go_cli_server.Process.Managed.{
  ManagedProcess, ProcessState, pending, starting, running, stopping, stopped, failed, same_state,
  is_done,
}
use go_cli_server.Process.Manager.{ProcessManager}
use go_cli_server.Process.Lifecycle.{Outcome, take_ticket}
use go_cli_server.Process.World.{
  Thread, World, Event, Split, moved, call_start, step_thread, access, set_shutdown,
  end_health_loop, loop_tickets, health_loop_ended, split_at, ticket_taken, thread_moved, touched,
  step, run,
}
use go_cli_server.Process.Owner.{Free, OwnedBy, holds}
use go_cli_server.Process.Run.{IsOwned, step-IsOwned, run-IsOwned}
use go_cli_server.Process.Shutdown.{step-NoSpawn, run-NoSpawn}
use go_cli_server.Process.Draining.{steps_left, drain, run-drain}

-- A process whose command is not there, or which is done.
abbrev pub Ended : ManagedProcess → Type 0
Ended p = (p.spawned ≡ none) ⊎ ((p.closes ≡ 1) × (is_done p ≡ true))

Free-Ended :
    (s : ProcessState) (closes : ℕ) (spawned start : Option ℕ)
    → Free s closes spawned start
    → (spawned ≡ none) ⊎ ((closes ≡ 1) × ((same_state s stopped || same_state s failed) ≡ true))
Free-Ended pending closes none start f = inl refl
Free-Ended pending closes (some n) start f = absurd f.1
Free-Ended starting closes spawned start f = absurd f
Free-Ended running closes spawned start f = absurd f
Free-Ended stopping closes spawned start f = absurd f
Free-Ended stopped closes spawned start f = inr (f, refl)
Free-Ended failed closes spawned start f = inr (f, refl)

loop-threads : (w : World) → (step end_health_loop w).threads ≡ w.threads
unfolding step
loop-threads w = by_flags w.manager.is_shutting_down w.health_loop
  where
    by_flags : (b c : Bool) → (health_loop_ended w b c).threads ≡ w.threads
    by_flags true true = refl
    by_flags true false = refl
    by_flags false c = refl

loop_returns :
    (w : World) → w.manager.is_shutting_down ≡ true → (step end_health_loop w).health_loop ≡ false
unfolding step
loop_returns w down = by_flags w.manager.is_shutting_down w.health_loop down refl
  where
    by_flags :
        (b c : Bool) → b ≡ true → w.health_loop ≡ c → (health_loop_ended w b c).health_loop ≡ false
    by_flags true true d e = refl
    by_flags true false d e = e
    by_flags false c d e = cc

quiet-step :
    (e : Event) (w : World)
    → w.manager.is_shutting_down ≡ true
    → w.threads ≡ []
    → (step e w).threads ≡ []
unfolding step take_ticket touched
quiet-step (call_start i) w down h = by_flag w.manager.is_shutting_down down
  where
    by_flag :
        (b : Bool)
        → b ≡ true
        → (ticket_taken w i (
            if b
            then none
            else some (record w.manager { wait_group = suc w.manager.wait_group }))).threads
          ≡ []
    by_flag true e = h
    by_flag false e = cc
quiet-step (step_thread o k) w down h =
    ap (λ ts. (thread_moved o w (split_at k ts)).threads) h ∙ (unfold split_at thread_moved in h)
quiet-step (access x i) w down h = h
quiet-step set_shutdown w down h = h
quiet-step end_health_loop w down h = loop-threads w ∙ h

-- The loop of health checks does not come back.
no_loop-step : (e : Event) (w : World) → w.health_loop ≡ false → (step e w).health_loop ≡ false
unfolding step thread_moved moved touched
no_loop-step (call_start i) w h = by_ticket (take_ticket w.manager)
  where
    by_ticket : (t : Option ProcessManager) → (ticket_taken w i t).health_loop ≡ false
    by_ticket none = h
    by_ticket (some m) = h
no_loop-step (step_thread o k) w h = by_split (split_at k w.threads)
  where
    by_split : (s : Split) → (thread_moved o w s).health_loop ≡ false
    by_split none = h
    by_split (some (a, (i, pt), b)) = h
no_loop-step (access x i) w h = h
no_loop-step set_shutdown w h = h
no_loop-step end_health_loop w h = by_flags w.manager.is_shutting_down w.health_loop
  where
    by_flags : (b c : Bool) → (health_loop_ended w b c).health_loop ≡ false
    by_flags true true = refl
    by_flags true false = h
    by_flags false c = h

no_loop-run : (es : List Event) (w : World) → w.health_loop ≡ false → (run es w).health_loop ≡ false
unfolding run
no_loop-run [] w h = h
no_loop-run (e ∷ es) w h = no_loop-run es (step e w) (no_loop-step e w h)

quiet-run :
    (es : List Event) (w : World)
    → w.manager.is_shutting_down ≡ true
    → w.threads ≡ []
    → (run es w).threads ≡ []
unfolding run
quiet-run [] w down h = h
quiet-run (e ∷ es) w down h =
    quiet-run es (step e w) (step-NoSpawn e w down).0 (quiet-step e w down h)

-- What `Shutdown` leaves behind.
abbrev pub AllEnded : World → Type 0
AllEnded w = (w.manager.wait_group ≡ 0) × ((i : ℕ) → Ended (w.heap i))

holds-nil : (i : ℕ) → holds i [] ≡ []
unfolding holds
holds-nil i = refl

without_threads : (w : World) → IsOwned w → w.threads ≡ [] → w.health_loop ≡ false → AllEnded w
unfolding is_done
without_threads w v h l = (
  omega (arith, v.tickets, ap length h, ap loop_tickets l),
  λ i.
      let p = w.heap i in
      Free-Ended p.state p.closes p.spawned p.start_time (
        subst (λ hs. OwnedBy p.state p.closes p.spawned p.start_time hs)
          (ap (holds i) h ∙ holds-nil i) (v.owned i)),
)

-- With the flag of `Shutdown` set and no ticket of the wait group out, in a world where every
-- process has at most one owner and every thread and the loop of health checks its ticket: whatever
-- comes after it, no ticket is out, and every process either has no command or is done with `done`
-- closed once.
pub run-AllEnded :
    (w : World) (es : List Event)
    → IsOwned w
    → w.manager.is_shutting_down ≡ true
    → w.manager.wait_group ≡ 0
    → AllEnded (run es w)
run-AllEnded w es v down out =
    without_threads (run es w) (run-IsOwned es w v)
      (quiet-run es w down (empty w.threads (omega (arith, v.tickets, out))))
      (no_loop-run es w (off w.health_loop (omega (arith, v.tickets, out))))
  where
    empty : (ts : List Thread) → length ts ≡ 0 → ts ≡ []
    empty [] e = refl
    empty (t ∷ ts) e = absurd (omega (arith, e))

    off : (b : Bool) → loop_tickets b ≡ 0 → b ≡ false
    off true e = absurd (omega (arith, e))
    off false e = refl

-- In a world where every process has at most one owner and every thread and the loop of health
-- checks its ticket, and where the flag of `Shutdown` is set: if the system answers every step of a
-- thread, each in its own way, so that commands that are waited for end, then after as many steps
-- of the first thread as the threads have left, and the return of the loop of health checks, no
-- ticket is out, and every process either has no command or is done with `done` closed once.
pub drain-AllEnded :
    (os : List Outcome) (w : World)
    → IsOwned w
    → w.manager.is_shutting_down ≡ true
    → steps_left w.threads ≤ length os
    → AllEnded (step end_health_loop (run (drain os) w))
drain-AllEnded os w v down enough =
    let u = run (drain os) w in
    without_threads (step end_health_loop u)
      (step-IsOwned end_health_loop u (run-IsOwned (drain os) w v))
      (loop-threads u ∙ run-drain os w enough) (loop_returns u (run-NoSpawn (drain os) w down).0)
