-- ===== src/Client/Reconnecting.antt =====
-- client/resilient.go: the goroutines of a `ResilientConn` in any order, and one loop on its own.
use go_cli_server.Prelude.{
  ℕ, zero, suc, ◌≡◌, ◌≢◌, refl, sym, ◌∙◌, Bool, true, false, ◌||◌, ◌==◌, Option, none, some, List,
  [], ◌∷◌, if◌then◌else◌,
}
use go_cli_server.Client.Resilient.{
  ResilientConfig, ResilientConn, new_resilient_conn, Loop, LoopPoint, at_top, dropping, dialing,
  published, in_backoff, publishing, Reply, answered, refused, new_loop, loop_step, attempt_failed,
  gives_up, trigger_reconnect, trigger_reconnect_if_current, connect_section, close_section,
  close_old,
}

-- `loops` are the loops that run, `connects` counts the calls of `Connect` behind their look at the
-- shutdown flag, and `closing` says that a `Close` has set this flag and has not come to the lock yet.
pub record World : Type 0 where
  pub rc : ResilientConn
  pub loops : List Loop
  pub connects : ℕ
  pub closing : Bool

pub data Event : Type 0 where
  heartbeats_failed connect_begins close_begins close_ends : Event
  request_failed : ℕ → Event
  connect_ends : Bool → Event
  step_loop : Reply → ℕ → Event

abbrev pub with_loop : Option Loop → List Loop → List Loop
with_loop none ls = ls
with_loop (some l) ls = l ∷ ls

-- A step of the loop at a place.
unfoldable pub step_at :
    ResilientConfig → Reply → ResilientConn → ℕ → List Loop → ResilientConn × List Loop
unfolding loop_step
step_at c r rc k [] = (rc, [])
step_at c r rc zero (l ∷ ls) = let s = loop_step c r rc l l.point in (s.0, with_loop s.1 ls)
step_at c r rc (suc k) (l ∷ ls) = let s = step_at c r rc k ls in (s.0, l ∷ s.1)

abbrev pub triggered : World → ResilientConn × Option Loop → World
triggered w s = record w { rc = s.0; loops = with_loop s.1 w.loops }

abbrev pub connected_next : World → Bool → ℕ → World
connected_next w b zero = w
connected_next w b (suc n) = record w { rc = connect_section b w.rc; connects = n }

unfoldable pub step : ResilientConfig → Event → World → World
unfolding trigger_reconnect trigger_reconnect_if_current step_at close_section
step c heartbeats_failed w = triggered w (trigger_reconnect c w.rc)
step c (request_failed gen) w = triggered w (trigger_reconnect_if_current c gen w.rc)
step c connect_begins w =
    if w.rc.is_shutdown
    then w
    else record w { rc = record w.rc { reconnect_failed = false }; connects = suc w.connects }
step c (connect_ends b) w = connected_next w b w.connects
step c close_begins w =
    if w.rc.is_shutdown
    then w
    else record w { rc = record w.rc { is_shutdown = true }; closing = true }
step c close_ends w = if w.closing then record w { rc = close_section w.rc; closing = false } else w
step c (step_loop r k) w = let s = step_at c r w.rc k w.loops in record w { rc = s.0; loops = s.1 }

unfoldable pub run : ResilientConfig → List Event → World → World
unfolding step
run c [] w = w
run c (e ∷ es) w = run c es (step c e w)

unfoldable pub initial : World
unfolding new_resilient_conn
initial = record { rc = new_resilient_conn; loops = []; connects = 0; closing = false }

-- A loop runs exactly if the connection says that it is reconnecting, and never two of them.
unfoldable pub OneLoop : ResilientConn → List Loop → Type 0
OneLoop rc [] = rc.reconnecting ≡ false
OneLoop rc (l ∷ []) = rc.reconnecting ≡ true
OneLoop rc (l ∷ k ∷ ls) = ⊥

-- A loop that goes on leaves the flag, and one that ends clears it.
Flagged : ResilientConn → ResilientConn × Option Loop → Type 0
Flagged rc (s, none) = s.reconnecting ≡ false
Flagged rc (s, some l) = s.reconnecting ≡ rc.reconnecting

chosen-Flagged :
    (b : Bool) (rc : ResilientConn) (s t : ResilientConn × Option Loop)
    → Flagged rc s
    → Flagged rc t
    → Flagged rc (if b then s else t)
chosen-Flagged true rc s t p q = p
chosen-Flagged false rc s t p q = q

close_old-flag :
    (o : Option ℕ) (rc : ResilientConn) → (close_old o rc).reconnecting ≡ rc.reconnecting
close_old-flag none rc = refl
close_old-flag (some n) rc = refl

loop_step-Flagged :
    (c : ResilientConfig) (r : Reply) (rc : ResilientConn) (l : Loop) (p : LoopPoint)
    → Flagged rc (loop_step c r rc l p)
unfolding loop_step attempt_failed Flagged
loop_step-Flagged c r rc l at_top = chosen-Flagged rc.is_shutdown rc _ _ refl refl
loop_step-Flagged c r rc l dropping = close_old-flag rc.conn rc
loop_step-Flagged c answered rc l dialing = refl
loop_step-Flagged c refused rc l dialing = chosen-Flagged (gives_up c l.attempts) rc _ _ refl refl
loop_step-Flagged c r rc l (publishing n) = chosen-Flagged rc.is_shutdown rc _ _ refl refl
loop_step-Flagged c r rc l published = refl
loop_step-Flagged c answered rc l in_backoff = refl
loop_step-Flagged c refused rc l in_backoff = chosen-Flagged rc.is_shutdown rc _ _ refl refl

step_at-OneLoop :
    (c : ResilientConfig) (r : Reply) (rc : ResilientConn) (k : ℕ) (ls : List Loop)
    → OneLoop rc ls
    → OneLoop (step_at c r rc k ls).0 (step_at c r rc k ls).1
unfolding step_at OneLoop Flagged
step_at-OneLoop c r rc k [] o = o
step_at-OneLoop c r rc zero (l ∷ []) o =
    by_step (loop_step c r rc l l.point) (loop_step-Flagged c r rc l l.point)
  where
    by_step : (s : ResilientConn × Option Loop) → Flagged rc s → OneLoop s.0 (with_loop s.1 [])
    by_step (s, none) f = f
    by_step (s, some m) f = f ∙ o
step_at-OneLoop c r rc (suc k) (l ∷ []) o = o
step_at-OneLoop c r rc k (l ∷ m ∷ ls) o = absurd o

OneLoop-flag :
    (rc s : ResilientConn) (ls : List Loop)
    → s.reconnecting ≡ rc.reconnecting
    → OneLoop rc ls
    → OneLoop s ls
unfolding OneLoop
OneLoop-flag rc s [] e o = e ∙ o
OneLoop-flag rc s (l ∷ []) e o = e ∙ o
OneLoop-flag rc s (l ∷ k ∷ ls) e o = o

trigger-OneLoop :
    (c : ResilientConfig) (rc : ResilientConn) (ls : List Loop)
    → OneLoop rc ls
    → OneLoop (trigger_reconnect c rc).0 (with_loop (trigger_reconnect c rc).1 ls)
unfolding trigger_reconnect OneLoop
trigger-OneLoop c rc ls o =
    by_tests (rc.is_shutdown || rc.reconnect_failed) rc.reconnecting ls refl o
  where
    by_tests :
        (b d : Bool) (ls : List Loop)
        → rc.reconnecting ≡ d
        → OneLoop rc ls
        → let s : ResilientConn × Option Loop =
            (if b
              then (rc, none)
              else if d
              then (rc, none)
              else (record rc { reconnecting = true; connected = false }, some (new_loop c))) in
          OneLoop s.0 (with_loop s.1 ls)
    by_tests true d ls e o = o
    by_tests false true ls e o = o
    by_tests false false [] e o = refl
    by_tests false false (l ∷ []) e o = absurd (apart (sym o ∙ e))
      where
        apart : true ≢ false
        apart e = cc
    by_tests false false (l ∷ k ∷ ls) e o = absurd o

step-OneLoop :
    (c : ResilientConfig) (e : Event) (w : World)
    → OneLoop w.rc w.loops
    → OneLoop (step c e w).rc (step c e w).loops
unfolding step trigger_reconnect_if_current connect_section close_section
step-OneLoop c heartbeats_failed w o = trigger-OneLoop c w.rc w.loops o
step-OneLoop c (request_failed gen) w o = by_test (gen == w.rc.generation)
  where
    by_test :
        (b : Bool)
        → let s : ResilientConn × Option Loop =
            (if b then trigger_reconnect c w.rc else (w.rc, none)) in
          OneLoop s.0 (with_loop s.1 w.loops)
    by_test true = trigger-OneLoop c w.rc w.loops o
    by_test false = o
step-OneLoop c connect_begins w o = by_test w.rc.is_shutdown
  where
    by_test :
        (b : Bool)
        → let u : World =
            (if b then w else record w {
              rc = record w.rc { reconnect_failed = false };
              connects = suc w.connects;
            }) in
          OneLoop u.rc u.loops
    by_test true = o
    by_test false = OneLoop-flag w.rc _ w.loops refl o
step-OneLoop c (connect_ends b) w o = by_count w.connects b
  where
    by_count : (n : ℕ) (b : Bool) → OneLoop (connected_next w b n).rc (connected_next w b n).loops
    by_count zero b = o
    by_count (suc n) false = o
    by_count (suc n) true = OneLoop-flag w.rc _ w.loops (close_old-flag w.rc.conn _) o
step-OneLoop c close_begins w o = by_test w.rc.is_shutdown
  where
    by_test :
        (b : Bool)
        → let u : World =
            (if b
              then w
              else record w { rc = record w.rc { is_shutdown = true }; closing = true }) in
          OneLoop u.rc u.loops
    by_test true = o
    by_test false = OneLoop-flag w.rc _ w.loops refl o
step-OneLoop c close_ends w o = by_test w.closing
  where
    by_test :
        (b : Bool)
        → let u : World =
            (if b then record w { rc = close_section w.rc; closing = false } else w) in
          OneLoop u.rc u.loops
    by_test true = OneLoop-flag w.rc _ w.loops (close_old-flag w.rc.conn _) o
    by_test false = o
step-OneLoop c (step_loop r k) w o = step_at-OneLoop c r w.rc k w.loops o

-- If exactly one reconnecting loop runs when the connection says that it is reconnecting, and none
-- when it does not, then this holds after any failures, calls of `Connect` and `Close`, and steps
-- of the loops.
pub run-OneLoop :
    (c : ResilientConfig) (es : List Event) (w : World)
    → OneLoop w.rc w.loops
    → OneLoop (run c es w).rc (run c es w).loops
unfolding run
run-OneLoop c [] w o = o
run-OneLoop c (e ∷ es) w o = run-OneLoop c es (step c e w) (step-OneLoop c e w o)
