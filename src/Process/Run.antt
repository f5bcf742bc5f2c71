-- ===== src/Process/Run.antt =====
-- process/lifecycle.go: the threads in any order keep the owners apart, and the tickets are accounted for.
use go_cli_server.Prelude.{
  ℕ, zero, suc, ◌+◌, Bool, true, false, ◌==◌, ◌≡◌, refl, sym, ap, ◌∙◌, subst, arith, inl, inr,
  Bool-cases, Option, none, some, List, [], ◌∷◌, ◌++◌, append_assoc, length, length-append,
  if◌then◌else◌,
}
use go_cli_server.Process.Managed.{ManagedProcess}
use go_cli_server.Process.Manager.{Heap}
use go_cli_server.Process.Lifecycle.{
  Outcome, Point, ticketed, Access, Shared, take_ticket, act, touch,
}
use go_cli_server.Process.World.{
  Thread, World, Event, call_start, step_thread, access, set_shutdown, end_health_loop,
  loop_tickets, health_loop_ended, put, Split, behind, split_at, with_thread, ticket_taken, moved,
  thread_moved, touched, step, run,
}
use go_cli_server.Process.Owner.{hold_of, holds, Owned}
use go_cli_server.Process.Touch.{touch-Owned}
use go_cli_server.Process.Act.{point_holds, Handed, act-Owned}
use go_cli_server.Process.Tickets.{points, Counts, act-Counts, touch-Same}

put_same : (h : Heap) (i : ℕ) (p : ManagedProcess) → put h i p i ≡ p
unfolding put
put_same h i p = let e : (i == i) ≡ true = ground arith in rw e refl

put_other : (h : Heap) (i j : ℕ) (p : ManagedProcess) → (i == j) ≡ false → put h i p j ≡ h j
unfolding put
put_other h i j p e = rw e refl

pub holds-append : (i : ℕ) (a b : List Thread) → holds i (a ++ b) ≡ holds i a ++ holds i b
unfolding holds
holds-append i [] b = refl
holds-append i ((j, pt) ∷ a) b = elim (Bool-cases (j == i)) [
  | inl e ↦ rw (e, holds-append i a b) (sym (append_assoc (hold_of pt) (holds i a) (holds i b)))
  | inr e ↦ rw (e, holds-append i a b) refl
]

pub holds_same :
    (i : ℕ) (o : Option Point) (b : List Thread)
    → holds i (with_thread i o b) ≡ point_holds o ++ holds i b
unfolding holds with_thread
holds_same i none b = refl
holds_same i (some pt) b = let e : (i == i) ≡ true = ground arith in rw e refl

-- What the threads hold on the process of one of them.
pub holds-split :
    (i : ℕ) (pt : Point) (ts a b : List Thread)
    → ts ≡ a ++ (i, pt) ∷ b
    → holds i ts ≡ holds i a ++ (hold_of pt ++ holds i b)
holds-split i pt ts a b e =
    ap (holds i) e
    ∙ holds-append i a ((i, pt) ∷ b)
    ∙ ap (λ l. holds i a ++ l) (unfold with_thread in holds_same i (some pt) b)

holds_other :
    (i j : ℕ) (o : Option Point) (b : List Thread)
    → (i == j) ≡ false
    → holds j (with_thread i o b) ≡ holds j b
unfolding holds with_thread
holds_other i j none b e = refl
holds_other i j (some pt) b e = rw e refl

unfoldable pub Splits : List Thread → Split → Type 0
Splits ts none = Unit
Splits ts (some (a, t, b)) = ts ≡ a ++ t ∷ b

pub split_at-Splits : (k : ℕ) (ts : List Thread) → Splits ts (split_at k ts)
unfolding split_at Splits
split_at-Splits k [] = tt
split_at-Splits zero (u ∷ ts) = refl
split_at-Splits (suc k) (u ∷ ts) = later (split_at k ts) (split_at-Splits k ts)
  where
    later : (r : Split) → Splits ts r → Splits (u ∷ ts) (behind u r)
    later none e = tt
    later (some (a, t, b)) e = ap (λ l. u ∷ l) e

-- Every process has at most one owner, and there is a ticket for every thread and
-- for the loop of health checks.
pub record IsOwned (w : World) : Type 0 where
  pub owned : (i : ℕ) → Owned (w.heap i) (holds i w.threads)
  pub tickets : w.manager.wait_group ≡ length w.threads + loop_tickets w.health_loop

module _ (w : World) (v : IsOwned w) where
  -- The change of one process and of one thread on it.
  moved-Owned :
      (i : ℕ) (pt : Point) (a b : List Thread) (r : Shared × Option Point)
      → w.threads ≡ a ++ (i, pt) ∷ b
      → Handed (holds i a) (holds i b) r
      → (j : ℕ) → Owned ((moved w i a b r).heap j) (holds j (moved w i a b r).threads)
  unfolding moved Handed
  moved-Owned i pt a b r e h j = elim (Bool-cases (i == j)) [
    | inl q ↦
        let same_one : i ≡ j = ground arith in
        subst (λ x. Owned (put w.heap i r.0.1 x) (holds x (a ++ with_thread i r.1 b))) same_one
          (rw (put_same w.heap i r.0.1, holds-append i a (with_thread i r.1 b), holds_same i r.1 b)
            h)
    | inr q ↦
        rw
          (
            put_other w.heap i j r.0.1 q,
            holds-append j a (with_thread i r.1 b),
            holds_other i j r.1 b q,
          )
          (subst (λ l. Owned (w.heap j) l)
            (ap (holds j) e
              ∙ holds-append j a ((i, pt) ∷ b)
              ∙ ap (λ l. holds j a ++ l) (holds_other i j (some pt) b q))
            (v.owned j))
  ]

  moved-tickets :
      (i n : ℕ) (a b : List Thread) (r : Shared × Option Point)
      → n ≡ length a + length b + loop_tickets w.health_loop
      → Counts w.manager n r
      → (moved w i a b r).manager.wait_group
        ≡ length (moved w i a b r).threads + loop_tickets w.health_loop
  unfolding moved Counts
  moved-tickets i n a b r e c = by_point r.1 c.0
    where
      by_point :
          (o : Option Point)
          → r.0.0.wait_group ≡ points o + n
          → r.0.0.wait_group ≡ length (a ++ with_thread i o b) + loop_tickets w.health_loop
      by_point none q = unfold with_thread in omega (arith, q, e, length-append a b)
      by_point (some pt) q =
          unfold with_thread in omega (arith, q, e, length-append a ((i, pt) ∷ b))

  thread_moved-IsOwned :
      (o : Outcome) (s : Split) → Splits w.threads s → IsOwned (thread_moved o w s)
  unfolding thread_moved Splits
  thread_moved-IsOwned o none e = v
  thread_moved-IsOwned o (some (a, (i, pt), b)) e =
      let n = length a + length b + loop_tickets w.health_loop in
      let before : Owned (w.heap i) (holds i a ++ (hold_of pt ++ holds i b)) =
        subst (λ l. Owned (w.heap i) l) (holds-split i pt w.threads a b e) (v.owned i) in
      let size : w.manager.wait_group ≡ 1 + n =
        omega (arith, v.tickets, ap length e, length-append a ((i, pt) ∷ b)) in
      record {
        owned =
            moved-Owned i pt a b (act o w.heap w.manager i pt) e
              (act-Owned o w.heap w.manager i pt (holds i a) (holds i b) before);
        tickets =
            moved-tickets i n a b (act o w.heap w.manager i pt) refl
              (act-Counts o w.heap w.manager i n size pt);
      }

  call_start-IsOwned : (i : ℕ) → IsOwned (step (call_start i) w)
  unfolding step take_ticket
  call_start-IsOwned i = by_flag w.manager.is_shutting_down
    where
      held : (j : ℕ) → holds j ((i, ticketed) ∷ w.threads) ≡ holds j w.threads
      held j = elim (Bool-cases (i == j)) [
        | inl e ↦ unfold holds in rw e refl
        | inr e ↦ unfold holds in rw e refl
      ]

      by_flag :
          (b : Bool)
          → IsOwned (
              ticket_taken w i (
                if b
                then none
                else some (record w.manager { wait_group = suc w.manager.wait_group })))
      by_flag true = v
      by_flag false = record {
        owned = λ j. subst (λ l. Owned (w.heap j) l) (sym (held j)) (v.owned j);
        tickets = omega (arith, v.tickets);
      }

  access-IsOwned : (x : Access) (i : ℕ) → IsOwned (step (access x i) w)
  unfolding step touched
  access-IsOwned x i =
      let r = touch x w.manager (w.heap i) in
      record {
        owned = λ j. elim (Bool-cases (i == j)) [
          | inl q ↦
              let same_one : i ≡ j = ground arith in
              subst (λ k. Owned (put w.heap i r.1 k) (holds k w.threads)) same_one
                (rw (put_same w.heap i r.1)
                  (touch-Owned x w.manager (w.heap i) (holds i w.threads) (v.owned i)))
          | inr q ↦ rw (put_other w.heap i j r.1 q) (v.owned j)
        ];
        tickets = (touch-Same x w.manager (w.heap i)).0 ∙ v.tickets;
      }

  end_health_loop-IsOwned : IsOwned (step end_health_loop w)
  unfolding step
  end_health_loop-IsOwned = by_flags w.manager.is_shutting_down w.health_loop refl
    where
      by_flags : (b h : Bool) → w.health_loop ≡ h → IsOwned (health_loop_ended w b h)
      by_flags true true e = record {
        owned = v.owned;
        tickets = omega (arith, v.tickets, ap loop_tickets e);
      }
      by_flags true false e = v
      by_flags false h e = v

pub step-IsOwned : (e : Event) (w : World) → IsOwned w → IsOwned (step e w)
unfolding step
step-IsOwned (call_start i) w v = call_start-IsOwned w v i
step-IsOwned (step_thread o k) w v =
    thread_moved-IsOwned w v o (split_at k w.threads) (split_at-Splits k w.threads)
step-IsOwned (access x i) w v = access-IsOwned w v x i
step-IsOwned set_shutdown w v = record { owned = v.owned; tickets = v.tickets }
step-IsOwned end_health_loop w v = end_health_loop-IsOwned w v

pub run-IsOwned : (es : List Event) (w : World) → IsOwned w → IsOwned (run es w)
unfolding run
run-IsOwned [] w v = v
run-IsOwned (e ∷ es) w v = run-IsOwned es (step e w) (step-IsOwned e w v)
