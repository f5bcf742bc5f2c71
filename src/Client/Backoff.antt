-- ===== src/Client/Backoff.antt =====
-- `reconnectLoop` of client/resilient.go while the hub does not answer and nobody closes the connection.
use go_cli_server.Prelude.{
  ℕ, zero, suc, ◌*◌, ◌%◌, ◌^◌, ◌≤◌, ◌<◌, ◌≡◌, refl, ap, ◌∙◌, arith, Bool, true, false, ltb, Option,
  none, some, if◌then◌else◌, ℤ, pos,
}
use native.Mathlib.Nat.{mod-eq_of_lt}
use go_cli_server.Client.Resilient.{
  ResilientConfig, ResilientConn, Loop, at_top, dialing, Reply, answered, refused, new_loop,
  loop_step, attempt_failed, gives_up, close_old, min_duration, double,
}

abbrev pub LoopState : Type 0
LoopState = ResilientConn × Option Loop

abbrev pub next : ResilientConfig → Reply → LoopState → LoopState
unfolding loop_step
next c r (rc, none) = (rc, none)
next c r (rc, some l) = loop_step c r rc l l.point

-- An attempt that fails, and the backoff behind it.
unfoldable pub round : ResilientConfig → LoopState → LoopState
unfolding next
round c s = next c answered (next c refused (next c answered (next c answered s)))

unfoldable pub rounds : ℕ → ResilientConfig → LoopState → LoopState
unfolding round
rounds zero c s = s
rounds (suc k) c s = round c (rounds k c s)

-- The least delay doubled `k` times, but at most `most`.
unfoldable pub delay : ℕ → ℕ → ℕ → ℕ
delay zero least most = least
delay (suc k) least most = let d = 2 * delay k least most in if ltb d most then d else most

delay_bound : (k least most : ℕ) → least ≤ most → delay k least most ≤ most
unfolding delay
delay_bound zero least most h = h
delay_bound (suc k) least most h = ground arith

-- A loop in front of an attempt.
unfoldable pub Waiting : ℕ → ℕ → LoopState → Type 0
Waiting attempts d s =
    (s.0.is_shutdown ≡ false)
    × (s.1 ≡ some (record { attempts = attempts; backoff = pos d; point = at_top }))

min_duration-double :
    (d most : ℕ)
    → d < 2 ^ 62
    → min_duration (double (pos d)) (pos most) ≡ pos (if ltb (2 * d) most then 2 * d else most)
unfolding min_duration double
min_duration-double d most h =
    let small : 2 * d % 2 ^ 64 ≡ 2 * d = mod-eq_of_lt (omega arith) in
    let positive : ltb (2 * d) (2 ^ 63) ≡ true = ground arith in
    rw (small, positive) (by_test (ltb (2 * d) most))
  where
    by_test : (b : Bool) → (if b then pos (2 * d) else pos most) ≡ pos (if b then 2 * d else most)
    by_test true = refl
    by_test false = refl

-- The connection of before is dropped in an attempt.
dropped : ResilientConn → ResilientConn
dropped rc = record (close_old rc.conn rc) { conn = none }

dropped_shutdown : (rc : ResilientConn) → (dropped rc).is_shutdown ≡ rc.is_shutdown
unfolding dropped
dropped_shutdown rc = by_conn rc.conn
  where
    by_conn : (o : Option ℕ) → (close_old o rc).is_shutdown ≡ rc.is_shutdown
    by_conn none = refl
    by_conn (some n) = refl

chosen_false {ℓ} : {A : Type ℓ} (b : Bool) (x y : A) → b ≡ false → (if b then x else y) ≡ y
chosen_false b x y e = rw e refl

-- One failed attempt, up to the decision to give up.
round_lem :
    (c : ResilientConfig) (rc : ResilientConn) (a : ℕ) (b : ℤ)
    → rc.is_shutdown ≡ false
    → next c refused (
        next c answered
          (next c answered (rc, some (record { attempts = a; backoff = b; point = at_top }))))
      ≡ attempt_failed c (dropped rc) (record { attempts = suc a; backoff = b; point = dialing })
unfolding next loop_step dropped
round_lem c rc a b up =
    ap (λ s. next c refused (next c answered s)) (chosen_false rc.is_shutdown _ _ up)

round-Waiting :
    (c : ResilientConfig) (attempts d most : ℕ) (s : LoopState)
    → c.reconnect_backoff_max ≡ pos most
    → d < 2 ^ 62
    → gives_up c (suc attempts) ≡ false
    → Waiting attempts d s
    → Waiting (suc attempts) (if ltb (2 * d) most then 2 * d else most) (round c s)
unfolding round next loop_step Waiting attempt_failed
round-Waiting c a d most (rc, o) e h more w =
    let l : Loop = record { attempts = a; backoff = pos d; point = at_top } in
    let goes_on =
      ap (λ x. round c (rc, x)) w.1
      ∙ ap (λ s. next c answered s)
          (round_lem c rc a (pos d) w.0 ∙ chosen_false (gives_up c (suc a)) _ _ more) in
    (
      ap (λ s. s.0.is_shutdown) goes_on ∙ dropped_shutdown rc ∙ w.0,
      ap (λ s. s.1) goes_on
          ∙ ap (λ z. some (record { attempts = suc a; backoff = z; point = at_top }))
              (ap (λ z. min_duration (double (pos d)) z) e ∙ min_duration-double d most h),
    )

-- None of the first `k` attempts is the last one.
abbrev pub AllowsMore : ResilientConfig → ℕ → Type 0
AllowsMore c zero = Unit
AllowsMore c (suc k) = (gives_up c (suc k) ≡ false) × AllowsMore c k

-- While nobody closes the connection and the hub does not answer, with a least delay up to the
-- greatest one, which is below 2^62 ns: after k failed attempts, none of which used up the allowed
-- ones, the loop has counted k attempts and its next delay is the least one, doubled k times and at
-- most the greatest.
pub rounds-Waiting :
    (k : ℕ) (c : ResilientConfig) (rc : ResilientConn) (least most : ℕ)
    → c.reconnect_backoff_min ≡ pos least
    → c.reconnect_backoff_max ≡ pos most
    → least ≤ most
    → most < 2 ^ 62
    → rc.is_shutdown ≡ false
    → AllowsMore c k
    → Waiting k (delay k least most) (rounds k c (rc, some (new_loop c)))
unfolding rounds delay Waiting new_loop
rounds-Waiting zero c rc least most el em le h up more =
    (up, ap (λ z. some (record { attempts = 0; backoff = z; point = at_top })) el)
rounds-Waiting (suc k) c rc least most el em le h up more =
    round-Waiting c k (delay k least most) most (rounds k c (rc, some (new_loop c))) em
      (let b = delay_bound k least most le in omega arith) more.0
      (rounds-Waiting k c rc least most el em le h up more.1)

gives_up-before :
    (c : ResilientConfig) (j k : ℕ)
    → c.max_reconnect_attempts ≡ pos (suc k)
    → j ≤ k
    → gives_up c j ≡ false
unfolding gives_up
gives_up-before c j k limit h =
    let positive : ltb 0 (suc k) ≡ true = ground arith in
    let before : ltb j (suc k) ≡ true = ground arith in rw limit (rw (positive, before) refl)

gives_up-last :
    (c : ResilientConfig) (k : ℕ)
    → c.max_reconnect_attempts ≡ pos (suc k)
    → gives_up c (suc k) ≡ true
unfolding gives_up
gives_up-last c k limit =
    let positive : ltb 0 (suc k) ≡ true = ground arith in
    let used_up : ltb (suc k) (suc k) ≡ false = ground arith in
    rw limit (rw (positive, used_up) refl)

limit-AllowsMore :
    (c : ResilientConfig) (j k : ℕ)
    → c.max_reconnect_attempts ≡ pos (suc k)
    → j ≤ k
    → AllowsMore c j
limit-AllowsMore c zero k limit h = tt
limit-AllowsMore c (suc j) k limit h =
    (gives_up-before c (suc j) k limit h, limit-AllowsMore c j k limit (omega arith))

chosen_true {ℓ} : {A : Type ℓ} (b : Bool) (x y : A) → b ≡ true → (if b then x else y) ≡ x
chosen_true b x y e = rw e refl

-- What is left of a loop that gave up.
abbrev pub GaveUp : LoopState → Type 0
GaveUp s = (s.1 ≡ none) × (s.0.reconnect_failed ≡ true) × (s.0.reconnecting ≡ false)

round-GaveUp :
    (c : ResilientConfig) (a d : ℕ) (s : LoopState)
    → gives_up c (suc a) ≡ true
    → Waiting a d s
    → GaveUp (round c s)
unfolding round next Waiting attempt_failed
round-GaveUp c a d (rc, o) last w =
    let ends =
      ap (λ x. round c (rc, x)) w.1
      ∙ ap (λ s. next c answered s)
          (round_lem c rc a (pos d) w.0 ∙ chosen_true (gives_up c (suc a)) _ _ last) in
    (ap (λ s. s.1) ends, ap (λ s. s.0.reconnect_failed) ends, ap (λ s. s.0.reconnecting) ends)

-- While nobody closes the connection and the hub does not answer, with a least delay up to the
-- greatest one, which is below 2^62 ns: a loop that is allowed k + 1 attempts has not returned
-- after the first k of them, each followed by its delay, and has returned after the next one; the
-- connection is then marked as failed, and it is not reconnecting any more.
pub rounds-GaveUp :
    (k : ℕ) (c : ResilientConfig) (rc : ResilientConn) (least most : ℕ)
    → c.reconnect_backoff_min ≡ pos least
    → c.reconnect_backoff_max ≡ pos most
    → least ≤ most
    → most < 2 ^ 62
    → rc.is_shutdown ≡ false
    → c.max_reconnect_attempts ≡ pos (suc k)
    → ((j : ℕ) → j ≤ k → Waiting j (delay j least most) (rounds j c (rc, some (new_loop c))))
      × GaveUp (rounds (suc k) c (rc, some (new_loop c)))
unfolding rounds
rounds-GaveUp k c rc least most el em le h up limit = (
  λ j b. rounds-Waiting j c rc least most el em le h up (limit-AllowsMore c j k limit b),
  round-GaveUp c k (delay k least most) (rounds k c (rc, some (new_loop c)))
      (gives_up-last c k limit)
      (rounds-Waiting k c rc least most el em le h up (limit-AllowsMore c k k limit (omega arith))),
)
