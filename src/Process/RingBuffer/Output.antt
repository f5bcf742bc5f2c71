-- ===== src/Process/RingBuffer/Output.antt =====
-- The methods of `RingBuffer` (process/ringbuf.go) against the history of what was written.
use native.Mathlib.Decide.{dec_lt}
use native.Mathlib.Nat.{mod-eq_of_lt, mod-eq-sub-mod}
use go_cli_server.Prelude.{
  ℕ, ◌+◌, ◌-◌, ◌%◌, ◌^◌, ◌≤◌, ◌<◌, true, false, ◌||◌, List, [], ◌∷◌, ◌++◌, ◌≡◌, refl, sym, ap,
  subst, ◌∙◌, inl, inr, arith, ltb, Bool-cases, length, take, drop, length-append, length-drop,
  append-nil, drop-append_ge, take_all, drop-drop, last_n, ℤ,
}
use go_cli_server.Text.{Bytes}
use go_cli_server.Process.RingBuffer.{
  RingBuffer, with_capacity, new_ring_buffer, write_tail, write, snapshot, len, reset,
}
use go_cli_server.Process.RingBuffer.Copy.{turned}
use go_cli_server.Process.RingBuffer.Refine.{
  Holds, counter_exact, with_capacity-Holds, write_tail-Holds,
}

-- The end of a long write is the end of the history.
last_n-long :
    (n : ℕ) (h p : Bytes) → n ≤ length p → last_n n (h ++ p) ≡ last_n n (h ++ drop (length p - n) p)
last_n-long n h p q =
    let cut = drop (length p - n) p in
    let size = length-drop (length p - n) p in
    let first : length (h ++ p) - n - length h ≡ length p - n = omega (arith, length-append h p) in
    let second : length p - n + (length (h ++ cut) - n - length h) ≡ length p - n =
      omega (arith, length-append h cut, size) in
    drop-append_ge (length (h ++ p) - n) h p (omega (arith, length-append h p))
    ∙ ap (λ k. drop k p) first
    ∙ ap (λ k. drop k p) (sym second)
    ∙ sym (drop-drop (length (h ++ cut) - n - length h) (length p - n) p)
    ∙ sym (drop-append_ge (length (h ++ cut) - n) h cut (omega (arith, length-append h cut, size)))

-- `Write` adds its bytes to the history, whatever their number.
pub write-Holds :
    (rb : RingBuffer) (h p : Bytes)
    → Holds rb h
    → length (h ++ p) < 2 ^ 63
    → Holds (write rb p).0 (h ++ p)
unfolding write
write-Holds rb h [] v r = subst (Holds rb) (sym (append-nil h)) v
write-Holds rb h (c ∷ s) v r = elim (Bool-cases (ltb rb.capacity (length (c ∷ s)))) [
  | inl long ↦ rw long (
      let p = c ∷ s in
      let cut = drop (length p - rb.capacity) p in
      let size : length cut ≡ rb.capacity =
        omega (arith, length-drop (length p - rb.capacity) p, below rb.capacity (length p) long) in
      write_tail-Holds rb h (h ++ p) cut true v (omega (arith, size))
        (omega (arith, size, length-append h p, below rb.capacity (length p) long)) r
        (last_n-long rb.capacity h p (omega (arith, below rb.capacity (length p) long)))
        (λ q. absurd (omega (arith, q, size)))
        (sym (
          above rb.capacity (length (h ++ p))
            (omega (arith, length-append h p, below rb.capacity (length p) long)))))
  | inr short ↦ rw short (
      let p = c ∷ s in
      write_tail-Holds rb h (h ++ p) p rb.overflowed v (not_below rb.capacity (length p) short)
        (omega (arith, length-append h p)) r refl (λ q. refl) (flags p (omega arith)))
]
  where
    below : (a b : ℕ) → ltb a b ≡ true → a < b
    below a b q = ground arith

    above : (a b : ℕ) → a < b → ltb a b ≡ true
    above a b q = ground arith

    not_below : (a b : ℕ) → ltb a b ≡ false → b ≤ a
    not_below a b q = ground arith

    flags :
        (p : Bytes)
        → 0 < length p
        → (rb.overflowed || ltb rb.capacity (rb.total_written + length p))
          ≡ ltb rb.capacity (length (h ++ p))
    flags p q = elim (dec_lt rb.total_written rb.capacity) [
      | yes part ↦ ground (arith, v.flag, counter_exact rb h v part, length-append h p)
      | no full ↦ ground (arith, v.flag, v.counted, length-append h p)
    ]

-- `Reset` starts a new history.
pub reset-Holds : (rb : RingBuffer) (h : Bytes) → Holds rb h → Holds (reset rb) []
unfolding reset
reset-Holds rb h v = record {
  capacity_pos = v.capacity_pos;
  buffer_length = v.buffer_length;
  same_counter = refl;
  counted = omega arith;
  in_range = omega arith;
  flag = ground arith;
  all_there = λ q. refl;
  last_there = λ q. absurd (omega (arith, v.capacity_pos));
}

module _ (rb : RingBuffer) (h : Bytes) (v : Holds rb h) where
  full_snapshot :
      rb.total_written ≡ rb.capacity → take rb.total_written rb.buffer ≡ last_n rb.capacity h
  full_snapshot q =
      let size = v.buffer_length in
      let start : rb.total_written % rb.capacity ≡ 0 =
        mod-eq-sub-mod {n = rb.total_written} {m = rb.capacity} (omega arith)
        ∙ mod-eq_of_lt {n = rb.total_written - rb.capacity} {m = rb.capacity}
            (omega (arith, v.capacity_pos))
        ∙ omega arith in
      take_all rb.total_written rb.buffer (omega arith)
      ∙ sym (append-nil rb.buffer)
      ∙ ap (λ n. turned n rb.buffer) (sym start)
      ∙ v.last_there (omega arith)

  part_snapshot :
      rb.total_written < rb.capacity → take rb.total_written rb.buffer ≡ last_n rb.capacity h
  part_snapshot q =
      v.all_there q
      ∙ ap (λ n. drop n h) {x = 0} {y = length h - rb.capacity}
          (omega (arith, counter_exact rb h v q))

  short_snapshot :
      rb.total_written ≤ rb.capacity → take rb.total_written rb.buffer ≡ last_n rb.capacity h
  short_snapshot q = elim (dec_lt rb.total_written rb.capacity) [
    | yes p ↦ part_snapshot p
    | no p ↦ full_snapshot (omega arith)
  ]

  small : rb.total_written < 2 ^ 63
  small = omega (arith, v.counted, v.in_range)

  -- `Snapshot` returns the end of the history, and reports exactly whether bytes were lost.
  pub snapshot-Holds : snapshot rb ≡ (last_n rb.capacity h, ltb rb.capacity (length h))
  unfolding snapshot
  snapshot-Holds = elim (dec_lt rb.capacity rb.total_written) [
    | yes over ↦ ground (
      arith,
      small,
      v.counted,
      ap (λ n. turned (n % rb.capacity) rb.buffer) v.same_counter ∙ v.last_there (omega arith),
    )
    | no within ↦
        ground
          (arith, small, v.flag, v.capacity_pos, counter_exact rb h v, short_snapshot (omega arith))
  ]

  -- `Len` is the length of what `Snapshot` returns.
  pub len-Holds : len rb ≡ length (last_n rb.capacity h)
  unfolding len
  len-Holds = elim (dec_lt rb.total_written rb.capacity) [
    | yes part ↦
        ground (arith, small, counter_exact rb h v part, length-drop (length h - rb.capacity) h)
    | no full ↦ ground (arith, small, v.counted, length-drop (length h - rb.capacity) h)
  ]

-- A use of a ring: writes and resets, in order.
pub data Op : Type 0 where
  write_op : Bytes → Op
  reset_op : Op

unfoldable pub run : RingBuffer → List Op → RingBuffer
run rb [] = rb
run rb (write_op p ∷ ops) = run (write rb p).0 ops
run rb (reset_op ∷ ops) = run (reset rb) ops

-- The bytes written since the last reset.
unfoldable pub history : Bytes → List Op → Bytes
history h [] = h
history h (write_op p ∷ ops) = history (h ++ p) ops
history h (reset_op ∷ ops) = history [] ops

-- All the bytes that a use writes.
unfoldable pub written_bytes : List Op → ℕ
written_bytes [] = 0
written_bytes (write_op p ∷ ops) = length p + written_bytes ops
written_bytes (reset_op ∷ ops) = written_bytes ops

capacity-write : (rb : RingBuffer) (p : Bytes) → (write rb p).0.capacity ≡ rb.capacity
unfolding write write_tail
capacity-write rb [] = refl
capacity-write rb (c ∷ s) = ground arith

run-Holds :
    (ops : List Op) (rb : RingBuffer) (h : Bytes)
    → Holds rb h
    → length h + written_bytes ops < 2 ^ 63
    → Holds (run rb ops) (history h ops) × ((run rb ops).capacity ≡ rb.capacity)
unfolding run history written_bytes
run-Holds [] rb h v r = (v, refl)
run-Holds (write_op p ∷ ops) rb h v r =
    let size = length-append h p in
    let rest =
      run-Holds ops (write rb p).0 (h ++ p) (write-Holds rb h p v (omega (arith, size)))
        (omega (arith, size)) in
    (rest.0, rest.1 ∙ capacity-write rb p)
run-Holds (reset_op ∷ ops) rb h v r =
    let rest = run-Holds ops (reset rb) [] (reset-Holds rb h v) (omega arith) in
    (rest.0, rest.1 ∙ unfold reset in refl)

-- After any writes and resets of a new ring of capacity n > 0, of fewer than 2^63 bytes in all,
-- `Snapshot` returns the last n bytes written since the last reset, and says whether there were
-- more than n.
pub snapshot-run :
    (n : ℕ) (ops : List Op)
    → 0 < n
    → written_bytes ops < 2 ^ 63
    → snapshot (run (new_ring_buffer (ℤ.pos n)) ops)
      ≡ (last_n n (history [] ops), ltb n (length (history [] ops)))
unfolding new_ring_buffer
snapshot-run n ops h r =
    let made : new_ring_buffer (ℤ.pos n) ≡ with_capacity n = ground arith in
    let (held, same_capacity) =
      run-Holds ops (with_capacity n) [] (with_capacity-Holds n h) (omega (arith, r)) in
    let capacity_is : (run (with_capacity n) ops).capacity ≡ n =
      same_capacity ∙ unfold with_capacity in refl in
    ap (λ rb. snapshot (run rb ops)) made
    ∙ snapshot-Holds (run (with_capacity n) ops) (history [] ops) held
    ∙ ap (λ (k : ℕ). (last_n k (history [] ops), ltb k (length (history [] ops)))) capacity_is
