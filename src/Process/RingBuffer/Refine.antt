-- ===== src/Process/RingBuffer/Refine.antt =====
-- A `RingBuffer` (process/ringbuf.go) holds the last `capacity` bytes of all that was written.
use native.Mathlib.Decide.{dec_lt}
use native.Mathlib.Nat.{mod-add-mod, mod-eq_of_lt, mod-lt}
use go_cli_server.Prelude.{
  ℕ, ◌+◌, ◌-◌, ◌%◌, ◌^◌, ◌≤◌, ◌<◌, Bool, ◌||◌, [], ◌++◌, ◌≡◌, refl, sym, ap, ap₂, subst, ◌∙◌, arith,
  ltb, length, take, drop, length-append, length-take, length-drop, take-append-drop,
  drop-append_le, drop-append_ge, last_n, last_n-append, length-replicate,
}
use go_cli_server.Text.{Bytes}
use go_cli_server.Process.RingBuffer.{RingBuffer, add_i64, gt_i64, with_capacity, write_tail}
use go_cli_server.Process.RingBuffer.Position.{
  written, length-written, turned-written, take-written,
}
use go_cli_server.Process.RingBuffer.Copy.{turned}

-- The ring holds what is left of the bytes `h`, all that was written since it was made or reset.
pub record Holds (rb : RingBuffer) (h : Bytes) : Type 0 where
  pub capacity_pos : 0 < rb.capacity
  pub buffer_length : length rb.buffer ≡ rb.capacity
  pub same_counter : rb.write_pos ≡ rb.total_written
  pub counted : rb.total_written ≤ length h
  pub in_range : length h < 2 ^ 63
  pub flag : rb.overflowed ≡ ltb rb.capacity (length h)
  pub all_there : rb.total_written < rb.capacity → take rb.total_written rb.buffer ≡ h
  pub last_there :
      rb.capacity ≤ rb.total_written
      → turned (rb.total_written % rb.capacity) rb.buffer ≡ last_n rb.capacity h

-- A new ring holds nothing.
pub with_capacity-Holds : (n : ℕ) → 0 < n → Holds (with_capacity n) []
unfolding with_capacity
with_capacity-Holds n h = record {
  capacity_pos = h;
  buffer_length = length-replicate n 0;
  same_counter = refl;
  counted = omega arith;
  in_range = omega arith;
  flag = ground arith;
  all_there = λ q. refl;
  last_there = λ q. absurd (omega arith);
}

-- Until the ring is full the counter is the length of all that was written.
pub counter_exact :
    (rb : RingBuffer) (h : Bytes)
    → Holds rb h
    → rb.total_written < rb.capacity
    → rb.total_written ≡ length h
counter_exact rb h v q = omega (
  arith,
  ap (λ t. length t) (v.all_there q),
  length-take rb.total_written rb.buffer,
  v.buffer_length,
)

-- One write of at most `capacity` bytes, after which `h'` is what was written in all.
module _ (rb : RingBuffer) (h h' p : Bytes) (lost : Bool) (v : Holds rb h)
    (fits : length p ≤ rb.capacity) (grown : length h + length p ≤ length h')
    (range : length h' < 2 ^ 63) (same_end : last_n rb.capacity h' ≡ last_n rb.capacity (h ++ p))
    (few : rb.total_written + length p < rb.capacity → h' ≡ h ++ p)
    (flags : (lost || ltb rb.capacity (rb.total_written + length p))
      ≡ ltb rb.capacity (length h')) where
  abbrev at : ℕ
  at = rb.total_written % rb.capacity

  abbrev front : Bytes
  front = take at rb.buffer

  abbrev back : Bytes
  back = drop at rb.buffer

  at_inside : at < rb.capacity
  at_inside = mod-lt rb.total_written v.capacity_pos

  length-front : length front ≡ at
  length-front = omega (arith, length-take at rb.buffer, v.buffer_length, at_inside)

  whole : length front + length back ≡ rb.capacity
  whole = omega (arith, length-front, length-drop at rb.buffer, v.buffer_length, at_inside)

  room : 0 < length back
  room = omega (arith, whole, length-front, at_inside)

  buffer_after :
      (write_tail rb p lost).buffer ≡ written rb.capacity (length front) p (front ++ back)
  unfolding write_tail
  buffer_after =
      ap₂ (λ n t. written rb.capacity n p t)
        (ap (λ n. n % rb.capacity) v.same_counter ∙ sym length-front)
        (sym (take-append-drop at rb.buffer))

  total_after : (write_tail rb p lost).total_written ≡ rb.total_written + length p
  unfolding write_tail
  total_after = omega (arith, v.counted, grown, range)

  -- The position after the write.
  position_after :
      (rb.total_written + length p) % rb.capacity ≡ (length front + length p) % rb.capacity
  position_after =
      sym (mod-add-mod rb.total_written rb.capacity (length p))
      ∙ ap (λ n. (n + length p) % rb.capacity) (sym length-front)

  -- What was there before, without the bytes that the write displaces, is the end of `h`.
  kept_was_full :
      rb.capacity ≤ rb.total_written
      → drop (length p) (back ++ front) ++ p ≡ last_n rb.capacity (h ++ p)
  kept_was_full q =
      let old = v.last_there q in
      let size : length (last_n rb.capacity h) ≡ rb.capacity =
        omega (arith, length-drop (length h - rb.capacity) h, v.counted) in
      ap (λ t. drop (length p) t ++ p) old
      ∙ sym (drop-append_le (length p) (last_n rb.capacity h) p (omega (arith, size)))
      ∙ ap (λ n. drop n (last_n rb.capacity h ++ p))
          (omega (arith, length-append (last_n rb.capacity h) p, size))
      ∙ last_n-append rb.capacity h p

  kept_was_part :
      rb.total_written < rb.capacity
      → rb.capacity ≤ rb.total_written + length p
      → drop (length p) (back ++ front) ++ p ≡ last_n rb.capacity (h ++ p)
  kept_was_part q r =
      let exact = counter_exact rb h v q in
      let same_at : at ≡ rb.total_written = mod-eq_of_lt q in
      let old : front ≡ h = ap (λ n. take n rb.buffer) same_at ∙ v.all_there q in
      ap (λ t. t ++ p)
        (drop-append_ge (length p) back front (omega (arith, whole, length-front, same_at)))
      ∙ ap₂ (λ n t. drop n t ++ p) (omega (arith, whole, length-front, same_at)) old
      ∙ sym (drop-append_le (rb.total_written + length p - rb.capacity) h p (omega (arith, exact)))
      ∙ ap (λ n. drop n (h ++ p)) (omega (arith, length-append h p, exact))

  kept :
      rb.capacity ≤ rb.total_written + length p
      → drop (length p) (back ++ front) ++ p ≡ last_n rb.capacity (h ++ p)
  kept r = elim (dec_lt rb.total_written rb.capacity) [
    | yes q ↦ kept_was_part q r
    | no q ↦ kept_was_full (omega arith)
  ]

  all_there_after :
      rb.total_written + length p < rb.capacity
      → take (rb.total_written + length p) (written rb.capacity (length front) p (front ++ back))
        ≡ h'
  all_there_after q =
      let same_at : at ≡ rb.total_written = mod-eq_of_lt (omega arith) in
      ap (λ n. take n (written rb.capacity (length front) p (front ++ back)))
        (omega (arith, length-front, same_at))
      ∙ take-written front back p rb.capacity whole room fits (omega (arith, length-front, same_at))
      ∙ ap (λ t. t ++ p) (ap (λ n. take n rb.buffer) same_at ∙ v.all_there (omega arith))
      ∙ sym (few q)

  last_there_after :
      rb.capacity ≤ rb.total_written + length p
      → turned
          ((rb.total_written + length p) % rb.capacity)
          (written rb.capacity (length front) p (front ++ back))
        ≡ last_n rb.capacity h'
  last_there_after q =
      ap (λ n. turned n (written rb.capacity (length front) p (front ++ back))) position_after
      ∙ turned-written front back p rb.capacity whole room fits
      ∙ kept q
      ∙ sym same_end

  flag_after :
      (lost || gt_i64 (add_i64 rb.total_written (length p)) rb.capacity)
      ≡ ltb rb.capacity (length h')
  flag_after =
      let small : rb.total_written + length p < 2 ^ 63 = omega (arith, v.counted, grown, range) in
      ap (λ b. lost || b) (signed (rb.total_written + length p) rb.capacity small) ∙ flags
    where
      signed : (n c : ℕ) → n < 2 ^ 63 → gt_i64 (n % 2 ^ 64) c ≡ ltb c n
      signed n c q = ground arith

  pub write_tail-Holds : Holds (write_tail rb p lost) h'
  write_tail-Holds = record {
    capacity_pos = unfold write_tail in v.capacity_pos;
    buffer_length =
        unfold write_tail in
        (ap (λ t. length t) buffer_after ∙ length-written front back p rb.capacity whole room fits);
    same_counter = unfold write_tail in ap (λ n. add_i64 n (length p)) v.same_counter;
    counted = omega (arith, total_after, v.counted, grown);
    in_range = range;
    flag = unfold write_tail in flag_after;
    all_there = λ q.
        ap₂ take total_after buffer_after
        ∙ all_there_after (subst (λ n. n < rb.capacity) total_after (unfold write_tail in q));
    last_there = λ q.
        unfold write_tail in
        (ap₂ (λ n t. turned (n % rb.capacity) t) total_after buffer_after
          ∙ last_there_after (subst (λ n. rb.capacity ≤ n) total_after q));
  }
