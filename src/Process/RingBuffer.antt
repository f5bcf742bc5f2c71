-- ===== src/Process/RingBuffer.antt =====
-- `RingBuffer` of process/ringbuf.go: the last `capacity` bytes of a process's output. A method
-- runs under `mu`, so that it is one step here.
pub mod Copy
pub mod Position
pub mod Refine
pub mod Output
use go_cli_server.Prelude.{
  ℕ, zero, suc, ◌+◌, ◌-◌, ◌*◌, ◌%◌, ◌^◌, Bool, true, false, ◌&&◌, ◌||◌, List, [], ◌∷◌, ◌++◌, ltb,
  leb, ◌==◌, if◌then◌else◌, length, take, drop, replicate, ℤ, pos, negsuc,
}
use go_cli_server.Text.{Bytes, is_empty}

-- `DefaultBufferSize`.
abbrev pub default_buffer_size : ℕ
default_buffer_size = 262144

-- The counters are `int64`, kept as bit patterns.
pub record RingBuffer : Type 0 where
  pub buffer : Bytes
  pub capacity : ℕ
  pub write_pos : ℕ
  pub total_written : ℕ
  pub overflowed : Bool

-- `Add` on an `int64`.
abbrev pub add_i64 : ℕ → ℕ → ℕ
add_i64 a b = (a + b) % 2 ^ 64

-- `a > b` on `int64`, for a `b` that is not negative.
abbrev pub gt_i64 : ℕ → ℕ → Bool
gt_i64 a b = ltb a (2 ^ 63) && ltb b a

-- `copy(dst[at:], src)`.
unfoldable pub copy_at : ℕ → Bytes → Bytes → Bytes
copy_at zero [] dst = dst
copy_at zero (x ∷ src) [] = []
copy_at zero (x ∷ src) (y ∷ dst) = x ∷ copy_at zero src dst
copy_at (suc at) src [] = []
copy_at (suc at) src (y ∷ dst) = y ∷ copy_at at src dst

unfoldable pub with_capacity : ℕ → RingBuffer
with_capacity n = record {
  buffer = replicate n 0;
  capacity = n;
  write_pos = 0;
  total_written = 0;
  overflowed = false;
}

-- `NewRingBuffer`.
unfoldable pub new_ring_buffer : ℤ → RingBuffer
unfolding with_capacity
new_ring_buffer (negsuc n) = with_capacity default_buffer_size
new_ring_buffer (pos n) = with_capacity (if n == 0 then default_buffer_size else n)

-- The part of `Write` behind the cut: `p` has at most `capacity` bytes.
unfoldable pub write_tail : RingBuffer → Bytes → Bool → RingBuffer
unfolding copy_at
write_tail rb p lost =
    let at = rb.write_pos % rb.capacity in
    let first_part = rb.capacity - at in
    record rb {
      buffer =
          if leb (length p) first_part
          then copy_at at p rb.buffer
          else copy_at 0 (drop first_part p) (copy_at at (take first_part p) rb.buffer);
      write_pos = add_i64 rb.write_pos (length p);
      total_written = add_i64 rb.total_written (length p);
      overflowed = lost || gt_i64 (add_i64 rb.total_written (length p)) rb.capacity;
    }

-- `Write`: the buffer and the number of bytes reported.
unfoldable pub write : RingBuffer → Bytes → RingBuffer × ℕ
unfolding write_tail
write rb p =
    if is_empty p
    then (rb, 0)
    else if ltb rb.capacity (length p)
    then (write_tail rb (drop (length p - rb.capacity) p) true, length p)
    else (write_tail rb p rb.overflowed, length p)

-- `Snapshot`: the bytes held, oldest first, and whether some were lost.
unfoldable pub snapshot : RingBuffer → Bytes × Bool
snapshot rb =
    let at = rb.write_pos % rb.capacity in
    if rb.total_written == 0
    then ([], false)
    else if gt_i64 rb.total_written rb.capacity
    then (drop at rb.buffer ++ take at rb.buffer, true)
    else (take rb.total_written rb.buffer, rb.overflowed)

-- `Len`.
unfoldable pub len : RingBuffer → ℕ
len rb = if gt_i64 rb.total_written rb.capacity then rb.capacity else rb.total_written

-- `Cap`.
unfoldable pub cap_of : RingBuffer → ℕ
cap_of rb = rb.capacity

-- `Reset`: the bytes stay in the buffer, the counters start again.
unfoldable pub reset : RingBuffer → RingBuffer
reset rb = record rb { write_pos = 0; total_written = 0; overflowed = false }

-- `Truncated`.
unfoldable pub truncated : RingBuffer → Bool
truncated rb = rb.overflowed
