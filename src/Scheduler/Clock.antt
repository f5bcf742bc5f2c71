-- ===== src/Scheduler/Clock.antt =====
-- Durations of scheduler/scheduler.go: the `int64` of package `time`, in nanoseconds.
use go_cli_server.Prelude.{ℕ, ◌-◌, ◌*◌, ◌%◌, ◌^◌, if◌then◌else◌, ltb, ℤ, pos, negsuc}

-- The two's complement of an `int64`, and back.
unfoldable pub to_bits : ℤ → ℕ
to_bits (pos n) = n % 2 ^ 64
to_bits (negsuc n) = 2 ^ 64 - 1 - n % 2 ^ 64

unfoldable pub of_bits : ℕ → ℤ
of_bits n = if ltb n (2 ^ 63) then pos n else negsuc (2 ^ 64 - 1 - n)

-- `RetryDelay * time.Duration(1<<uint(attempts-1))`, for at least one attempt; it wraps around.
unfoldable pub backoff : ℤ → ℕ → ℤ
unfolding to_bits of_bits
backoff retry_delay attempts =
    of_bits (to_bits retry_delay * (2 ^ (attempts - 1) % 2 ^ 64) % 2 ^ 64)
