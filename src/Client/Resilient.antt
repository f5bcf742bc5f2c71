-- ===== src/Client/Resilient.antt =====
-- `ResilientConn` of client/resilient.go: a connection that is made again when it fails. A connection is
-- a number; `open_conns` are those that were dialed and not closed. A step is a section under
-- `connMu` or one access of what the goroutines share, but for two: `triggerReconnect`, from its look at
-- the flags to its swap and the store behind it, and the stores of `reconnectLoop` behind the section
-- that publishes a connection, are one step each. Heartbeats and callbacks are left out.
use go_cli_server.Prelude.{
  ℕ, suc, ◌-◌, ◌*◌, ◌%◌, ◌^◌, Bool, true, false, ◌&&◌, ◌||◌, not, ◌==◌, ltb, Option, none, some,
  if◌then◌else◌, ℤ, pos, negsuc, ltb_ℤ,
}
use go_cli_server.Text.{Bytes, is_empty}

-- `ResilientConfig` without the callbacks and the rest of the automatic start, in nanoseconds.
pub record ResilientConfig : Type 0 where
  pub socket_path : Bytes
  pub heartbeat_interval : ℤ
  pub heartbeat_timeout : ℤ
  pub reconnect_backoff_min : ℤ
  pub reconnect_backoff_max : ℤ
  pub max_reconnect_attempts : ℤ

-- `DefaultResilientConfig`, for the socket that `DefaultAutoStartConfig` takes.
unfoldable pub default_resilient_config : Bytes → ResilientConfig
default_resilient_config path = record {
  socket_path = path;
  heartbeat_interval = pos 10000000000;
  heartbeat_timeout = pos 5000000000;
  reconnect_backoff_min = pos 100000000;
  reconnect_backoff_max = pos 30000000000;
  max_reconnect_attempts = pos 0;
}

abbrev or_positive : ℤ → ℤ → ℤ
or_positive default d = if ltb_ℤ (pos 0) d then d else default

-- `normalizeResilientConfig`, with the path of the default socket.
unfoldable pub normalize_resilient_config : Bytes → ResilientConfig → ResilientConfig
normalize_resilient_config default_path c = record c {
  socket_path = if is_empty c.socket_path then default_path else c.socket_path;
  heartbeat_timeout =
      if ltb_ℤ (pos 0) c.heartbeat_interval
      then or_positive (pos 5000000000) c.heartbeat_timeout
      else c.heartbeat_timeout;
  reconnect_backoff_min = or_positive (pos 100000000) c.reconnect_backoff_min;
  reconnect_backoff_max = or_positive (pos 30000000000) c.reconnect_backoff_max;
}

-- `minDuration`.
unfoldable pub min_duration : ℤ → ℤ → ℤ
min_duration a b = if ltb_ℤ a b then a else b

abbrev signed_64 : ℕ → ℤ
signed_64 m = if ltb m (2 ^ 63) then pos m else negsuc (2 ^ 64 - 1 - m)

-- `d*2` on an `int64`.
unfoldable pub double : ℤ → ℤ
double (pos n) = signed_64 (2 * n % 2 ^ 64)
double (negsuc n) = signed_64 ((2 ^ 65 - 2 * n - 2) % 2 ^ 64)

-- `ResilientConn` without the heartbeat and the times.
pub record ResilientConn : Type 0 where
  pub conn : Option ℕ
  pub open_conns : ℕ → Bool
  pub next_conn : ℕ
  pub connected : Bool
  pub reconnecting : Bool
  pub is_shutdown : Bool
  pub reconnect_failed : Bool
  pub generation : ℕ
  pub reconnect_count : ℕ

-- `NewResilientConn`.
unfoldable pub new_resilient_conn : ResilientConn
new_resilient_conn = record {
  conn = none;
  open_conns = λ c. false;
  next_conn = 0;
  connected = false;
  reconnecting = false;
  is_shutdown = false;
  reconnect_failed = false;
  generation = 0;
  reconnect_count = 0;
}

-- `IsConnected`.
unfoldable pub is_connected : ResilientConn → Bool
is_connected rc = rc.connected && not rc.reconnecting

abbrev set_open : Bool → ℕ → ResilientConn → ResilientConn
set_open b c rc = record rc { open_conns = λ d. if c == d then b else rc.open_conns d }

abbrev pub close_old : Option ℕ → ResilientConn → ResilientConn
close_old none rc = rc
close_old (some c) rc = set_open false c rc

-- The section of `Connect` under `connMu`, where the hub answers or not.
unfoldable pub connect_section : Bool → ResilientConn → ResilientConn
connect_section false rc = rc
connect_section true rc = close_old rc.conn (record rc {
  conn = some rc.next_conn;
  open_conns = λ d. if rc.next_conn == d then true else rc.open_conns d;
  next_conn = suc rc.next_conn;
  generation = suc rc.generation;
  connected = true;
})

-- The section of `Close` under `connMu`.
unfoldable pub close_section : ResilientConn → ResilientConn
close_section rc = close_old rc.conn (record rc { connected = false })

-- Where a `reconnectLoop` is: before its look at the shutdown flag, before it drops the old connection,
-- while it dials, with a new connection in front of the lock, behind it, or in its backoff.
pub data LoopPoint : Type 0 where
  at_top dropping dialing published in_backoff : LoopPoint
  publishing : ℕ → LoopPoint

pub record Loop : Type 0 where
  pub attempts : ℕ
  pub backoff : ℤ
  pub point : LoopPoint

-- What a step waits for: the hub answered, or did not, or the wait was over.
pub data Reply : Type 0 where
  answered refused : Reply

-- The start of `reconnectLoop`.
unfoldable pub new_loop : ResilientConfig → Loop
new_loop c = record { attempts = 0; backoff = c.reconnect_backoff_min; point = at_top }

-- `defer rc.reconnecting.Store(false)`.
abbrev pub loop_ended : ResilientConn → ResilientConn × Option Loop
loop_ended rc = (record rc { reconnecting = false }, none)

-- Whether the attempts are used up.
unfoldable pub gives_up : ResilientConfig → ℕ → Bool
gives_up c attempts =
    ltb_ℤ (pos 0) c.max_reconnect_attempts && not (ltb_ℤ (pos attempts) c.max_reconnect_attempts)

-- Behind an attempt that failed.
unfoldable pub attempt_failed : ResilientConfig → ResilientConn → Loop → ResilientConn × Option Loop
unfolding gives_up
attempt_failed c rc l =
    if gives_up c l.attempts
    then loop_ended (record rc { reconnect_failed = true })
    else (rc, some (record l { point = in_backoff }))

abbrev dialed : ResilientConn → Loop → ResilientConn × Option Loop
dialed rc l = (
  record rc {
    open_conns = λ d. if rc.next_conn == d then true else rc.open_conns d;
    next_conn = suc rc.next_conn;
  },
  some (record l { point = publishing rc.next_conn }),
)

-- The next step of a `reconnectLoop`; without a loop to go on, it has returned. A wait that `Close`
-- ends is refused.
unfoldable pub loop_step :
    ResilientConfig → Reply → ResilientConn → Loop → LoopPoint → ResilientConn × Option Loop
unfolding attempt_failed min_duration double
loop_step c r rc l at_top =
    if rc.is_shutdown
    then loop_ended rc
    else (rc, some (record l { attempts = suc l.attempts; point = dropping }))
loop_step c r rc l dropping =
    (record (close_old rc.conn rc) { conn = none }, some (record l { point = dialing }))
loop_step c answered rc l dialing = dialed rc l
loop_step c refused rc l dialing = attempt_failed c rc l
loop_step c r rc l (publishing n) = if rc.is_shutdown then loop_ended (set_open false n rc) else (
  record rc { conn = some n; generation = suc rc.generation },
  some (record l { point = published }),
)
loop_step c r rc l published = loop_ended (record rc {
  connected = true;
  reconnect_failed = false;
  reconnect_count = suc rc.reconnect_count;
})
loop_step c answered rc l in_backoff = (
  rc,
  some (record l {
    backoff = min_duration (double l.backoff) c.reconnect_backoff_max;
    point = at_top;
  }),
)
loop_step c refused rc l in_backoff = if rc.is_shutdown then loop_ended rc else (rc, some l)

-- `triggerReconnect`, and the loop that it starts.
unfoldable pub trigger_reconnect : ResilientConfig → ResilientConn → ResilientConn × Option Loop
unfolding new_loop
trigger_reconnect c rc =
    if rc.is_shutdown || rc.reconnect_failed
    then (rc, none)
    else if rc.reconnecting
    then (rc, none)
    else (record rc { reconnecting = true; connected = false }, some (new_loop c))

-- `triggerReconnectIfCurrent`.
unfoldable pub trigger_reconnect_if_current :
    ResilientConfig → ℕ → ResilientConn → ResilientConn × Option Loop
unfolding trigger_reconnect
trigger_reconnect_if_current c gen rc =
    if gen == rc.generation then trigger_reconnect c rc else (rc, none)
