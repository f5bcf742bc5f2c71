-- ===== src/Tests/Client.antt =====
-- The theorems on client/ at concrete inputs.
use go_cli_server.Prelude.{
  ℕ, ◌≤◌, List, [], ◌∷◌, some, true, ◌≡◌, ◌↔◌, refl, arith, ok, pos, negsuc,
}
use go_cli_server.Text.{split}
use go_cli_server.Text.Decimal.{atoi}
use go_cli_server.Protocol.{text}
use go_cli_server.Client.Version.{Version, parse_version, format_version, compare_versions}
use go_cli_server.Client.VersionOrder.{Older, compare_versions-Older}
use go_cli_server.Client.Resilient.{
  ResilientConfig, new_resilient_conn, is_connected, answered, new_loop, gives_up, connect_section,
}
use go_cli_server.Client.Reconnecting.{
  Event, heartbeats_failed, close_begins, close_ends, connect_begins, connect_ends, step_loop, run,
  initial, OneLoop, run-OneLoop,
}
use go_cli_server.Client.Backoff.{Waiting, delay, rounds, GaveUp, rounds-Waiting, rounds-GaveUp}
use go_cli_server.Client.VersionTrip.{parse_version-format_version}

abbrev release : Version
release = record { major = pos 0; minor = pos 6; patch = pos 5 }

abbrev next_release : Version
next_release = record { major = pos 0; minor = pos 10; patch = pos 0 }

parse_version-format_version_example : parse_version (format_version release) ≡ ok release
parse_version-format_version_example =
    parse_version-format_version 0 6 5 (omega arith) (omega arith) (omega arith) refl

release_parsed : parse_version (text "v0.6.5") ≡ ok release
unfolding parse_version atoi split
release_parsed = refl

next_parsed : parse_version (text "0.10.0-beta") ≡ ok next_release
unfolding parse_version atoi split
next_parsed = refl

compare_versions-Older_example :
    (compare_versions (text "v0.6.5") (text "0.10.0-beta") ≡ ok (negsuc 0))
    ↔ Older release next_release
compare_versions-Older_example =
    compare_versions-Older (text "v0.6.5") (text "0.10.0-beta") release_parsed next_parsed

abbrev config : ResilientConfig
config = record {
  socket_path = text "/tmp/hub";
  heartbeat_interval = pos 0;
  heartbeat_timeout = pos 0;
  reconnect_backoff_min = pos 100000000;
  reconnect_backoff_max = pos 30000000000;
  max_reconnect_attempts = pos 3;
}

-- A connection is lost and made again, while it is closed.
abbrev events : List Event
events =
    heartbeats_failed
    ∷ heartbeats_failed
    ∷ step_loop answered 0
    ∷ step_loop answered 0
    ∷ step_loop answered 0
    ∷ step_loop answered 0
    ∷ close_begins
    ∷ close_ends
    ∷ step_loop answered 0
    ∷ []

run-OneLoop_example : OneLoop (run config events initial).rc (run config events initial).loops
run-OneLoop_example =
    run-OneLoop config events initial (unfold OneLoop initial new_resilient_conn in refl)

-- A loop that has published its connection calls it connected after `Close` has returned.
connected_after_close :
    ((run config events initial).rc.is_shutdown ≡ true)
    × (is_connected (run config events initial).rc ≡ true)
unfolding run initial new_resilient_conn is_connected
connected_after_close = (refl, refl)

-- A `Connect` that is past its look at the flag when `Close` runs leaves an open connection.
leaked_conn :
    let w =
      run config (connect_begins ∷ close_begins ∷ close_ends ∷ connect_ends true ∷ []) initial in
    (w.rc.is_shutdown ≡ true) × (w.rc.open_conns 0 ≡ true)
unfolding run initial new_resilient_conn connect_section
leaked_conn = (refl, refl)

-- A loop that has dialed publishes its connection over the one that a `Connect` has made meanwhile.
overwritten_conn :
    let es =
      heartbeats_failed
      ∷ step_loop answered 0
      ∷ step_loop answered 0
      ∷ connect_begins
      ∷ connect_ends true
      ∷ step_loop answered 0
      ∷ step_loop answered 0
      ∷ [] in
    let w = run config es initial in (w.rc.conn ≡ some 1) × (w.rc.open_conns 0 ≡ true)
unfolding run initial new_resilient_conn connect_section
overwritten_conn = (refl, refl)

rounds-Waiting_example :
    Waiting 2
      (delay 2 100000000 30000000000)
      (rounds 2 config (new_resilient_conn, some (new_loop config)))
rounds-Waiting_example =
    rounds-Waiting 2 config new_resilient_conn 100000000 30000000000 refl refl (omega arith)
      (omega arith) (unfold new_resilient_conn in refl)
      ((unfold gives_up in refl), ((unfold gives_up in refl), tt))

rounds-GaveUp_example :
    ((j : ℕ)
      → j ≤ 2
      → Waiting j
          (delay j 100000000 30000000000)
          (rounds j config (new_resilient_conn, some (new_loop config))))
    × GaveUp (rounds 3 config (new_resilient_conn, some (new_loop config)))
rounds-GaveUp_example =
    rounds-GaveUp 2 config new_resilient_conn 100000000 30000000000 refl refl (omega arith)
      (omega arith) (unfold new_resilient_conn in refl) refl
