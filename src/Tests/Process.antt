-- ===== src/Tests/Process.antt =====
-- The theorems on process/ at concrete inputs.
use go_cli_server.Prelude.{
  true, false, List, [], ◌∷◌, ◌++◌, ◌≡◌, refl, arith, ltb, length, last_n, ℤ, ◌<◌,
}
use go_cli_server.Text.{Bytes}
use go_cli_server.Process.RingBuffer
use go_cli_server.Process.RingBuffer.{RingBuffer, snapshot, new_ring_buffer, with_capacity}
use go_cli_server.Process.RingBuffer.Output.{
  Op, write_op, reset_op, run, history, written_bytes, snapshot-run,
}
use go_cli_server.Process.LineWriter.{LineWriter, write, max_partial_line}
use go_cli_server.Process.LineWriter.Lines.{
  cut_of, feed, feed_all, ShortLines, write_all, joined, cut_of-write_all,
}
use go_cli_server.Process.LineWriter.Lossless.{held, without_newlines, held-write, partial-write}

abbrev ops : List Op
ops =
    write_op (9 ∷ [])
    ∷ reset_op
    ∷ write_op (1 ∷ 2 ∷ [])
    ∷ write_op (3 ∷ 4 ∷ 5 ∷ 6 ∷ 7 ∷ [])
    ∷ write_op (8 ∷ [])
    ∷ []

snapshot-run_example :
    snapshot (run (new_ring_buffer (ℤ.pos 4)) ops)
    ≡ (last_n 4 (history [] ops), ltb 4 (length (history [] ops)))
snapshot-run_example = snapshot-run 4 ops (omega arith) (unfold written_bytes in omega arith)

snapshot-ops : snapshot (run (new_ring_buffer (ℤ.pos 4)) ops) ≡ (5 ∷ 6 ∷ 7 ∷ 8 ∷ [], true)
unfolding run new_ring_buffer snapshot RingBuffer.write RingBuffer.reset
snapshot-ops = refl

abbrev writer : LineWriter
writer = record {
  buf = record {
    buffer = 0 ∷ 0 ∷ [];
    capacity = 2;
    write_pos = 0;
    total_written = 0;
    overflowed = false;
  };
  process_id = 112 ∷ [];
  partial = [];
  delivered = [];
}

abbrev chunks : List Bytes
chunks = (97 ∷ []) ∷ (98 ∷ 10 ∷ 99 ∷ []) ∷ []

cut_of-write_all_example :
    cut_of (write_all writer chunks) ≡ feed_all (cut_of writer) (joined chunks)
cut_of-write_all_example =
    cut_of-write_all chunks writer (unfold ShortLines joined feed in omega arith)

held-write_example :
    held (cut_of (write writer (97 ∷ 10 ∷ [])).0)
    ≡ held (cut_of writer) ++ without_newlines (97 ∷ 10 ∷ [])
held-write_example = held-write writer (97 ∷ 10 ∷ [])

partial-write_example : length (write writer (97 ∷ [])).0.partial < max_partial_line
partial-write_example = partial-write writer (97 ∷ []) (omega arith)
