-- ===== src/Process/LineWriter.antt =====
-- `lineWriter` of process/linewriter.go: output cut into lines for a callback. The calls of the
-- callback are kept as a list, in order.
pub mod Lines
pub mod Lossless
use go_cli_server.Prelude.{
  ℕ, suc, Bool, true, false, List, [], ◌∷◌, ◌++◌, leb, ◌==◌, if◌then◌else◌, length,
}
use go_cli_server.Text.{Bytes, is_empty, newline}
use go_cli_server.Process.RingBuffer
use go_cli_server.Process.RingBuffer.{RingBuffer}

-- `maxPartialLine`.
abbrev pub max_partial_line : ℕ
max_partial_line = 65536

pub record LineWriter : Type 0 where
  pub buf : RingBuffer
  pub process_id : Bytes
  pub partial : Bytes
  pub delivered : List (Bytes × Bytes)

-- `newLineWriter`.
unfoldable pub new_line_writer : RingBuffer → Bytes → LineWriter
new_line_writer buf process_id = record {
  buf = buf;
  process_id = process_id;
  partial = [];
  delivered = [];
}

-- `lw.callback(lw.processID, line)`.
abbrev pub deliver : LineWriter → Bytes → LineWriter
deliver lw line = record lw { delivered = lw.delivered ++ (lw.process_id, line) ∷ [] }

-- The loop over the bytes, with the bytes since `start`; returns those that are left at the end.
unfoldable pub scan : LineWriter → Bytes → Bytes → LineWriter × Bytes
scan lw segment [] = (lw, segment)
scan lw segment (b ∷ p) =
    let line = scan (record (deliver lw (lw.partial ++ segment)) { partial = [] }) [] p in
    let more = scan lw (segment ++ b ∷ []) p in if b == newline then line else more

-- A partial line that reaches the bound is delivered.
unfoldable pub bound_partial : LineWriter → LineWriter
bound_partial lw =
    if leb max_partial_line (length lw.partial)
    then record (deliver lw lw.partial) { partial = [] }
    else lw

unfoldable pub keep_rest : LineWriter × Bytes → LineWriter
unfolding bound_partial
keep_rest (lw, []) = lw
keep_rest (lw, c ∷ rest) = bound_partial (record lw { partial = lw.partial ++ (c ∷ rest) })

-- `Write`: the new state and the number of bytes reported.
unfoldable pub write : LineWriter → Bytes → LineWriter × ℕ
unfolding scan keep_rest RingBuffer.write
write lw p =
    let (buf', n) = RingBuffer.write lw.buf p in
    (keep_rest (scan (record lw { buf = buf' }) [] p), n)

-- `flush`.
unfoldable pub flush : LineWriter → LineWriter
flush lw = if is_empty lw.partial then lw else record (deliver lw lw.partial) { partial = [] }
