-- ===== src/Protocol/Reader.antt =====
-- `readUntilTerminator` and `Resync` of protocol/parser.go.
use go_cli_server.Prelude.{◌-◌, [], ◌∷◌, ◌++◌, ltb, if◌then◌else◌, length, take, Result, ok, err}
use go_cli_server.Text.{Bytes, has_suffix, is_empty}
use go_cli_server.Protocol.{
  ReadError, cut_off, frame_too_large, Error, read_error, partial_frame, command_terminator,
  max_frame_size,
}

-- The unread bytes of the connection, and the error that the reader reports behind them.
pub record Stream : Type 0 where
  pub pending : Bytes
  pub ending : ReadError

-- The loop of `readUntilTerminator`, on the buffer read so far.
unfoldable pub read_loop : Bytes → Bytes → Bytes → ReadError → Result Error Bytes × Stream
unfolding has_suffix
read_loop term buf [] e = (
  err (if is_empty buf then read_error e else partial_frame (cut_off e)),
  record { pending = []; ending = e },
)
read_loop term buf (b ∷ s) e =
    let buf' = buf ++ b ∷ [] in
    let more = read_loop term buf' s e in
    if ltb max_frame_size (length buf')
    then (err (partial_frame frame_too_large), record { pending = s; ending = e })
    else if has_suffix term buf'
    then (ok (take (length buf' - length term) buf'), record { pending = s; ending = e })
    else more

-- `readUntilTerminator`.
unfoldable pub read_until_terminator : Bytes → Stream → Result Error Bytes × Stream
unfolding read_loop
read_until_terminator term s = read_loop term [] s.pending s.ending

abbrev forget : Result Error Bytes → Result Error (Unit {0})
forget (ok c) = ok tt
forget (err e) = err e

-- `Resync`.
unfoldable pub resync : Stream → Result Error (Unit {0}) × Stream
unfolding read_until_terminator
resync s = let (r, s') = read_until_terminator command_terminator s in (forget r, s')
