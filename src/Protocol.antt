-- ===== src/Protocol.antt =====
-- protocol/: the text protocol between a client and the hub.
-- The data types of protocol/commands.go, protocol/responses.go and protocol/parser.go.
pub mod Registry
pub mod Reader
pub mod Validate
pub mod Sanitize
pub mod Format
pub mod Parse
pub mod Framing
pub mod Words
pub mod DataPart
pub mod CommandText
pub mod CommandTrip
pub mod Sanitizing
pub mod Messages
pub mod ResponseTrip
use Prim.Native.Char.{code}
use Prim.Native.String.{String}
use go_cli_server.Prelude.{ℕ, Bool, true, false, List, [], ◌∷◌, ◌^◌, ◌*◌}
use go_cli_server.Text.{Bytes}

-- A text literal as bytes.
abbrev pub text : String → Bytes
text String.[] = []
text (String.◌∷◌ c s) = code c ∷ text s

-- `CommandTerminator`.
abbrev pub command_terminator : Bytes
command_terminator = b';' ∷ b';' ∷ []

-- `DataMarker`.
abbrev pub data_marker : Bytes
data_marker = b'-' ∷ b'-' ∷ []

-- `" " + DataMarker + " "`.
abbrev pub spaced_marker : Bytes
spaced_marker = b' ' ∷ b'-' ∷ b'-' ∷ b' ' ∷ []

-- `MaxFrameSize`, 16 << 20.
abbrev pub max_frame_size : ℕ
max_frame_size = 16777216

-- `Command`. An absent payload and an empty one are both `[]`.
pub record Command : Type 0 where
  pub verb : Bytes
  pub sub_verb : Bytes
  pub args : List Bytes
  pub payload : Bytes

-- The response types, with one constructor for each text that `ParseResponse` knows.
pub data ResponseType : Type 0 where
  response_ok response_err response_data response_json : ResponseType
  response_chunk response_status response_end response_pong : ResponseType

-- `Response`.
pub record Response : Type 0 where
  pub type : ResponseType
  pub message : Bytes
  pub code : Bytes
  pub payload : Bytes

-- How a stream ends: with `io.EOF`, or with another read error such as a timeout.
pub data ReadError : Type 0 where
  eof failed : ReadError

-- What a `PartialFrameError` wraps.
pub data FrameCause : Type 0 where
  cut_off : ReadError → FrameCause
  frame_too_large : FrameCause

-- The errors of `parseDataPart`.
pub data DataError : Type 0 where
  missing_newline invalid_length length_mismatch invalid_base64 : DataError

-- The errors of `validateToken`.
pub data TokenError : Type 0 where
  token_empty has_terminator has_newline has_marker has_whitespace : TokenError

-- The errors of the package.
pub data Error : Type 0 where
  read_error : ReadError → Error
  partial_frame : FrameCause → Error
  empty_command json_instead_of_command marker_without_length : Error
  unknown_command : Bytes → List Bytes → Error
  bad_data : DataError → Error
  empty_response : Error
  requires_data : ResponseType → Error
  unknown_response_type : Bytes → Error
  bad_token : TokenError → Error
  too_large_to_send : Error

-- `IsPartialFrame`.
unfoldable pub is_partial_frame : Error → Bool
is_partial_frame (partial_frame c) = true
is_partial_frame _ = false
