-- ===== src/Protocol/ResponseTrip.antt =====
-- A response with data that `Writer` sends (protocol/responses.go, protocol/parser.go) is the
-- response that `ParseResponse` returns.
use go_cli_server.Prelude.{
  ℕ, ◌^◌, ◌≤◌, ◌<◌, false, [], ◌∷◌, ◌++◌, ◌≡◌, ◌≢◌, refl, ap, ◌∙◌, arith, length, length-append,
  append_assoc, Result, ok,
}
use go_cli_server.Text.{Bytes, All, is_space, newline, trim_space, trim_space-kept}
use go_cli_server.Text.Decimal.{decimal}
use go_cli_server.Base64.{encode}
use go_cli_server.Base64.RoundTrip.{IsByte}
use go_cli_server.Protocol.{
  ResponseType, Error, response_json, response_data, response_chunk, response_status, ReadError,
  command_terminator, spaced_marker, max_frame_size, text,
}
use go_cli_server.Protocol.Format.{
  data_part, format_payload, format_json, format_data, format_chunk, format_status, write_json,
  write_data, write_chunk, write_status,
}
use go_cli_server.Protocol.Parse.{
  parse_data_part, parse_payload, data_response, plain_response, response_content, parse_response,
}
use go_cli_server.Protocol.Framing.{apart, read_until_terminator-frame}
use go_cli_server.Protocol.DataPart.{parse_data_part-encode, apart-data_part, trim_end-data_part}
use go_cli_server.Protocol.Messages.{sent_frame}

-- What is used of the name of a response type with data.
record IsDataName (c : ℕ) (name : Bytes) (t : ResponseType) : Type 0 where
  black : is_space c ≡ false
  opens : (x : Bytes) → apart false ((c ∷ name) ++ x) ≡ apart false x
  splits : (d : Bytes) → response_content ((c ∷ name) ++ (spaced_marker ++ d)) ≡ data_response t d
  empty :
      response_content (trim_space ((c ∷ name) ++ data_part [])) ≡ ok (plain_response t [] [] [])

data_response-ok :
    (t : ResponseType) (d p : Bytes)
    → d ≢ []
    → parse_data_part d ≡ ok p
    → data_response t d ≡ ok (plain_response t [] [] p)
unfolding parse_payload
data_response-ok t [] p ne h = absurd (ne refl)
data_response-ok t (c ∷ s) p ne h = rw (h, parse_payload)

newline-ne_nil : (a b : Bytes) → a ++ (newline ∷ b) ≢ []
newline-ne_nil [] b = λ e. cc
newline-ne_nil (c ∷ a) b = λ e. cc

module _ (c : ℕ) (name : Bytes) (t : ResponseType) (n : IsDataName c name t) where
  -- The content of the frame is read back.
  content-read :
      (payload : Bytes)
      → All IsByte payload
      → length (encode payload) < 2 ^ 63
      → response_content (trim_space ((c ∷ name) ++ data_part (encode payload)))
        ≡ ok (plain_response t [] [] payload)
  content-read [] b small = unfold encode in n.empty
  content-read (x ∷ p) b small =
      let enc = encode (x ∷ p) in
      rw
        (trim_space-kept c (name ++ data_part enc) n.black
          (trim_end-data_part (x ∷ p) b (c ∷ name) (λ e. cc)))
        (n.splits (decimal (length enc) ++ (newline ∷ enc))
          ∙ data_response-ok t (decimal (length enc) ++ (newline ∷ enc)) (x ∷ p)
              (newline-ne_nil (decimal (length enc)) enc)
              (parse_data_part-encode (x ∷ p) b (λ e. cc) small))

  frame-read :
      (payload rest : Bytes) (e : ReadError)
      → All IsByte payload
      → length (format_payload (c ∷ name) payload) ≤ max_frame_size
      → parse_response (record { pending = format_payload (c ∷ name) payload ++ rest; ending = e })
        ≡ (ok (plain_response t [] [] payload), record { pending = rest; ending = e })
  unfolding parse_response
  frame-read payload rest e b size =
      let enc = encode payload in
      let content = (c ∷ name) ++ data_part enc in
      let tail = length-append (decimal (length enc)) (newline ∷ enc) in
      let all =
        read_until_terminator-frame rest e content
          (n.opens (data_part enc) ∙ apart-data_part payload b)
          (omega (
            arith,
            length-append (c ∷ name) (data_part enc ++ command_terminator),
            length-append (data_part enc) command_terminator,
            length-append (c ∷ name) (data_part enc),
          )) in
      ap (λ x. parse_response (record { pending = x; ending = e }))
        (regroup (c ∷ name) (data_part enc))
      ∙ rw (all, parse_response)
          (ap (λ r. (r, record { pending = rest; ending = e }))
            (content-read payload b (
              omega (
                arith,
                tail,
                length-append (c ∷ name) (data_part enc ++ command_terminator),
                length-append (data_part enc) command_terminator,
              ))))
    where
      regroup :
          (x y : Bytes)
          → (x ++ (y ++ command_terminator)) ++ rest ≡ (x ++ y) ++ (command_terminator ++ rest)
      regroup x y = simp append_assoc

json_name : IsDataName 74 (text "SON") response_json
unfolding apart response_content encode trim_space decimal parse_payload
json_name = record { black = refl; opens = λ x. refl; splits = λ d. refl; empty = refl }

data_name : IsDataName 68 (text "ATA") response_data
unfolding apart response_content encode trim_space decimal parse_payload
data_name = record { black = refl; opens = λ x. refl; splits = λ d. refl; empty = refl }

chunk_name : IsDataName 67 (text "HUNK") response_chunk
unfolding apart response_content encode trim_space decimal parse_payload
chunk_name = record { black = refl; opens = λ x. refl; splits = λ d. refl; empty = refl }

status_name : IsDataName 83 (text "TATUS") response_status
unfolding apart response_content encode trim_space decimal parse_payload
status_name = record { black = refl; opens = λ x. refl; splits = λ d. refl; empty = refl }

-- The four methods of `Writer` that send data.
pub data DataKind : Type 0 where
  json binary chunk status : DataKind

abbrev pub write_payload : DataKind → Bytes → Result Error Bytes
write_payload json = write_json
write_payload binary = write_data
write_payload chunk = write_chunk
write_payload status = write_status

abbrev pub type_of : DataKind → ResponseType
type_of json = response_json
type_of binary = response_data
type_of chunk = response_chunk
type_of status = response_status

-- What `WriteJSON`, `WriteData`, `WriteChunk` and `WriteStatus` send for a payload of bytes, the
-- empty one included, `ParseResponse` returns as the response of that type with that payload, and
-- it leaves what follows the frame.
pub parse_response-write_payload :
    (kind : DataKind) (payload frame rest : Bytes) (e : ReadError)
    → All IsByte payload
    → write_payload kind payload ≡ ok frame
    → parse_response (record { pending = frame ++ rest; ending = e }) ≡ (
      ok (record { type = type_of kind; message = []; code = []; payload = payload }),
      record { pending = rest; ending = e },
    )
unfolding write_json write_data write_chunk write_status
parse_response-write_payload json payload frame rest e b h =
    let (same_frame, size) = sent_frame (format_json payload) frame h in
    rw (← same_frame) (frame-read 74 (text "SON") response_json json_name payload rest e b size)
parse_response-write_payload binary payload frame rest e b h =
    let (same_frame, size) = sent_frame (format_data payload) frame h in
    rw (← same_frame) (frame-read 68 (text "ATA") response_data data_name payload rest e b size)
parse_response-write_payload chunk payload frame rest e b h =
    let (same_frame, size) = sent_frame (format_chunk payload) frame h in
    rw (← same_frame) (frame-read 67 (text "HUNK") response_chunk chunk_name payload rest e b size)
parse_response-write_payload status payload frame rest e b h =
    let (same_frame, size) = sent_frame (format_status payload) frame h in
    rw (← same_frame)
      (frame-read 83 (text "TATUS") response_status status_name payload rest e b size)
