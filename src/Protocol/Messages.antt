-- ===== src/Protocol/Messages.antt =====
-- The frames of `FormatOK` and `FormatErr` (protocol/responses.go) on the wire: sanitized messages,
-- and what `readUntilTerminator` of protocol/parser.go makes of them.
use go_cli_server.Prelude.{
  ℕ, ◌≤◌, Bool, true, false, not, ◌&&◌, [], ◌∷◌, ◌++◌, ◌≡◌, ◌≢◌, refl, sym, ap, ◌∙◌, inl, inr,
  arith, Bool-cases, ◌==◌, if◌then◌else◌, length, length-append, append_assoc, ok, ◌>>=◌, >>=-eq-ok,
}
use go_cli_server.Text.{Bytes, All, has_prefix, is_empty, newline, carriage_return, space}
use go_cli_server.Protocol.{ReadError, command_terminator, spaced_marker, max_frame_size, text}
use go_cli_server.Protocol.Reader.{Stream, read_until_terminator}
use go_cli_server.Protocol.Sanitize.{
  replace_all, replace_loop, broken_terminator, broken_marker, blank_lines, sanitize_message,
  sanitize_error_code, keep_code_bytes,
}
use go_cli_server.Protocol.Format.{format_ok, format_err, write_ok, write_err}
use go_cli_server.Protocol.Validate.{validate_frame_size}
use go_cli_server.Protocol.Framing.{no_pair, apart, ends_semi, read_until_terminator-frame}
use go_cli_server.Protocol.Sanitizing.{last_semi, last_semi-ends_semi, loops-IsBroken}

abbrev NotByte : ℕ → ℕ → Type 0
NotByte b c = (c == b) ≡ false

-- One byte that is neither a semicolon nor a space is replaced by a space.
record Blanks (b : ℕ) (s : Bytes) : Type 0 where
  gone : All (NotByte b) (replace_all (b ∷ []) (space ∷ []) s)
  same_pairs : (prev : Bool) → no_pair prev (replace_all (b ∷ []) (space ∷ []) s) ≡ no_pair prev s
  same_last : (d : Bool) → last_semi d (replace_all (b ∷ []) (space ∷ []) s) ≡ last_semi d s

replace_byte :
    (b c : ℕ) (s : Bytes)
    → replace_all (b ∷ []) (space ∷ []) (c ∷ s)
      ≡ (if c == b then space else c) ∷ replace_all (b ∷ []) (space ∷ []) s
unfolding replace_all has_prefix
replace_byte b c s = ground arith

blanks : (b : ℕ) (s : Bytes) → (b == 59) ≡ false → (b == space) ≡ false → Blanks b s
unfolding no_pair last_semi
blanks b [] h k = record {
  gone = unfold replace_all in tt;
  same_pairs = λ prev. unfold replace_all in refl;
  same_last = λ d. unfold replace_all in refl;
}
blanks b (c ∷ s) h k =
    let ih = blanks b s h k in
    record {
      gone = rw (replace_byte b c s) (ground arith, ih.gone);
      same_pairs = λ prev.
          rw (replace_byte b c s) (ground (arith, ih.same_pairs false, ih.same_pairs (c == 59)));
      same_last =
          λ d. rw (replace_byte b c s) (ground (arith, ih.same_last false, ih.same_last (c == 59)));
    }

keeps_gone :
    (a b : ℕ) (s : Bytes)
    → (a == space) ≡ false
    → All (NotByte a) s
    → All (NotByte a) (replace_all (b ∷ []) (space ∷ []) s)
keeps_gone a b [] h k = unfold replace_all in tt
keeps_gone a b (c ∷ s) h k = rw (replace_byte b c s) (ground (arith, k.0), keeps_gone a b s h k.1)

-- A message that a frame can carry: no terminator, no line end.
pub record IsSafe (s : Bytes) : Type 0 where
  pub no_terminator : no_pair false s ≡ true
  pub no_carriage_return : All (NotByte carriage_return) s
  pub no_newline : All (NotByte newline) s

module _ (m : Bytes) where
  -- Whatever the message holds, its sanitized form holds no terminator and no line end.
  pub sanitize_message-IsSafe : IsSafe (sanitize_message m)
  unfolding sanitize_message blank_lines
  sanitize_message-IsSafe =
      let t = replace_loop (length m) command_terminator broken_terminator m in
      let u = replace_loop (length t) spaced_marker broken_marker t in
      let first = blanks carriage_return u refl refl in
      let v = replace_all (carriage_return ∷ []) (space ∷ []) u in
      let second = blanks newline v refl refl in
      record {
        no_terminator =
            second.same_pairs false ∙ first.same_pairs false ∙ (loops-IsBroken m).no_terminator;
        no_carriage_return = keeps_gone carriage_return newline v refl first.gone;
        no_newline = second.gone;
      }

  -- The sanitized form ends in a semicolon exactly when the message does.
  pub ends_semi-sanitize_message : ends_semi (sanitize_message m) ≡ ends_semi m
  unfolding sanitize_message blank_lines
  ends_semi-sanitize_message =
      let t = replace_loop (length m) command_terminator broken_terminator m in
      let u = replace_loop (length t) spaced_marker broken_marker t in
      let v = replace_all (carriage_return ∷ []) (space ∷ []) u in
      sym (last_semi-ends_semi (replace_all (newline ∷ []) (space ∷ []) v))
      ∙ (blanks newline v refl refl).same_last false
      ∙ (blanks carriage_return u refl refl).same_last false
      ∙ (loops-IsBroken m).same_end
      ∙ last_semi-ends_semi m

apart-of-no_pair :
    (prev : Bool) (s : Bytes)
    → no_pair prev s ≡ true
    → last_semi prev s ≡ false
    → apart prev s ≡ true
unfolding apart no_pair last_semi
apart-of-no_pair prev [] h e = ground arith
apart-of-no_pair prev (c ∷ s) h e = ground (arith, apart-of-no_pair (c == 59) s)

-- The part of a text in front of a semicolon at its end.
drop_last : Bytes → Bytes
drop_last [] = []
drop_last (c ∷ []) = []
drop_last (c ∷ d ∷ s) = c ∷ drop_last (d ∷ s)

drop_last-semi : (s : Bytes) → ends_semi s ≡ true → s ≡ drop_last s ++ 59 ∷ []
unfolding drop_last ends_semi
drop_last-semi [] h = cc
drop_last-semi (c ∷ []) h = ground arith
drop_last-semi (c ∷ d ∷ s) h = ap (λ t. c ∷ t) (drop_last-semi (d ∷ s) h)

no_pair-concat : (prev : Bool) (t : Bytes) → no_pair prev (t ++ 59 ∷ []) ≡ apart prev t
unfolding apart no_pair
no_pair-concat prev [] = ground arith
no_pair-concat prev (c ∷ t) = ap (λ b. not (prev && c == 59) && b) (no_pair-concat (c == 59) t)

code_apart : (s t : Bytes) → apart false (keep_code_bytes s ++ t) ≡ apart false t
unfolding keep_code_bytes apart
code_apart [] t = refl
code_apart (c ∷ s) t = ground (arith, code_apart s t)

sanitize_error_code-apart : (s t : Bytes) → apart false (sanitize_error_code s ++ t) ≡ apart false t
unfolding sanitize_error_code
sanitize_error_code-apart s t = elim (Bool-cases (is_empty (keep_code_bytes s))) [
  | inl e ↦ rw e (unfold apart in refl)
  | inr e ↦ rw e (code_apart s t)
]

-- What stands in front of the message in an OK and in an ERR frame.
abbrev pub ok_head : Bytes
ok_head = text "OK "

abbrev pub err_head : Bytes → Bytes
err_head code = text "ERR " ++ (sanitize_error_code code ++ space ∷ [])

frame_fits : (frame : Bytes) → validate_frame_size frame ≡ ok tt → length frame ≤ max_frame_size
unfolding validate_frame_size
frame_fits frame h = ground arith

-- A head that ends in a space, in front of a sanitized message.
module _ (head m rest : Bytes) (e : ReadError)
    (opens : (t : Bytes) → apart false (head ++ t) ≡ apart false t)
    (size : length (head ++ (sanitize_message m ++ command_terminator)) ≤ max_frame_size) where
  abbrev frame_stream : Stream
  frame_stream = record {
    pending = (head ++ (sanitize_message m ++ command_terminator)) ++ rest;
    ending = e;
  }

  framed_exactly :
      ends_semi m ≡ false
      → read_until_terminator command_terminator frame_stream
        ≡ (ok (head ++ sanitize_message m), record { pending = rest; ending = e })
  framed_exactly h =
      let s = sanitize_message m in
      ap (λ t. read_until_terminator command_terminator (record { pending = t; ending = e }))
        (regroup head s)
      ∙ read_until_terminator-frame rest e (head ++ s)
          (opens s
            ∙ apart-of-no_pair false s (sanitize_message-IsSafe m).no_terminator
                (last_semi-ends_semi s ∙ ends_semi-sanitize_message m ∙ h))
          (omega (
            arith,
            length-append head (s ++ command_terminator),
            length-append s command_terminator,
            length-append head s,
          ))
    where
      regroup :
          (a b : Bytes)
          → (a ++ (b ++ command_terminator)) ++ rest ≡ (a ++ b) ++ (command_terminator ++ rest)
      regroup a b = simp append_assoc

  framed_early :
      ends_semi m ≡ true
      → read_until_terminator command_terminator frame_stream
        ≡ (ok (head ++ drop_last (sanitize_message m)), record { pending = 59 ∷ rest; ending = e })
  framed_early h =
      let t = drop_last (sanitize_message m) in
      let s_eq : sanitize_message m ≡ t ++ 59 ∷ [] =
        drop_last-semi (sanitize_message m) (ends_semi-sanitize_message m ∙ h) in
      ap (λ x. read_until_terminator command_terminator (record { pending = x; ending = e }))
        (ap (λ x. (head ++ (x ++ command_terminator)) ++ rest) s_eq ∙ regroup head t)
      ∙ read_until_terminator-frame (59 ∷ rest) e (head ++ t)
          (opens t
            ∙ sym (no_pair-concat false t)
            ∙ ap (no_pair false) (sym s_eq)
            ∙ (sanitize_message-IsSafe m).no_terminator)
          (omega (
            arith,
            ap (λ x. length x) s_eq,
            length-append head (sanitize_message m ++ command_terminator),
            length-append (sanitize_message m) command_terminator,
            length-append t (59 ∷ []),
            length-append head t,
          ))
    where
      regroup :
          (a b : Bytes)
          → (a ++ ((b ++ 59 ∷ []) ++ command_terminator)) ++ rest
            ≡ (a ++ b) ++ (command_terminator ++ (59 ∷ rest))
      regroup a b = simp append_assoc

format_ok-message :
    (m : Bytes) → m ≢ [] → format_ok m ≡ ok_head ++ (sanitize_message m ++ command_terminator)
unfolding format_ok
format_ok-message [] h = absurd (h refl)
format_ok-message (c ∷ m) h = refl

format_err-message :
    (code m : Bytes)
    → format_err code m ≡ err_head code ++ (sanitize_message m ++ command_terminator)
unfolding format_err
format_err-message code m = simp append_assoc

ok_opens : (t : Bytes) → apart false (ok_head ++ t) ≡ apart false t
unfolding apart
ok_opens t = refl

err_opens : (code t : Bytes) → apart false (err_head code ++ t) ≡ apart false t
err_opens code t =
    ap (apart false) (append_assoc (text "ERR ") (sanitize_error_code code ++ space ∷ []) t)
    ∙ unfold apart in
      (ap (apart false) (append_assoc (sanitize_error_code code) (space ∷ []) t)
        ∙ sanitize_error_code-apart code (space ∷ t))

-- The frame that a method of `Writer` hands over, and its size.
pub sent_frame :
    (f frame : Bytes)
    → (validate_frame_size f >>= λ _. ok f) ≡ ok frame
    → (f ≡ frame) × (length f ≤ max_frame_size)
sent_frame f frame h =
    let (u, fits, same_frame) = >>=-eq-ok (validate_frame_size f) (λ _. ok f) h in
    (cc same_frame, frame_fits f fits)

module _ (code m frame rest : Bytes) (e : ReadError) where
  -- An OK message that is not empty and does not end in a semicolon is one frame: the reader
  -- returns it, sanitized, behind "OK ", and leaves exactly what follows the frame.
  pub read-write_ok :
      m ≢ []
      → ends_semi m ≡ false
      → write_ok m ≡ ok frame
      → read_until_terminator command_terminator (record { pending = frame ++ rest; ending = e })
        ≡ (ok (ok_head ++ sanitize_message m), record { pending = rest; ending = e })
  unfolding write_ok
  read-write_ok ne last h =
      let (same_frame, size) = sent_frame (format_ok m) frame h in
      let form = format_ok-message m ne in
      ap
        (λ t. read_until_terminator command_terminator (record { pending = t ++ rest; ending = e }))
        (sym same_frame ∙ form)
      ∙ framed_exactly ok_head m rest e ok_opens (omega (arith, size, ap (λ t. length t) form)) last

  -- An ERR message that does not end in a semicolon is one frame, whatever it and the error code
  -- hold: the reader returns it, sanitized, behind its head, and leaves exactly what follows the
  -- frame.
  pub read-write_err :
      ends_semi m ≡ false
      → write_err code m ≡ ok frame
      → read_until_terminator command_terminator (record { pending = frame ++ rest; ending = e })
        ≡ (ok (err_head code ++ sanitize_message m), record { pending = rest; ending = e })
  unfolding write_err
  read-write_err last h =
      let (same_frame, size) = sent_frame (format_err code m) frame h in
      let form = format_err-message code m in
      ap
        (λ t. read_until_terminator command_terminator (record { pending = t ++ rest; ending = e }))
        (sym same_frame ∙ form)
      ∙ framed_exactly (err_head code) m rest e (err_opens code)
          (omega (arith, size, ap (λ t. length t) form)) last

  -- After an ERR message that ends in a semicolon the reader leaves a semicolon of the frame in the
  -- stream, in front of what follows.
  pub read-write_err_stray :
      ends_semi m ≡ true
      → write_err code m ≡ ok frame
      → (read_until_terminator command_terminator
          (record { pending = frame ++ rest; ending = e })).1
        ≡ record { pending = 59 ∷ rest; ending = e }
  unfolding write_err
  read-write_err_stray last h =
      let (same_frame, size) = sent_frame (format_err code m) frame h in
      let form = format_err-message code m in
      ap
        (λ t.
          (read_until_terminator command_terminator (record { pending = t ++ rest; ending = e })).1)
        (sym same_frame ∙ form)
      ∙ ap (λ p. p.1)
          (framed_early (err_head code) m rest e (err_opens code)
            (omega (arith, size, ap (λ t. length t) form)) last)
