-- ===== src/Protocol/CommandTrip.antt =====
-- A command that `Writer` sends (protocol/parser.go) is the command that `ParseCommand` returns.
use go_cli_server.Prelude.{
  ℕ, ◌+◌, ◌^◌, ◌≤◌, ◌<◌, true, false, ◌||◌, List, [], ◌∷◌, ◌++◌, ◌≡◌, ◌≢◌, refl, sym, ap, subst,
  ◌∙◌, arith, if◌then◌else◌, length, length-append, append_assoc, append-nil, ok, >>=-eq-ok,
}
use go_cli_server.Text.{
  Bytes, All, NoSpace, is_empty, has_prefix, index, to_upper, space, newline, trim_space,
}
use go_cli_server.Text.Decimal.{decimal}
use go_cli_server.Base64.{encode}
use go_cli_server.Base64.RoundTrip.{IsByte}
use go_cli_server.Protocol.{Command, ReadError, command_terminator, spaced_marker, max_frame_size}
use go_cli_server.Protocol.Registry.{VerbRegistry, is_valid_verb, is_sub_verb_for_verb}
use go_cli_server.Protocol.Reader.{read_until_terminator}
use go_cli_server.Protocol.Validate.{
  validate_token, validate_args, validate_command, validate_frame_size,
}
use go_cli_server.Protocol.Format.{
  format_args, data_part, format_command, write_command_with_sub_verb,
}
use go_cli_server.Protocol.Parse.{
  parse_data_part, parse_payload, sub_verb_and_args, build_command, split_command, parse_content,
  parse_command,
}
use go_cli_server.Protocol.Framing.{apart, ends_semi, IsFrameable, read_until_terminator-frame}
use go_cli_server.Protocol.Words.{IsWord, IsWords, validate_token-IsWord, validate_token-NoSpace}
use go_cli_server.Protocol.DataPart.{parse_data_part-encode, apart-data_part, trim_end-data_part}
use go_cli_server.Protocol.CommandText.{
  apart-words, apart-words_space, trim_space-words, trim_space-words_only, index-words_only,
  split_command-words, split_command-data,
}

-- The words behind the verb, as they are written.
abbrev pub words_behind : Command → List Bytes
words_behind cmd = if is_empty cmd.sub_verb then cmd.args else cmd.sub_verb ∷ cmd.args

-- The sub-verb is registered for the verb, in capitals and without white space; or there is none,
-- and the first argument would not be taken for one.
abbrev pub FirstArgIsPlain : VerbRegistry → Bytes → List Bytes → Type 0
FirstArgIsPlain vr verb [] = Unit {0}
FirstArgIsPlain vr verb (a ∷ as') = is_sub_verb_for_verb vr verb (to_upper a) ≡ false

abbrev pub SubVerbIsKnown : VerbRegistry → Bytes → Bytes → List Bytes → Type 0
SubVerbIsKnown vr verb [] args = FirstArgIsPlain vr verb args
SubVerbIsKnown vr verb (c ∷ s) args =
    NoSpace (c ∷ s) × (to_upper (c ∷ s) ≡ c ∷ s) × (is_sub_verb_for_verb vr verb (c ∷ s) ≡ true)

-- What the receiver's registry and the format ask of a command, beyond `ValidateCommand`.
pub record IsReadable (vr : VerbRegistry) (cmd : Command) : Type 0 where
  pub verb_no_space : NoSpace cmd.verb
  pub verb_upper : to_upper cmd.verb ≡ cmd.verb
  pub verb_known : is_valid_verb vr cmd.verb ≡ true
  pub verb_not_json : (has_prefix (b'{' ∷ []) cmd.verb || has_prefix (b'[' ∷ []) cmd.verb) ≡ false
  pub sub_verb_known : SubVerbIsKnown vr cmd.verb cmd.sub_verb cmd.args
  pub payload_bytes : All IsByte cmd.payload
  pub last_not_semicolon :
      cmd.payload ≡ [] → ends_semi (cmd.verb ++ format_args (words_behind cmd)) ≡ false

validate_args-IsWords : (ws : List Bytes) → validate_args ws ≡ ok tt → IsWords ws
unfolding validate_args
validate_args-IsWords [] h = tt
validate_args-IsWords (w ∷ ws) h =
    let (u, first, rest) = >>=-eq-ok (validate_token w false) (λ _. validate_args ws) h in
    (
      validate_token-IsWord w false (first ∙ refl) (validate_token-NoSpace w (first ∙ refl)),
      validate_args-IsWords ws rest,
    )

-- What the three checks of `ValidateCommand` grant.
module _ (vr : VerbRegistry) (cmd : Command) (r : IsReadable vr cmd) where
  validate_command-IsWords :
      validate_command cmd ≡ ok tt → IsWord cmd.verb × IsWords (words_behind cmd)
  unfolding validate_command
  validate_command-IsWords h =
      let (u, verb_ok, more) = >>=-eq-ok (validate_token cmd.verb true) _ h in
      let (v, sub_ok, args_ok) =
        >>=-eq-ok (if is_empty cmd.sub_verb then ok tt else validate_token cmd.sub_verb true)
          (λ _. validate_args cmd.args) more in
      (
        validate_token-IsWord cmd.verb true verb_ok r.verb_no_space,
        behind cmd.sub_verb r.sub_verb_known sub_ok (validate_args-IsWords cmd.args args_ok),
      )
    where
      behind :
          (sub : Bytes)
          → SubVerbIsKnown vr cmd.verb sub cmd.args
          → (if is_empty sub then ok tt else validate_token sub true) ≡ ok tt
          → IsWords cmd.args
          → IsWords (if is_empty sub then cmd.args else sub ∷ cmd.args)
      behind [] k h hs = hs
      behind (c ∷ s) k h hs = (validate_token-IsWord (c ∷ s) true h k.0, hs)

-- The data part that a payload is written as.
abbrev written_payload : Bytes → Bytes
written_payload payload = if is_empty payload then [] else data_part (encode payload)

-- A formatted command without its terminator.
abbrev content : Command → Bytes
content cmd = cmd.verb ++ (format_args (words_behind cmd) ++ written_payload cmd.payload)

format_command-content : (cmd : Command) → format_command cmd ≡ content cmd ++ command_terminator
unfolding format_command
format_command-content cmd = go cmd.sub_verb
  where
    go :
        (sub : Bytes)
        → cmd.verb
            ++ ((if is_empty sub then [] else b' ' ∷ sub)
                ++ (format_args cmd.args ++ (written_payload cmd.payload ++ command_terminator)))
          ≡ (cmd.verb
              ++ (format_args (if is_empty sub then cmd.args else sub ∷ cmd.args)
                  ++ written_payload cmd.payload))
            ++ command_terminator
    go [] = simp append_assoc
    go (c ∷ s) = simp append_assoc

sub_verb_and_args-known :
    (vr : VerbRegistry) (verb sub : Bytes) (args : List Bytes)
    → SubVerbIsKnown vr verb sub args
    → sub_verb_and_args vr verb (if is_empty sub then args else sub ∷ args) ≡ (sub, args)
unfolding sub_verb_and_args
sub_verb_and_args-known vr verb [] [] k = refl
sub_verb_and_args-known vr verb [] (a ∷ as') k = rw k
sub_verb_and_args-known vr verb (c ∷ s) args k =
    rw (ap (λ t. is_sub_verb_for_verb vr verb t) k.1 ∙ k.2) (ap (λ t. (t, args)) k.1)

parse_payload-ok :
    (d : Bytes) {p : Bytes} → d ≢ [] → parse_data_part d ≡ ok p → parse_payload d ≡ ok p
unfolding parse_payload
parse_payload-ok [] ne h = absurd (ne refl)
parse_payload-ok (c ∷ s) ne h = rw (h, parse_payload)

has_prefix_first :
    (p : ℕ) (w t : Bytes) → w ≢ [] → has_prefix (p ∷ []) (w ++ t) ≡ has_prefix (p ∷ []) w
unfolding has_prefix
has_prefix_first p [] t h = absurd (h refl)
has_prefix_first p (c ∷ w) t h = refl

is_empty-append : (w t : Bytes) → w ≢ [] → is_empty (w ++ t) ≡ false
is_empty-append [] t h = absurd (h refl)
is_empty-append (c ∷ w) t h = refl

append_newline-ne_nil : (a b : Bytes) → a ++ (newline ∷ b) ≢ []
append_newline-ne_nil [] b = λ e. cc
append_newline-ne_nil (c ∷ a) b = λ e. cc

module _ (vr : VerbRegistry) (cmd : Command) (r : IsReadable vr cmd)
    (words : IsWord cmd.verb × IsWords (words_behind cmd)) where
  build_command-known :
      (d : Bytes)
      → parse_payload d ≡ ok cmd.payload
      → build_command vr (cmd.verb ∷ words_behind cmd) d ≡ ok cmd
  unfolding build_command
  build_command-known d h = rw r.verb_upper (
      rw r.verb_known
        (rw (sub_verb_and_args-known vr cmd.verb cmd.sub_verb cmd.args r.sub_verb_known) (rw h)))

  -- The guards in front of the split pass.
  parse_content-split :
      (t : Bytes)
      → parse_content vr (cmd.verb ++ t)
        ≡ split_command vr (index spaced_marker (cmd.verb ++ t)) (cmd.verb ++ t)
  unfolding parse_content
  parse_content-split t = rw (
    is_empty-append cmd.verb t words.0.ne_nil,
    has_prefix_first b'{' cmd.verb t words.0.ne_nil,
    has_prefix_first b'[' cmd.verb t words.0.ne_nil,
    r.verb_not_json,
  )

  parse_content-written :
      (payload : Bytes)
      → payload ≡ cmd.payload
      → length (encode payload) < 2 ^ 63
      → parse_content vr (cmd.verb ++ (format_args (words_behind cmd) ++ written_payload payload))
        ≡ ok cmd
  parse_content-written [] e n =
      parse_content-split (format_args (words_behind cmd) ++ [])
      ∙ ap (λ o. split_command vr o (cmd.verb ++ (format_args (words_behind cmd) ++ [])))
          (index-words_only cmd.verb (words_behind cmd) words.0 words.1)
      ∙ split_command-words cmd.verb (words_behind cmd) words.0 words.1 vr
      ∙ build_command-known [] (unfold parse_payload in ap ok e)
  parse_content-written (c ∷ p) e n =
      let d = decimal (length (encode (c ∷ p))) ++ (newline ∷ encode (c ∷ p)) in
      parse_content-split (format_args (words_behind cmd) ++ (spaced_marker ++ d))
      ∙ split_command-data cmd.verb (words_behind cmd) words.0 words.1 vr d
      ∙ build_command-known d (
          parse_payload-ok d
            (append_newline-ne_nil (decimal (length (encode (c ∷ p)))) (encode (c ∷ p)))
            (parse_data_part-encode (c ∷ p) (subst (All IsByte) (sym e) r.payload_bytes) (λ q. cc) n
              ∙ ap ok e))

  trim_space-written :
      (payload : Bytes)
      → All IsByte payload
      → trim_space (cmd.verb ++ (format_args (words_behind cmd) ++ written_payload payload))
        ≡ cmd.verb ++ (format_args (words_behind cmd) ++ written_payload payload)
  trim_space-written [] b = trim_space-words_only cmd.verb (words_behind cmd) words.0 words.1
  trim_space-written (c ∷ p) b =
      let d = data_part (encode (c ∷ p)) in
      trim_space-words cmd.verb (words_behind cmd) d words.0 (
        rw (append_assoc cmd.verb (format_args (words_behind cmd)) d) at
          (trim_end-data_part (c ∷ p) b (cmd.verb ++ format_args (words_behind cmd)) (λ q. cc)))

  written-IsFrameable :
      (payload : Bytes)
      → payload ≡ cmd.payload
      → IsFrameable (cmd.verb ++ (format_args (words_behind cmd) ++ written_payload payload))
  written-IsFrameable [] e =
      rw (append-nil (format_args (words_behind cmd)))
        (apart-words cmd.verb (words_behind cmd) words.0 words.1 (r.last_not_semicolon (sym e)))
  written-IsFrameable (c ∷ p) e =
      let d = decimal (length (encode (c ∷ p))) ++ (newline ∷ encode (c ∷ p)) in
      apart-words_space cmd.verb (words_behind cmd) (b'-' ∷ b'-' ∷ b' ' ∷ d) words.0 words.1
      ∙ skip_space (b'-' ∷ b'-' ∷ b' ' ∷ d)
      ∙ apart-data_part (c ∷ p) (subst (All IsByte) (sym e) r.payload_bytes)
    where
      skip_space : (t : Bytes) → apart false t ≡ apart false (space ∷ t)
      skip_space t = unfold apart in refl

encoded_length : (p : Bytes) → length (encode p) ≤ length (written_payload p)
encoded_length [] = unfold encode in omega arith
encoded_length (c ∷ p) =
    omega (arith, length-append (decimal (length (encode (c ∷ p)))) (newline ∷ encode (c ∷ p)))

length-content : (cmd : Command) → length (written_payload cmd.payload) ≤ length (content cmd)
length-content cmd = omega (
  arith,
  length-append cmd.verb (format_args (words_behind cmd) ++ written_payload cmd.payload),
  length-append (format_args (words_behind cmd)) (written_payload cmd.payload),
)

frame_fits : (frame : Bytes) → validate_frame_size frame ≡ ok tt → length frame ≤ max_frame_size
unfolding validate_frame_size
frame_fits frame h = ground arith

-- The three steps of `ParseCommand`.
read_content :
    (vr : VerbRegistry) (cmd : Command) (rest : Bytes) (e : ReadError)
    → read_until_terminator command_terminator
        (record { pending = content cmd ++ (command_terminator ++ rest); ending = e })
      ≡ (ok (content cmd), record { pending = rest; ending = e })
    → trim_space (content cmd) ≡ content cmd
    → parse_content vr (content cmd) ≡ ok cmd
    → parse_command vr
        (record { pending = content cmd ++ (command_terminator ++ rest); ending = e })
      ≡ (ok cmd, record { pending = rest; ending = e })
unfolding parse_command
read_content vr cmd rest e read trimmed parsed = rw (read, parse_command) (rw trimmed (rw parsed))

-- What `WriteCommandWithSubVerb` writes for a readable command, `ParseCommand` reads back as that
-- command, whatever follows it, and leaves what follows it. Readable: the verb is registered, in
-- capitals, without white space and not like JSON; the sub-verb is registered for it, in capitals
-- and without white space, or is absent and the first argument is not one; the payload holds bytes;
-- and with no payload the words do not end in a semicolon.
pub parse_command-write_command :
    (vr : VerbRegistry) (cmd : Command) (frame rest : Bytes) (e : ReadError)
    → IsReadable vr cmd
    → write_command_with_sub_verb cmd.verb cmd.sub_verb cmd.args cmd.payload ≡ ok frame
    → parse_command vr (record { pending = frame ++ rest; ending = e })
      ≡ (ok cmd, record { pending = rest; ending = e })
unfolding write_command_with_sub_verb
parse_command-write_command vr cmd frame rest e r h =
    let (u, valid, sent) = >>=-eq-ok (validate_command cmd) _ h in
    let (v, fits, written) = >>=-eq-ok (validate_frame_size (format_command cmd)) _ sent in
    let words = validate_command-IsWords vr cmd r valid in
    let same_frame : frame ≡ content cmd ++ command_terminator =
      cc (written, format_command-content cmd) in
    let size : length (content cmd) + 2 ≤ max_frame_size = omega (
      arith,
      frame_fits (format_command cmd) fits,
      ap (λ t. length t) (format_command-content cmd),
      length-append (content cmd) command_terminator,
    ) in
    let small : length (encode cmd.payload) < 2 ^ 63 =
      omega (arith, encoded_length cmd.payload, length-content cmd) in
    ap (λ t. parse_command vr (record { pending = t; ending = e }))
      (ap (λ t. t ++ rest) same_frame ∙ append_assoc (content cmd) command_terminator rest)
    ∙ read_content vr cmd rest e
        (read_until_terminator-frame rest e (content cmd)
          (written-IsFrameable vr cmd r words cmd.payload refl) size)
        (trim_space-written vr cmd r words cmd.payload r.payload_bytes)
        (parse_content-written vr cmd r words cmd.payload refl small)
