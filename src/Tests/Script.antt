-- ===== src/Tests/Script.antt =====
-- The theorems on script/ at concrete inputs.
use go_cli_server.Prelude.{
  some, ℕ, true, false, Bool, List, [], ◌∷◌, ◌++◌, ◌≡◌, refl, arith, last_n, ◌==◌, none, ok,
}
use go_cli_server.Text.{Bytes, is_empty, same}
use go_cli_server.Protocol.{text}
use go_cli_server.Script.Lines.{new_lines, output_lines}
use go_cli_server.Script.LinesLast.{append_all, output_lines-new}
use go_cli_server.Script.Entry.{Entry, idle, starting, running, failed, max_state_transitions}
use go_cli_server.Script.History.{
  Change, set, swap, change_all, transitions, state_after, history-change_all,
}
use go_cli_server.Script.ProcessId.{fnv_32a, fnv_from, fnv_step, entry_key}
use go_cli_server.Script.Registry.{Registry, upsert, register, get}
use go_cli_server.Script.Upsert.{IsClean}
use go_cli_server.Script.Found.{IsAnswered, get-upsert, upsert-upsert}
use go_cli_server.Script.Replacing.{IsReplacement, upsert-IsReplacement}

abbrev three_lines : List Bytes
three_lines = (1 ∷ []) ∷ (2 ∷ []) ∷ (3 ∷ []) ∷ []

output_lines-new_example :
    output_lines 2 (append_all 2 (omega arith) (new_lines 2) three_lines) ≡ last_n 2 three_lines
output_lines-new_example = output_lines-new 2 (omega arith) three_lines

-- The hash that FNV-1a gives the letter a.
fnv-letter : fnv_32a (97 ∷ []) ≡ 3826002220
unfolding fnv_32a fnv_from fnv_step
fnv-letter = refl

abbrev entry : Entry ℕ ℕ
entry = record {
  name = text "dev";
  project_path = text "/p";
  process_id = text "p-1:dev";
  config = 1;
  state = idle;
  start_count = 0;
  fail_count = 0;
  output = record { slots = []; head = 0; count = 0 };
  state_history = record { state = idle; timestamp = 0 } ∷ [];
  resolved_cmd = [];
  resolved_args = [];
  last_error = [];
  sessions = [];
  owner_session = none;
}

abbrev changes : List (Change ℕ)
changes = set 1 starting ∷ swap 2 running failed ∷ swap 3 starting running ∷ []

history-change_all_example :
    ((change_all changes entry).state ≡ state_after idle changes)
    × ((change_all changes entry).state_history
        ≡ last_n max_state_transitions (entry.state_history ++ transitions idle changes))
history-change_all_example = history-change_all changes entry entry.state_history refl

-- `Clean` on paths that are clean, but for the empty one.
abbrev clean : Bytes → Bytes
clean [] = text "."
clean (c ∷ p) = c ∷ p

clean-IsClean : IsClean clean
clean-IsClean = record { clean-clean = twice; clean-ne_nil = full }
  where
    twice : (p : Bytes) → clean (clean p) ≡ clean p
    twice [] = refl
    twice (c ∷ p) = refl

    full : (p : Bytes) → is_empty (clean p) ≡ false
    full [] = refl
    full (c ∷ p) = refl

abbrev base : Bytes → Bytes
base p = p

abbrev same_config : ℕ → ℕ → Bool
same_config a b = a == b

same_config_self : (a : ℕ) → same_config a a ≡ true
same_config_self a = ground arith

abbrev registry : Registry ℕ ℕ
registry = record { entries = (text "/p" ++ 0 ∷ text "dev", entry) ∷ [] }

get-upsert_example :
    IsAnswered clean base same_config
      (text "dev")
      (text "/p")
      2
      (upsert clean base same_config registry (text "dev") (text "/p") 2 7)
get-upsert_example =
    get-upsert clean base same_config clean-IsClean same_config_self registry (text "dev")
      (text "/p") 2 7 refl refl

upsert-upsert_example :
    (e : Entry ℕ ℕ) × (upsert clean base same_config
        (upsert clean base same_config registry (text "dev") (text "/p") 2 7).0
        (text "dev")
        (text "/p")
        2
        8
      ≡ ((upsert clean base same_config registry (text "dev") (text "/p") 2 7).0, ok (e, false)))
    × (register clean base same_config
          (upsert clean base same_config registry (text "dev") (text "/p") 2 7).0
          (text "dev")
          (text "/p")
          2
          8
        ≡ ((upsert clean base same_config registry (text "dev") (text "/p") 2 7).0, ok e))
    × ((replaced : Bool) × ((upsert clean base same_config registry (text "dev") (text "/p") 2 7).1
          ≡ ok (e, replaced)))
upsert-upsert_example =
    upsert-upsert clean base same_config clean-IsClean same_config_self registry (text "dev")
      (text "/p") 2 7 8 refl refl

upsert-IsReplacement_example :
    (e : Entry ℕ ℕ) × ((upsert clean base same_config registry (text "dev") (text "/p") 2 7).1
      ≡ ok (e, true))
    × (get clean base same_config
          (upsert clean base same_config registry (text "dev") (text "/p") 2 7).0
          (text "dev")
          (text "/p")
        ≡ some e)
    × IsReplacement clean base same_config entry 2 e
upsert-IsReplacement_example =
    upsert-IsReplacement clean base same_config clean-IsClean registry (text "dev") (text "/p") 2 7
      entry refl refl (unfold get entry_key same in refl) refl
