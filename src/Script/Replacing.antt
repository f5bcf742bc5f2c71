-- ===== src/Script/Replacing.antt =====
-- What `Upsert` of script/registry.go makes of a script whose configuration changed.
use go_cli_server.Prelude.{Bool, true, false, ◌≡◌, refl, some, [], ok}
use go_cli_server.Text.{Bytes, is_empty}
use go_cli_server.Protocol.Registry.{member}
use go_cli_server.Hub.Keys.{lookup-store_same}
use go_cli_server.Script.ProcessId.{entry_key}
use go_cli_server.Script.Entry.{Entry, idle, new_entry, lines_of, owner}
use go_cli_server.Script.Registry.{Registry, fresh_entry, carry_over, upsert, get}
use go_cli_server.Script.Lines.{new_lines, output_lines, collect}
use go_cli_server.Script.Upsert.{IsClean, IsCarried, carry_over-IsCarried}
use go_cli_server.Script.Found.{upsert-found_lem, fresh_of}

module _ {C T : Type 0} (clean base : Bytes → Bytes) (same_config : C → C → Bool) where
  -- A script with another configuration starts afresh, with the observers and the owner it had.
  pub record IsReplacement (old : Entry C T) (config : C) (e : Entry C T) : Type 0 where
    pub is_configured : e.config ≡ config
    pub is_idle : e.state ≡ idle
    pub never_started : e.start_count ≡ 0
    pub no_output : lines_of e ≡ []
    pub owned_as : owner e ≡ owner old
    pub observed_as : (j : Bytes) → member j e.sessions ≡ member j old.sessions

  -- With a `Clean` that is idempotent and never empty, for a name and a path that are not empty: if
  -- `Get` finds an entry with another configuration, `Upsert` answers with one of the new
  -- configuration, which is idle, was never started and has no output, and has the owner and the
  -- observers of the old one, and `Get` then finds this entry.
  pub upsert-IsReplacement :
      IsClean clean
      → (r : Registry C T) (name path : Bytes) (config : C) (now : T) (old : Entry C T)
      → is_empty name ≡ false
      → is_empty path ≡ false
      → get clean base same_config r name path ≡ some old
      → same_config old.config config ≡ false
      → (e : Entry C T) × ((upsert clean base same_config r name path config now).1 ≡ ok (e, true))
        × (get clean base same_config
              (upsert clean base same_config r name path config now).0
              name
              path
            ≡ some e)
        × IsReplacement old config e
  unfolding fresh_of fresh_entry
  upsert-IsReplacement c r name path config now old named placed h changed = (
    carry_over old fresh,
    rw (upsert-found_lem clean base same_config c r name path config now named placed, h, changed)
        (unfold fresh_of in refl),
    stored,
    record {
      is_configured = carried.same_config_as;
      is_idle = carried.same_state;
      never_started = carried.same_starts;
      no_output =
          unfold lines_of in rw carried.same_output (unfold new_lines output_lines collect in refl);
      owned_as = carried.same_owner;
      observed_as = carried.same_sessions;
    },
  )
    where
      fresh : Entry C T
      fresh = fresh_of clean base same_config name path config now

      carried : IsCarried old fresh (carry_over old fresh)
      carried = unfold fresh_of fresh_entry new_entry in carry_over-IsCarried old fresh refl refl

      stored :
          get clean base same_config
            (upsert clean base same_config r name path config now).0
            name
            path
          ≡ some (carry_over old fresh)
      stored =
          unfold get fresh_of in
          rw
            (
              upsert-found_lem clean base same_config c r name path config now named placed,
              h,
              changed,
            )
            (lookup-store_same (entry_key clean path name) (carry_over old fresh) r.entries)
