-- ===== src/Script/Found.antt =====
-- What `Get`, `Register` and `Upsert` of script/registry.go find after a script was upserted.
use go_cli_server.Prelude.{
  Bool, true, false, ◌≡◌, refl, ap, ◌∙◌, inl, inr, Option, none, some, if◌then◌else◌, Bool-cases,
  Result, ok,
}
use go_cli_server.Text.{Bytes, same, is_empty}
use go_cli_server.Protocol.Registry.{lookup}
use go_cli_server.Hub.Keys.{lookup-store_same, lookup-store_other}
use go_cli_server.Script.Entry.{Entry, new_entry}
use go_cli_server.Script.ProcessId.{entry_key, normalize_project_path}
use go_cli_server.Script.Registry.{
  Registry, ScriptError, fresh_entry, carry_over, upsert_found, upsert, register_found, register,
  get,
}
use go_cli_server.Script.Upsert.{IsClean, carry_over-IsCarried, entry_key-normalize}

past_guards {ℓ} :
    {A : Type ℓ} (x y z : A) {a b : Bool}
    → a ≡ false
    → b ≡ false
    → (if a then x else if b then y else z) ≡ z
past_guards x y z named placed = rw (named, placed) refl

module _ {C T : Type 0} (clean base : Bytes → Bytes) (same_config : C → C → Bool) where
  pub upsert-found_lem :
      IsClean clean
      → (r : Registry C T) (name path : Bytes) (config : C) (now : T) → is_empty name ≡ false
      → is_empty path ≡ false
      → upsert clean base same_config r name path config now
        ≡ upsert_found clean base same_config r
            (entry_key clean path name)
            name
            (normalize_project_path clean path)
            config
            now
            (get clean base same_config r name path)
  unfolding upsert get
  upsert-found_lem c r name path config now named placed =
      past_guards _ _ _ named placed
      ∙ ap
          (λ key.
            upsert_found clean base same_config r key name (normalize_project_path clean path)
              config now (lookup key r.entries))
          (entry_key-normalize clean c path name)

  register-found_lem :
      IsClean clean
      → (r : Registry C T) (name path : Bytes) (config : C) (now : T) → is_empty name ≡ false
      → is_empty path ≡ false
      → register clean base same_config r name path config now
        ≡ register_found clean base same_config r
            (entry_key clean path name)
            name
            (normalize_project_path clean path)
            config
            now
            (get clean base same_config r name path)
  unfolding register get
  register-found_lem c r name path config now named placed =
      past_guards _ _ _ named placed
      ∙ ap
          (λ key.
            register_found clean base same_config r key name (normalize_project_path clean path)
              config now (lookup key r.entries))
          (entry_key-normalize clean c path name)

  unfoldable pub fresh_of : Bytes → Bytes → C → T → Entry C T
  fresh_of name path config now =
      fresh_entry clean base same_config name (normalize_project_path clean path) config now

  carried_config :
      (old : Entry C T) (name path : Bytes) (config : C) (now : T)
      → same_config config config ≡ true
      → same_config (carry_over old (fresh_of name path config now)).config config ≡ true
  unfolding fresh_of fresh_entry new_entry
  carried_config old name path config now h =
      let carried = carry_over-IsCarried old (fresh_of name path config now) refl refl in
      rw carried.same_config_as h

  -- An answer of `Upsert` that `Get` agrees with.
  abbrev pub IsAnswered :
      Bytes → Bytes → C → Registry C T × Result ScriptError (Entry C T × Bool) → Type 0
  IsAnswered name path config s =
      (e : Entry C T) × (replaced : Bool) × (s.1 ≡ ok (e, replaced))
      × (get clean base same_config s.0 name path ≡ some e)
      × (same_config e.config config ≡ true)

  -- With a `Clean` that is idempotent and never empty and a comparison of configurations that is
  -- reflexive, for a name and a path that are not empty: `Upsert` answers with an entry of that
  -- configuration, and `Get` then finds that entry.
  pub get-upsert :
      IsClean clean
      → ((a : C) → same_config a a ≡ true)
      → (r : Registry C T) (name path : Bytes) (config : C) (now : T) → is_empty name ≡ false
      → is_empty path ≡ false
      → IsAnswered name path config (upsert clean base same_config r name path config now)
  get-upsert c refl_config r name path config now named placed =
      rw (upsert-found_lem c r name path config now named placed)
        (at_key (get clean base same_config r name path) refl)
    where
      fresh : Entry C T
      fresh = fresh_of name path config now

      at_key :
          (o : Option (Entry C T))
          → get clean base same_config r name path ≡ o
          → IsAnswered name path config (
              upsert_found clean base same_config r
                (entry_key clean path name)
                name
                (normalize_project_path clean path)
                config
                now
                o)
      at_key none h =
          unfold get fresh_of fresh_entry new_entry in
          (
            fresh,
            false,
            refl,
            lookup-store_same (entry_key clean path name) fresh r.entries,
            refl_config config,
          )
      at_key (some old) h = elim (Bool-cases (same_config old.config config)) [
        | inl e ↦ rw e ((old, false, refl, h, e))
        | inr e ↦
            unfold get fresh_of in
            rw e (
              carry_over old fresh,
              true,
              refl,
              lookup-store_same (entry_key clean path name) (carry_over old fresh) r.entries,
              carried_config old name path config now (refl_config config),
            )
      ]

  -- Keys of other scripts.
  pub get-upsert_other :
      IsClean clean
      → (r : Registry C T) (name path : Bytes) (config : C) (now : T) (name2 path2 : Bytes)
      → is_empty name ≡ false
      → is_empty path ≡ false
      → same (entry_key clean path name) (entry_key clean path2 name2) ≡ false
      → get clean base same_config
          (upsert clean base same_config r name path config now).0
          name2
          path2
        ≡ get clean base same_config r name2 path2
  get-upsert_other c r name path config now name2 path2 named placed other =
      rw (upsert-found_lem c r name path config now named placed)
        (at_key (get clean base same_config r name path))
    where
      at_key :
          (o : Option (Entry C T))
          → get clean base same_config
              (upsert_found clean base same_config r
                (entry_key clean path name)
                name
                (normalize_project_path clean path)
                config
                now
                o).0
              name2
              path2
            ≡ get clean base same_config r name2 path2
      at_key none =
          unfold get in
          lookup-store_other (entry_key clean path name) (entry_key clean path2 name2) _ r.entries
            other
      at_key (some old) = elim (Bool-cases (same_config old.config config)) [
        | inl e ↦ rw e refl
        | inr e ↦
            unfold get in
            rw e (
              lookup-store_other (entry_key clean path name) (entry_key clean path2 name2) _
                r.entries other)
      ]

  -- With a `Clean` that is idempotent and never empty and a comparison of configurations that is
  -- reflexive, for a name and a path that are not empty: after an `Upsert`, the same `Upsert`
  -- again, and `Register` as well, answer with the same entry and leave the registry as it is.
  pub upsert-upsert :
      IsClean clean
      → ((a : C) → same_config a a ≡ true)
      → (r : Registry C T) (name path : Bytes) (config : C) (now later : T) → is_empty name ≡ false
      → is_empty path ≡ false
      → (e : Entry C T) × (upsert clean base same_config
            (upsert clean base same_config r name path config now).0
            name
            path
            config
            later
          ≡ ((upsert clean base same_config r name path config now).0, ok (e, false)))
        × (register clean base same_config
              (upsert clean base same_config r name path config now).0
              name
              path
              config
              later
            ≡ ((upsert clean base same_config r name path config now).0, ok e))
        × ((replaced : Bool) × ((upsert clean base same_config r name path config now).1
              ≡ ok (e, replaced)))
  upsert-upsert c refl_config r name path config now later named placed =
      let a = get-upsert c refl_config r name path config now named placed in
      let s = (upsert clean base same_config r name path config now).0 in
      (
        a.0,
        upsert-found_lem c s name path config later named placed ∙ rw (a.3, a.4) refl,
        register-found_lem c s name path config later named placed ∙ rw (a.3, a.4) refl,
        (a.1, a.2),
      )
