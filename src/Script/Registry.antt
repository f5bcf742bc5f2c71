-- ===== src/Script/Registry.antt =====
-- `Registry` of script/registry.go, where an entry stands for the object behind its pointer. Package
-- `reflect` compares configurations; every method is one step.
use go_cli_server.Prelude.{
  Bool, true, false, Option, none, some, List, [], ◌∷◌, ◌++◌, if◌then◌else◌, Result, ok, err,
}
use go_cli_server.Text.{Bytes, same, is_empty, is_some, has_prefix}
use go_cli_server.Protocol.Registry.{lookup, store}
use go_cli_server.Scheduler.Tasks.{delete}
use go_cli_server.Script.Entry.{Entry, new_entry, add_session, set_owner, list_sessions, owner}
use go_cli_server.Script.ProcessId.{entry_key, make_process_id, normalize_project_path}

-- `Registry`: the entries by their keys.
pub record Registry (C T : Type 0) : Type 0 where
  pub entries : List (Bytes × Entry C T)

pub data ScriptError : Type 0 where
  name_required path_required : ScriptError
  different_config : Bytes → Bytes → ScriptError

-- `NewRegistry`.
unfoldable pub new_registry : {C T : Type 0} → Registry C T
new_registry = record { entries = [] }

module _ {C T : Type 0} where
  -- The loop that carries the observers over.
  unfoldable pub add_sessions : List Bytes → Entry C T → Entry C T
  unfolding add_session
  add_sessions [] e = e
  add_sessions (s ∷ ss) e = add_sessions ss (add_session s e)

  -- What a replaced entry hands on: who watches the script, and who owns it.
  unfoldable pub carry_over : Entry C T → Entry C T → Entry C T
  unfolding add_sessions list_sessions owner set_owner
  carry_over old e =
      let watched = add_sessions (list_sessions old) e in
      if is_empty (owner old) then watched else set_owner (owner old) watched

  -- The values of the map whose keys have a prefix.
  unfoldable pub with_prefix : Bytes → List (Bytes × Entry C T) → List (Entry C T)
  unfolding has_prefix
  with_prefix p [] = []
  with_prefix p ((k, e) ∷ m) =
      let rest = with_prefix p m in if has_prefix p k then e ∷ rest else rest

  -- `GetByProcessID`; the first one that the map shows.
  unfoldable pub find_process_id : Bytes → List (Bytes × Entry C T) → Option (Entry C T)
  unfolding same
  find_process_id i [] = none
  find_process_id i ((k, e) ∷ m) =
      let rest = find_process_id i m in if same e.process_id i then some e else rest

  -- `ListAll`; the order of a Go map is not fixed.
  unfoldable pub list_all : List (Bytes × Entry C T) → List (Entry C T)
  list_all [] = []
  list_all ((k, e) ∷ m) = e ∷ list_all m

module _ {C T : Type 0} (clean base : Bytes → Bytes) (same_config : C → C → Bool) where
  -- The entry that `Register` and `Upsert` make.
  unfoldable pub fresh_entry : Bytes → Bytes → C → T → Entry C T
  unfolding new_entry make_process_id
  fresh_entry name path config now =
      new_entry name path (make_process_id clean base path name) config now

  abbrev pub register_found :
      Registry C T
      → Bytes
      → Bytes
      → Bytes
      → C
      → T
      → Option (Entry C T)
      → Registry C T × Result ScriptError (Entry C T)
  register_found r key name path config now none =
      let e = fresh_entry name path config now in
      (record r { entries = store key e r.entries }, ok e)
  register_found r key name path config now (some e) =
      (r, (if same_config e.config config then ok e else err (different_config name path)))

  -- `Register`.
  unfoldable pub register :
      Registry C T → Bytes → Bytes → C → T → Registry C T × Result ScriptError (Entry C T)
  unfolding entry_key normalize_project_path fresh_entry lookup store
  register r name project_path config now =
      let path = normalize_project_path clean project_path in
      let key = entry_key clean path name in
      if is_empty name
      then (r, err name_required)
      else if is_empty project_path
      then (r, err path_required)
      else register_found r key name path config now (lookup key r.entries)

  abbrev pub upsert_found :
      Registry C T
      → Bytes
      → Bytes
      → Bytes
      → C
      → T
      → Option (Entry C T)
      → Registry C T × Result ScriptError (Entry C T × Bool)
  upsert_found r key name path config now none =
      let e = fresh_entry name path config now in
      (record r { entries = store key e r.entries }, ok (e, false))
  upsert_found r key name path config now (some old) =
      let e = carry_over old (fresh_entry name path config now) in
      if same_config old.config config
      then (r, ok (old, false))
      else (record r { entries = store key e r.entries }, ok (e, true))

  -- `Upsert`, where nobody replaces the entry between the look at it and the swap.
  unfoldable pub upsert :
      Registry C T → Bytes → Bytes → C → T → Registry C T × Result ScriptError (Entry C T × Bool)
  unfolding entry_key normalize_project_path fresh_entry carry_over lookup store
  upsert r name project_path config now =
      let path = normalize_project_path clean project_path in
      let key = entry_key clean path name in
      if is_empty name
      then (r, err name_required)
      else if is_empty project_path
      then (r, err path_required)
      else upsert_found r key name path config now (lookup key r.entries)

  -- `Get`.
  unfoldable pub get : Registry C T → Bytes → Bytes → Option (Entry C T)
  unfolding entry_key lookup
  get r name path = lookup (entry_key clean path name) r.entries

  -- `List`.
  unfoldable pub list_project : Registry C T → Bytes → List (Entry C T)
  unfolding with_prefix normalize_project_path
  list_project r path = with_prefix (normalize_project_path clean path ++ 0 ∷ []) r.entries

  -- `GetByProcessID`.
  unfoldable pub get_by_process_id : Registry C T → Bytes → Option (Entry C T)
  unfolding find_process_id
  get_by_process_id r i = find_process_id i r.entries

  -- `Remove`.
  unfoldable pub remove : Registry C T → Bytes → Bytes → Registry C T × Bool
  unfolding entry_key lookup delete
  remove r name path =
      let key = entry_key clean path name in
      (record r { entries = delete key r.entries }, is_some (lookup key r.entries))
