-- ===== src/Scheduler/Store.antt =====
-- `StateManager` of scheduler/state.go. The files are those of package `os`, and the text of a state
-- file is written and read by package `encoding/json`: both are parameters.
use go_cli_server.Prelude.{
  ℕ, Bool, true, false, Option, none, some, List, [], ◌∷◌, ◌++◌, if◌then◌else◌, Result, ok, err,
}
use go_cli_server.Text.{Bytes, same, is_empty}
use go_cli_server.Protocol.{text}
use go_cli_server.Protocol.Registry.{add_key}
use go_cli_server.Scheduler.{Task}

-- What package `os` answers, with the files as they are then; `not_exist` is `os.IsNotExist`.
pub data OsError : Type 0 where
  not_exist other : OsError

-- The calls of `os` that the state manager makes. A write opens, writes, syncs and closes a file.
pub record Os (F : Type 0) : Type 0 where
  pub mkdir_all : F → Bytes → F × Option OsError
  pub read_file : F → Bytes → Option OsError × Bytes
  pub open_file : F → Bytes → F × Option OsError
  pub write_synced : F → Bytes → Bytes → F × Option OsError
  pub remove : F → Bytes → F × Option OsError
  pub rename : F → Bytes → Bytes → F × Option OsError
  pub stat : F → Bytes → Option OsError

-- `PersistedState`.
pub record PersistedState (T : Type 0) : Type 0 where
  pub version : ℕ
  pub tasks : List (Task T)
  pub updated_at : Bytes

-- Package `encoding/json` on states; `none` is its error. `join_path` and `dir` are of `filepath`.
pub record Codec (T : Type 0) : Type 0 where
  pub marshal : PersistedState T → Option Bytes
  pub unmarshal : Bytes → Option (PersistedState T)
  pub join_path : Bytes → Bytes → Bytes → Bytes
  pub dir : Bytes → Bytes

-- `StateConfig`.
pub record StateConfig : Type 0 where
  pub state_dir : Bytes
  pub state_file : Bytes

-- `StateManager` and the files it works on.
pub record StateManager (F : Type 0) : Type 0 where
  pub config : StateConfig
  pub known_projects : List Bytes
  pub files : F

pub data StateError : Type 0 where
  no_project_path mkdir_failed load_failed marshal_failed : StateError
  open_failed write_failed rename_failed remove_failed : StateError

-- `DefaultStateConfig`.
unfoldable pub default_state_config : StateConfig
default_state_config = record {
  state_dir = text ".cli-server";
  state_file = text "scheduled-tasks.json";
}

abbrev or_default : Bytes → Bytes → Bytes
or_default s d = if is_empty s then d else s

-- `NewStateManager`.
unfoldable pub new_state_manager : {F : Type 0} → F → StateConfig → StateManager F
new_state_manager files config = record {
  config = record {
    state_dir = or_default config.state_dir (text ".cli-server");
    state_file = or_default config.state_file (text "scheduled-tasks.json");
  };
  known_projects = [];
  files = files;
}

-- `delete(m, k)` on the keys of a map.
unfoldable pub delete_key : Bytes → List Bytes → List Bytes
unfolding same
delete_key k [] = []
delete_key k (j ∷ ks) = let rest = delete_key k ks in if same j k then rest else j ∷ rest

module _ {T : Type 0} where
  abbrev holds_id : Bytes → Task T → Bool
  holds_id i t = same t.id i

  -- The loop of `SaveTask`: the first task of that ID is replaced, or the task is added at the end.
  unfoldable pub put_task : Task T → List (Task T) → List (Task T)
  unfolding same
  put_task t [] = t ∷ []
  put_task t (u ∷ us) = let rest = put_task t us in if same u.id t.id then t ∷ us else u ∷ rest

  -- The loop of `RemoveTask`: the first task of that ID is dropped.
  unfoldable pub drop_task : Bytes → List (Task T) → List (Task T)
  unfolding same
  drop_task i [] = []
  drop_task i (u ∷ us) = let rest = drop_task i us in if same u.id i then us else u ∷ rest

abbrev pub no_tasks : {T : Type 0} → List (Task T) → Bool
no_tasks [] = true
no_tasks (t ∷ ts) = false

module _ {F T : Type 0} (os : Os F) (json : Codec T) (stamp : Bytes) where
  -- `getStatePath`.
  unfoldable pub get_state_path : StateManager F → Bytes → Bytes
  get_state_path m project = json.join_path project m.config.state_dir m.config.state_file

  abbrev fresh_state : PersistedState T
  fresh_state = record { version = 1; tasks = []; updated_at = [] }

  -- What `loadStateLocked` makes of a file's text: a corrupt file is set aside.
  unfoldable pub decode_state : F → Bytes → Option (PersistedState T) → F × PersistedState T
  decode_state files path none = ((os.rename files path (path ++ text ".corrupt")).0, fresh_state)
  decode_state files path (some state) = (files, state)

  abbrev as_loaded : F → Bytes → Option OsError × Bytes → F × Result OsError (PersistedState T)
  as_loaded files path (some e, content) = (files, err e)
  as_loaded files path (none, content) =
      let r = decode_state files path (json.unmarshal content) in (r.0, ok r.1)

  -- `loadStateLocked`.
  unfoldable pub load_state : F → Bytes → F × Result OsError (PersistedState T)
  unfolding decode_state
  load_state files path = as_loaded files path (os.read_file files path)

  abbrev tmp_path : Bytes → Bytes
  tmp_path path = path ++ text ".tmp"

  abbrev renamed : Bytes → F × Option OsError → F × Option StateError
  renamed path (files, none) = (files, none)
  renamed path (files, some e) = ((os.remove files (tmp_path path)).0, some rename_failed)

  abbrev written : Bytes → F × Option OsError → F × Option StateError
  written path (files, none) = renamed path (os.rename files (tmp_path path) path)
  written path (files, some e) = ((os.remove files (tmp_path path)).0, some write_failed)

  abbrev opened : Bytes → Bytes → F × Option OsError → F × Option StateError
  opened path content (files, none) = written path (os.write_synced files (tmp_path path) content)
  opened path content (files, some e) = (files, some open_failed)

  abbrev marshalled : F → Bytes → Option Bytes → F × Option StateError
  marshalled files path none = (files, some marshal_failed)
  marshalled files path (some content) = opened path content (os.open_file files (tmp_path path))

  -- `saveStateLocked`: the temporary file is renamed when it is complete.
  unfoldable pub save_state : F → Bytes → PersistedState T → F × Option StateError
  save_state files path state =
      marshalled files path (json.marshal (record state { updated_at = stamp }))

  abbrev state_or_fresh : Result OsError (PersistedState T) → Result StateError (PersistedState T)
  state_or_fresh (ok state) = ok state
  state_or_fresh (err not_exist) = ok fresh_state
  state_or_fresh (err other) = err load_failed

  -- Keeps a project as known unless saving failed.
  abbrev tracked :
      StateManager F → Bytes → F × Option StateError → StateManager F × Option StateError
  tracked m project (files, none) =
      (record m { files = files; known_projects = add_key project m.known_projects }, none)
  tracked m project (files, some e) = (record m { files = files }, some e)

  abbrev save_into :
      StateManager F
      → Task T
      → F
      → Result StateError (PersistedState T)
      → StateManager F × Option StateError
  save_into m task files (err e) = (record m { files = files }, some e)
  save_into m task files (ok state) = tracked m task.project_path (
      save_state files (get_state_path m task.project_path)
        (record state { tasks = put_task task state.tasks }))

  abbrev save_behind_mkdir :
      StateManager F → Task T → F × Option OsError → StateManager F × Option StateError
  save_behind_mkdir m task (files, some e) = (record m { files = files }, some mkdir_failed)
  save_behind_mkdir m task (files, none) =
      let r = load_state files (get_state_path m task.project_path) in
      save_into m task r.0 (state_or_fresh r.1)

  -- `SaveTask`.
  unfoldable pub save_task : StateManager F → Task T → StateManager F × Option StateError
  unfolding load_state save_state get_state_path put_task
  save_task m task =
      if is_empty task.project_path
      then (m, some no_project_path)
      else save_behind_mkdir m task
          (os.mkdir_all m.files (json.dir (get_state_path m task.project_path)))

  -- Forgets a project whose file is gone; `ClearProject` and `RemoveTask` share it.
  abbrev forgotten :
      StateManager F → Bytes → F × Option OsError → StateManager F × Option StateError
  forgotten m project (files, some other) = (record m { files = files }, some remove_failed)
  forgotten m project (files, _) =
      (record m { files = files; known_projects = delete_key project m.known_projects }, none)

  abbrev saved : StateManager F → F × Option StateError → StateManager F × Option StateError
  saved m (files, e) = (record m { files = files }, e)

  abbrev save_rest :
      StateManager F → Bytes → F → PersistedState T → Bool → StateManager F × Option StateError
  save_rest m project files state true =
      forgotten m project (os.remove files (get_state_path m project))
  save_rest m project files state false =
      saved m (save_state files (get_state_path m project) state)

  abbrev remove_from :
      StateManager F
      → Bytes
      → Bytes
      → F
      → Result OsError (PersistedState T)
      → StateManager F × Option StateError
  remove_from m i project files (err not_exist) = (record m { files = files }, none)
  remove_from m i project files (err other) = (record m { files = files }, some load_failed)
  remove_from m i project files (ok state) =
      let rest = drop_task i state.tasks in
      save_rest m project files (record state { tasks = rest }) (no_tasks rest)

  -- `RemoveTask`.
  unfoldable pub remove_task : StateManager F → Bytes → Bytes → StateManager F × Option StateError
  unfolding load_state save_state get_state_path drop_task delete_key
  remove_task m i project =
      if is_empty project
      then (m, some no_project_path)
      else let r = load_state m.files (get_state_path m project) in remove_from m i project r.0 r.1

  abbrev loaded_tasks :
      StateManager F
      → Bytes
      → F
      → Result OsError (PersistedState T)
      → StateManager F × Result OsError (List (Task T))
  loaded_tasks m project files (err not_exist) = (record m { files = files }, ok [])
  loaded_tasks m project files (err other) = (record m { files = files }, err other)
  loaded_tasks m project files (ok state) = (
    record m { files = files; known_projects = add_key project m.known_projects },
    ok state.tasks,
  )

  -- `LoadTasks`.
  unfoldable pub load_tasks :
      StateManager F → Bytes → StateManager F × Result OsError (List (Task T))
  unfolding load_state get_state_path
  load_tasks m project =
      let r = load_state m.files (get_state_path m project) in loaded_tasks m project r.0 r.1

  abbrev tasks_or_none : Result OsError (List (Task T)) → List (Task T)
  tasks_or_none (ok ts) = ts
  tasks_or_none (err e) = []

  -- The loop of `LoadAllTasks` over known projects.
  unfoldable pub load_projects : StateManager F → List Bytes → StateManager F × List (Task T)
  unfolding load_tasks
  load_projects m [] = (m, [])
  load_projects m (p ∷ ps) =
      let r = load_tasks m p in
      let rest = load_projects r.0 ps in (rest.0, tasks_or_none r.1 ++ rest.1)

  -- `LoadAllTasks`; the order of a Go map is not fixed.
  unfoldable pub load_all_tasks : StateManager F → StateManager F × List (Task T)
  unfolding load_projects
  load_all_tasks m = load_projects m m.known_projects

  abbrev found_project : StateManager F → Bytes → Option OsError → StateManager F
  found_project m p none = record m { known_projects = add_key p m.known_projects }
  found_project m p (some e) = m

  -- `ScanForProjects`.
  unfoldable pub scan_for_projects : StateManager F → List Bytes → StateManager F
  unfolding get_state_path
  scan_for_projects m [] = m
  scan_for_projects m (p ∷ ps) =
      scan_for_projects (found_project m p (os.stat m.files (get_state_path m p))) ps

  -- `RegisterProject`.
  unfoldable pub register_project : StateManager F → Bytes → StateManager F
  register_project m p = record m { known_projects = add_key p m.known_projects }

  -- `ClearProject`.
  unfoldable pub clear_project : StateManager F → Bytes → StateManager F × Option StateError
  unfolding get_state_path delete_key
  clear_project m project = forgotten m project (os.remove m.files (get_state_path m project))

  -- `ListProjectsWithTasks`; the order of a Go map is not fixed.
  unfoldable pub list_projects_with_tasks : StateManager F → List Bytes
  list_projects_with_tasks m = m.known_projects
