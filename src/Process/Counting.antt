-- ===== src/Process/Counting.antt =====
-- The registry of process/manager.go: the counter of active processes counts the map, no key stands
-- twice in it, and every process stands under its own key.
use go_cli_server.Prelude.{
  ℕ, zero, suc, Bool, true, false, ◌≡◌, refl, sym, ap, ◌∙◌, inl, inr, Bool-cases, Option, none,
  some, List, [], ◌∷◌, if◌then◌else◌, Result, ok, err, ℤ, pos, negsuc, length,
}
use go_cli_server.Text.{Bytes, same, is_some}
use go_cli_server.Protocol.Registry.{lookup, store}
use go_cli_server.Hub.Keys.{lookup-store_same}
use go_cli_server.Scheduler.Tasks.{delete}
use go_cli_server.Process.Maps.{
  Distinct, length-store_new, store_new-Distinct, delete-store_new, delete-Distinct, length-delete,
  lookup-tail, head_absent,
}
use go_cli_server.Process.Managed.{ProcessError, shutting_down, process_exists, process_not_found}
use go_cli_server.Process.Manager.{
  Heap, ProcessManager, key_of, process_key, register, register_at, remove_key, removed_at,
  remove_by_path, remove, with_id, only_one, remove_found, get_by_path, or_not_found, up, down,
}

-- Every process stands under its own key.
unfoldable pub Keyed : Heap → List (Bytes × ℕ) → Type 0
Keyed heap [] = Unit
Keyed heap ((k, i) ∷ ps) = (k ≡ key_of (heap i)) × Keyed heap ps

pub record IsConsistent (heap : Heap) (m : ProcessManager) : Type 0 where
  pub counted : m.active_count ≡ pos (length m.processes)
  pub distinct : Distinct m.processes
  pub keyed : Keyed heap m.processes

-- The calls that change the registry.
pub data Call : Type 0 where
  register_call : ℕ → Call
  remove_call : Bytes → Call
  remove_by_path_call : Bytes → Bytes → Call

unfoldable pub run_call : Heap → Call → ProcessManager → ProcessManager
unfolding register remove remove_by_path
run_call heap (register_call i) m = (register heap m i).0
run_call heap (remove_call id) m = (remove heap m id).0
run_call heap (remove_by_path_call id path) m = (remove_by_path m id path).0

unfoldable pub run_calls : Heap → List Call → ProcessManager → ProcessManager
unfolding run_call
run_calls heap [] m = m
run_calls heap (c ∷ cs) m = run_calls heap cs (run_call heap c m)

down-up : (c : ℤ) → down (up c) ≡ c
down-up (pos n) = refl
down-up (negsuc zero) = refl
down-up (negsuc (suc n)) = refl

module _ (heap : Heap) where
  store-Keyed :
      (k : Bytes) (i : ℕ) (ps : List (Bytes × ℕ))
      → lookup k ps ≡ none
      → k ≡ key_of (heap i)
      → Keyed heap ps
      → Keyed heap (store k i ps)
  unfolding store Keyed
  store-Keyed k i [] h e ks = (e, tt)
  store-Keyed k i ((j, w) ∷ ps) h e ks = elim (Bool-cases (same j k)) [
    | inl q ↦ head_absent j k w ps q h
    | inr q ↦ rw q (ks.0, store-Keyed k i ps (sym (lookup-tail j k w ps q) ∙ h) e ks.1)
  ]

  delete-Keyed : (k : Bytes) (ps : List (Bytes × ℕ)) → Keyed heap ps → Keyed heap (delete k ps)
  unfolding delete Keyed
  delete-Keyed k [] ks = tt
  delete-Keyed k ((j, w) ∷ ps) ks = elim (Bool-cases (same j k)) [
    | inl q ↦ rw q (delete-Keyed k ps ks.1)
    | inr q ↦ rw q (ks.0, delete-Keyed k ps ks.1)
  ]

  pub register-IsConsistent :
      (m : ProcessManager) (i : ℕ) → IsConsistent heap m → IsConsistent heap (register heap m i).0
  unfolding register
  register-IsConsistent m i v = guarded m.is_shutting_down
    where
      found :
          (o : Option ℕ)
          → lookup (key_of (heap i)) m.processes ≡ o
          → IsConsistent heap (register_at m (key_of (heap i)) i o).0
      found (some j) h = v
      found none h = record {
        counted =
            ap up v.counted ∙ ap pos (sym (length-store_new (key_of (heap i)) i m.processes h));
        distinct = store_new-Distinct (key_of (heap i)) i m.processes h v.distinct;
        keyed = store-Keyed (key_of (heap i)) i m.processes h refl v.keyed;
      }

      guarded :
          (b : Bool)
          → IsConsistent heap
              (if b
                then (m, err shutting_down)
                else register_at m (key_of (heap i)) i (lookup (key_of (heap i)) m.processes)).0
      guarded true = v
      guarded false = found (lookup (key_of (heap i)) m.processes) refl

  remove_key-IsConsistent :
      (m : ProcessManager) (k : Bytes) → IsConsistent heap m → IsConsistent heap (remove_key m k).0
  unfolding remove_key
  remove_key-IsConsistent m k v = found (is_some (lookup k m.processes)) refl
    where
      found :
          (b : Bool) → is_some (lookup k m.processes) ≡ b → IsConsistent heap (removed_at m k b).0
      found false h = v
      found true h = record {
        counted = ap down (v.counted ∙ ap pos (sym (length-delete k m.processes v.distinct h)));
        distinct = delete-Distinct k m.processes v.distinct;
        keyed = delete-Keyed k m.processes v.keyed;
      }

  remove-IsConsistent :
      (m : ProcessManager) (id : Bytes)
      → IsConsistent heap m
      → IsConsistent heap (remove heap m id).0
  unfolding remove remove_found
  remove-IsConsistent m id v = found (only_one (with_id heap id m.processes))
    where
      found : (r : Result ProcessError (Bytes × ℕ)) → IsConsistent heap (remove_found m r).0
      found (err e) = v
      found (ok (k, i)) = remove_key-IsConsistent m k v

  -- If the count of active processes is the size of the map, no key stands twice in it and every
  -- process stands under its own key, then this holds after any calls of `Register`, `Remove` and
  -- `RemoveByPath`.
  pub run_calls-IsConsistent :
      (cs : List Call) (m : ProcessManager)
      → IsConsistent heap m
      → IsConsistent heap (run_calls heap cs m)
  unfolding run_calls run_call remove_by_path
  run_calls-IsConsistent [] m v = v
  run_calls-IsConsistent (register_call i ∷ cs) m v =
      run_calls-IsConsistent cs _ (register-IsConsistent m i v)
  run_calls-IsConsistent (remove_call id ∷ cs) m v =
      run_calls-IsConsistent cs _ (remove-IsConsistent m id v)
  run_calls-IsConsistent (remove_by_path_call id path ∷ cs) m v =
      run_calls-IsConsistent cs _ (remove_key-IsConsistent m (process_key id path) v)

  register-found_lem :
      (m : ProcessManager) (i : ℕ) (o : Option ℕ)
      → m.is_shutting_down ≡ false
      → lookup (key_of (heap i)) m.processes ≡ o
      → register heap m i ≡ register_at m (key_of (heap i)) i o
  unfolding register
  register-found_lem m i o h e =
      guarded _ _ m.is_shutting_down h ∙ ap (register_at m (key_of (heap i)) i) e
    where
      guarded : {A : Type 0} (x y : A) (b : Bool) → b ≡ false → (if b then x else y) ≡ y
      guarded x y b q = rw q refl

  remove_key-found_lem :
      (m : ProcessManager) (k : Bytes) (i : ℕ)
      → lookup k m.processes ≡ some i
      → remove_key m k ≡ removed_at m k true
  unfolding remove_key
  remove_key-found_lem m k i e = ap (λ o. removed_at m k (is_some o)) e

  -- While the manager is not shutting down, `Register` of a process whose ID and path are free
  -- succeeds; `GetByPath` then finds it, a second `Register` is refused and changes nothing, and
  -- `RemoveByPath` gives the map and the count of before.
  pub register-new :
      (m : ProcessManager) (i : ℕ)
      → m.is_shutting_down ≡ false
      → get_by_path m (heap i).id (heap i).project_path ≡ err process_not_found
      → let m2 = (register heap m i).0 in
        let removed = remove_by_path m2 (heap i).id (heap i).project_path in
        ((register heap m i).1 ≡ ok true)
        × (get_by_path m2 (heap i).id (heap i).project_path ≡ ok i)
        × (register heap m2 i ≡ (m2, err process_exists))
        × (removed.1 ≡ true)
        × (removed.0.processes ≡ m.processes)
        × (removed.0.active_count ≡ m.active_count)
  unfolding get_by_path remove_by_path
  register-new m i serving absent =
      let k = key_of (heap i) in
      let free = none_of (lookup k m.processes) absent in
      let m2 = (register_at m k i none).0 in
      let here = lookup-store_same k i m.processes in
      rw (register-found_lem m i none serving free) (
        refl,
        ap or_not_found here,
        register-found_lem m2 i (some i) serving here,
        ap (λ r. r.1) (remove_key-found_lem m2 k i here),
        ap (λ r. r.0.processes) (remove_key-found_lem m2 k i here)
            ∙ delete-store_new k i m.processes free,
        ap (λ r. r.0.active_count) (remove_key-found_lem m2 k i here) ∙ down-up m.active_count,
      )
    where
      none_of : (o : Option ℕ) → or_not_found o ≡ err process_not_found → o ≡ none
      none_of none e = refl
      none_of (some i) e = cc
