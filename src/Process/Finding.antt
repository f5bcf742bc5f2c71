-- ===== src/Process/Finding.antt =====
-- `Get` and `Remove` of process/manager.go against the number of processes that have the ID.
use go_cli_server.Prelude.{
  ℕ, suc, ◌≤◌, Bool, true, false, ◌≡◌, ◌≢◌, refl, sym, ap, ◌∙◌, subst, arith, ◌⊎◌, inl, inr,
  Bool-cases, none, some, List, [], ◌∷◌, if◌then◌else◌, ok, err,
}
use go_cli_server.Text.{Bytes, same, same_iff, same_refl}
use go_cli_server.Protocol.Registry.{lookup}
use go_cli_server.Process.Maps.{Distinct, lookup-head, lookup-tail}
use go_cli_server.Process.Managed.{process_not_found, process_ambiguous}
use go_cli_server.Process.Manager.{
  Heap, ProcessManager, key_of, process_key, remove_by_path, remove_key, remove, with_id, only_one,
  pointer_of, remove_found, get, get_by_path, or_not_found,
}
use go_cli_server.Process.Counting.{IsConsistent, Keyed}

-- How many processes have the ID, whatever their paths.
unfoldable pub count_id : Heap → Bytes → List (Bytes × ℕ) → ℕ
count_id heap id [] = 0
count_id heap id ((k, i) ∷ ps) =
    let rest = count_id heap id ps in if same (heap i).id id then suc rest else rest

module _ (heap : Heap) (id : Bytes) where
  -- What a list of the processes with the ID says about the map, where `n` of them have it.
  Found : List (Bytes × ℕ) → ℕ → List (Bytes × ℕ) → Type 0
  Found ps n [] = n ≡ 0
  Found ps n ((k, i) ∷ []) =
      (n ≡ 1) × (k ≡ key_of (heap i)) × ((heap i).id ≡ id) × (lookup k ps ≡ some i)
  Found ps n (x ∷ y ∷ zs) = 2 ≤ n

  one_more :
      (k : Bytes) (i : ℕ) (ps : List (Bytes × ℕ)) (n : ℕ) (l : List (Bytes × ℕ)) (b : Bool)
      → k ≡ key_of (heap i)
      → lookup k ps ≡ none
      → same (heap i).id id ≡ b
      → Found ps n l
      → Found ((k, i) ∷ ps) (if b then suc n else n) (if b then (k, i) ∷ l else l)
  unfolding Found
  one_more k i ps n [] true own new e f =
      (ap suc f, own, (same_iff (heap i).id id).0 e, lookup-head k k i ps (same_refl k))
  one_more k i ps n ((j, a) ∷ []) true own new e f = omega (arith, f.0)
  one_more k i ps n (x ∷ y ∷ zs) true own new e f = omega arith
  one_more k i ps n [] false own new e f = f
  one_more k i ps n ((j, a) ∷ []) false own new e f = elim (Bool-cases (same k j)) [
    | inl q ↦ absurd (apart (sym (subst (λ x. lookup x ps ≡ none) ((same_iff k j).0 q) new) ∙ f.3))
    | inr q ↦ (f.0, f.1, f.2, lookup-tail k j i ps q ∙ f.3)
  ]
    where
      apart : none ≢ some a
      apart e = cc
  one_more k i ps n (x ∷ y ∷ zs) false own new e f = f

  with_id-Found :
      (ps : List (Bytes × ℕ))
      → Distinct ps
      → Keyed heap ps
      → Found ps (count_id heap id ps) (with_id heap id ps)
  unfolding with_id count_id Distinct Keyed Found
  with_id-Found [] d k = refl
  with_id-Found ((k, i) ∷ ps) d keyed =
      one_more k i ps (count_id heap id ps) (with_id heap id ps) (same (heap i).id id) keyed.0 d.0
        refl (with_id-Found ps d.1 keyed.1)

  -- The answers of `Get` and of `Remove`, by the number of processes with the ID.
  abbrev pub Answers : ProcessManager → Type 0
  Answers m =
      ((count_id heap id m.processes ≡ 0)
        × (get heap m id ≡ err process_not_found)
        × (remove heap m id ≡ (m, false)))
      ⊎ ((2 ≤ count_id heap id m.processes)
          × (get heap m id ≡ err process_ambiguous)
          × (remove heap m id ≡ (m, false)))
      ⊎ ((i : ℕ) × (count_id heap id m.processes ≡ 1)
          × (get heap m id ≡ ok i)
          × ((heap i).id ≡ id)
          × (get_by_path m id (heap i).project_path ≡ ok i)
          × (remove heap m id ≡ remove_by_path m id (heap i).project_path))

  -- In a consistent registry: if no process has the ID, `Get` does not find it and `Remove` does
  -- nothing; if more than one has it, `Get` says that it is ambiguous and `Remove` does nothing; if
  -- exactly one has it, `Get` answers with that process, `GetByPath` finds it under its path, and
  -- `Remove` does what `RemoveByPath` does.
  pub get-Answers : (m : ProcessManager) → IsConsistent heap m → Answers m
  unfolding get remove remove_found get_by_path remove_by_path process_key Found
  get-Answers m v =
      by_list (with_id heap id m.processes) refl (with_id-Found m.processes v.distinct v.keyed)
    where
      by_list :
          (l : List (Bytes × ℕ))
          → with_id heap id m.processes ≡ l
          → Found m.processes (count_id heap id m.processes) l
          → Answers m
      by_list [] e f =
          inl (f, ap (λ l. pointer_of (only_one l)) e, ap (λ l. remove_found m (only_one l)) e)
      by_list ((k, i) ∷ []) e f =
          let own : k ≡ process_key id (heap i).project_path =
            f.1 ∙ ap (λ x. process_key x (heap i).project_path) f.2 in
          inr (
            inr (
              i,
              f.0,
              ap (λ l. pointer_of (only_one l)) e,
              f.2,
              ap or_not_found (subst (λ x. lookup x m.processes ≡ some i) own f.3),
              ap (λ l. remove_found m (only_one l)) e ∙ ap (λ x. remove_key m x) own,
            ))
      by_list (x ∷ y ∷ zs) e f =
          inr
            (inl (f, ap (λ l. pointer_of (only_one l)) e, ap (λ l. remove_found m (only_one l)) e))
