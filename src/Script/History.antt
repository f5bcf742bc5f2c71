-- ===== src/Script/History.antt =====
-- The state and the state history of `Entry` in script/registry.go.
use go_cli_server.Prelude.{
  ℕ, ◌-◌, ◌≤◌, ◌≡◌, refl, sym, ap, ◌∙◌, inl, inr, arith, List, [], ◌∷◌, ◌++◌, ltb, ltb→lt, ◌==◌,
  if◌then◌else◌, length, length-drop, take, drop, last_n, last_n-append, append-nil, append_assoc,
  Bool-cases, Bool, true, false,
}
use go_cli_server.Script.Entry.{
  State, StateTransition, Entry, copy_front, trim_history, set_state, compare_and_swap_state,
  state_number, max_state_transitions,
}

take-copy_front {ℓ} :
    {A : Type ℓ} (s d : List A) → length s ≤ length d → take (length s) (copy_front s d) ≡ s
unfolding copy_front
take-copy_front [] d h = refl
take-copy_front (x ∷ s) [] h = absurd (omega arith)
take-copy_front (x ∷ s) (y ∷ d) h = ap (λ l. x ∷ l) (take-copy_front s d (omega arith))

pub trim_history_lem {ℓ} : {A : Type ℓ} (n : ℕ) (h : List A) → trim_history n h ≡ last_n n h
unfolding trim_history
trim_history_lem n h = elim (Bool-cases (ltb n (length h))) [
  | inl e ↦
      let k = length h - n in
      let size : n ≡ length (drop k h) = omega (arith, length-drop k h, ltb→lt n (length h) e) in
      rw e (
        ap (λ i. take i (copy_front (drop k h) h)) size
        ∙ take-copy_front (drop k h) h (omega (arith, length-drop k h)))
  | inr e ↦ rw e (ap (λ k. drop k h) (let z : 0 ≡ length h - n = ground arith in z))
]

-- A change of state by `SetState` or by `CompareAndSwapState`, at a time.
pub data Change (T : Type 0) : Type 0 where
  set : T → State → Change T
  swap : T → State → State → Change T

module _ {C T : Type 0} where
  unfoldable pub change : Change T → Entry C T → Entry C T
  unfolding set_state compare_and_swap_state
  change (set now s) e = set_state now s e
  change (swap now old new) e = (compare_and_swap_state now old new e).0

  unfoldable pub change_all : List (Change T) → Entry C T → Entry C T
  unfolding change
  change_all [] e = e
  change_all (c ∷ cs) e = change_all cs (change c e)

-- The transitions that changes make from a state: a swap from another state makes none.
unfoldable pub transitions : {T : Type 0} → State → List (Change T) → List (StateTransition T)
transitions s [] = []
transitions s (set now new ∷ cs) = record { state = new; timestamp = now } ∷ transitions new cs
transitions s (swap now old new ∷ cs) =
    let made = record { state = new; timestamp = now } ∷ transitions new cs in
    let none_made = transitions s cs in
    if state_number s == state_number old then made else none_made

-- The state in which they end.
unfoldable pub state_after : {T : Type 0} → State → List (Change T) → State
state_after s [] = s
state_after s (set now new ∷ cs) = state_after new cs
state_after s (swap now old new ∷ cs) =
    let made = state_after new cs in
    let none_made = state_after s cs in
    if state_number s == state_number old then made else none_made

module _ {C T : Type 0} where
  history-set_state :
      (now : T) (s : State) (e : Entry C T)
      → (set_state now s e).state_history
        ≡ last_n max_state_transitions
            (e.state_history ++ record { state = s; timestamp = now } ∷ [])
  unfolding set_state
  history-set_state now s e =
      trim_history_lem max_state_transitions
        (e.state_history ++ record { state = s; timestamp = now } ∷ [])

  -- A history that ends with one transition and goes on.
  history_step :
      (now : T) (s : State) (e : Entry C T) (h : List (StateTransition T))
      → e.state_history ≡ last_n max_state_transitions h
      → (set_state now s e).state_history
        ≡ last_n max_state_transitions (h ++ record { state = s; timestamp = now } ∷ [])
  history_step now s e h eq =
      history-set_state now s e
      ∙ ap (λ l. last_n max_state_transitions (l ++ record { state = s; timestamp = now } ∷ [])) eq
      ∙ last_n-append max_state_transitions h (record { state = s; timestamp = now } ∷ [])

  -- Both outcomes of a swap, made or not.
  swap_cases :
      (b : Bool) (cs : List (Change T)) (e1 e : Entry C T) (h : List (StateTransition T))
      (x : StateTransition T) (new : State)
      → ((change_all cs e1).state ≡ state_after new cs)
        × ((change_all cs e1).state_history
            ≡ last_n max_state_transitions (h ++ x ∷ transitions new cs))
      → ((change_all cs e).state ≡ state_after e.state cs)
        × ((change_all cs e).state_history
            ≡ last_n max_state_transitions (h ++ transitions e.state cs))
      → let after : Entry C T × Bool = (if b then (e1, true) else (e, false)) in
        ((change_all cs after.0).state ≡ (if b then state_after new cs else state_after e.state cs))
        × ((change_all cs after.0).state_history
            ≡ last_n max_state_transitions
                (h ++ (if b then x ∷ transitions new cs else transitions e.state cs)))
  swap_cases true cs e1 e h x new made kept = made
  swap_cases false cs e1 e h x new made kept = kept

  -- If the state history of a script is the last 100 transitions of some sequence, then after any
  -- calls of `SetState` and `CompareAndSwapState` the state is the one that the calls lead to, and
  -- the history is the last 100 transitions of that sequence and those that the calls made.
  pub history-change_all :
      (cs : List (Change T)) (e : Entry C T) (h : List (StateTransition T))
      → e.state_history ≡ last_n max_state_transitions h
      → ((change_all cs e).state ≡ state_after e.state cs)
        × ((change_all cs e).state_history
            ≡ last_n max_state_transitions (h ++ transitions e.state cs))
  unfolding change_all transitions state_after change set_state compare_and_swap_state
  history-change_all [] e h eq =
      (refl, eq ∙ ap (λ l. last_n max_state_transitions l) (sym (append-nil h)))
  history-change_all (set now s ∷ cs) e h eq =
      let x : StateTransition T = record { state = s; timestamp = now } in
      let rest =
        history-change_all cs (set_state now s e) (h ++ x ∷ []) (history_step now s e h eq) in
      (
        rest.0,
        rest.1
            ∙ ap (λ l. last_n max_state_transitions l) (append_assoc h (x ∷ []) (transitions s cs)),
      )
  history-change_all (swap now old new ∷ cs) e h eq =
      let x : StateTransition T = record { state = new; timestamp = now } in
      let made =
        history-change_all cs (set_state now new e) (h ++ x ∷ []) (history_step now new e h eq) in
      let kept = history-change_all cs e h eq in
      swap_cases (state_number e.state == state_number old) cs (set_state now new e) e h x new
        (
          made.0,
          made.1
              ∙ ap (λ l. last_n max_state_transitions l)
                  (append_assoc h (x ∷ []) (transitions new cs)),
        )
        kept
