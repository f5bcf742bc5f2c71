-- ===== src/Script/Upsert.antt =====
-- What `Get`, `Register` and `Upsert` of script/registry.go find after a script was upserted.
use go_cli_server.Prelude.{
  Bool, true, false, ◌||◌, ◌≡◌, refl, ap, ◌∙◌, subst, inl, inr, arith, none, List, [], ◌∷◌, ◌++◌,
  Bool-cases,
}
use go_cli_server.Text.{Bytes, same, same_iff, is_empty}
use go_cli_server.Protocol.Registry.{member, add_key}
use go_cli_server.Hub.Keys.{member-append}
use go_cli_server.Script.Entry.{Entry, add_session, list_sessions, owner, set_owner, or_nil}
use go_cli_server.Script.ProcessId.{entry_key, normalize_project_path}
use go_cli_server.Script.Registry.{carry_over, add_sessions}

-- `Clean` is idempotent, and its result is not empty.
pub record IsClean (clean : Bytes → Bytes) : Type 0 where
  pub clean-clean : (p : Bytes) → clean (clean p) ≡ clean p
  pub clean-ne_nil : (p : Bytes) → is_empty (clean p) ≡ false

module _ (clean : Bytes → Bytes) (c : IsClean clean) where
  -- A cleaned path makes the same key.
  pub entry_key-normalize :
      (path name : Bytes)
      → entry_key clean (normalize_project_path clean path) name ≡ entry_key clean path name
  unfolding entry_key normalize_project_path
  entry_key-normalize path name = elim (Bool-cases (is_empty path)) [
    | inl e ↦ rw e refl
    | inr e ↦ rw e (rw (c.clean-ne_nil path) (ap (λ p. p ++ 0 ∷ name) (c.clean-clean path)))
  ]

member-add_key :
    (j k : Bytes) (ks : List Bytes) → member j (add_key k ks) ≡ (same k j || member j ks)
unfolding add_key member
member-add_key j k ks = elim (Bool-cases (member k ks)) [
  | inl e ↦ rw e (known (same k j) refl e)
  | inr e ↦ rw (e, member-append j ks (k ∷ [])) (swapped (member j ks))
]
  where
    known : (b : Bool) → same k j ≡ b → member k ks ≡ true → member j ks ≡ (b || member j ks)
    known true q e = subst (λ x. member x ks ≡ true) ((same_iff k j).0 q) e
    known false q e = refl

    swapped : (a : Bool) → (a || member j (k ∷ [])) ≡ (same k j || a)
    swapped a = ground arith

module _ {C T : Type 0} where
  -- The other fields of an entry stay.
  SameRest : Entry C T → Entry C T → Type 0
  SameRest a b =
      (a.config ≡ b.config)
      × (a.state ≡ b.state)
      × (a.output ≡ b.output)
      × (a.start_count ≡ b.start_count)
      × (a.owner_session ≡ b.owner_session)

  add_sessions-SameRest : (ss : List Bytes) (e : Entry C T) → SameRest (add_sessions ss e) e
  unfolding add_sessions add_session SameRest
  add_sessions-SameRest [] e = (refl, refl, refl, refl, refl)
  add_sessions-SameRest (s ∷ ss) e = add_sessions-SameRest ss (add_session s e)

  member-add_sessions :
      (j : Bytes) (ss : List Bytes) (e : Entry C T)
      → member j (add_sessions ss e).sessions ≡ (member j ss || member j e.sessions)
  unfolding add_sessions add_session member
  member-add_sessions j [] e = refl
  member-add_sessions j (s ∷ ss) e =
      member-add_sessions j ss (add_session s e)
      ∙ ap (λ b. member j ss || b) (member-add_key j s e.sessions)
      ∙ rotated (member j ss) (same s j) (member j e.sessions)
    where
      rotated : (a b c : Bool) → (a || (b || c)) ≡ ((b || a) || c)
      rotated a b c = ground arith

  -- Nothing but who watches and who owns the entry is carried over.
  pub record IsCarried (old fresh e : Entry C T) : Type 0 where
    pub same_config_as : e.config ≡ fresh.config
    pub same_state : e.state ≡ fresh.state
    pub same_output : e.output ≡ fresh.output
    pub same_starts : e.start_count ≡ fresh.start_count
    pub same_owner : owner e ≡ owner old
    pub same_sessions : (j : Bytes) → member j e.sessions ≡ member j old.sessions

  -- What `carry_over` makes of a fresh entry, which nobody watches or owns.
  pub carry_over-IsCarried :
      (old fresh : Entry C T)
      → fresh.sessions ≡ []
      → fresh.owner_session ≡ none
      → IsCarried old fresh (carry_over old fresh)
  unfolding carry_over SameRest
  carry_over-IsCarried old fresh unseen unowned = elim (Bool-cases (is_empty (owner old))) [
    | inl e ↦ rw e (record {
      same_config_as = rest.0;
      same_state = rest.1;
      same_output = rest.2;
      same_starts = rest.3;
      same_owner =
          unfold owner in
          ap or_nil rest.4
          ∙ ap or_nil unowned
          ∙ empty (or_nil old.owner_session) (unfold owner in e);
      same_sessions = watchers;
    })
    | inr e ↦ rw e (record {
      same_config_as = unfold set_owner in rest.0;
      same_state = unfold set_owner in rest.1;
      same_output = unfold set_owner in rest.2;
      same_starts = unfold set_owner in rest.3;
      same_owner = unfold owner set_owner in refl;
      same_sessions = unfold set_owner in watchers;
    })
  ]
    where
      rest : SameRest (add_sessions (list_sessions old) fresh) fresh
      rest = add_sessions-SameRest (list_sessions old) fresh

      empty : (s : Bytes) → is_empty s ≡ true → [] ≡ s
      empty [] q = refl
      empty (b ∷ s) q = ground arith

      or_false : (b : Bool) → (b || false) ≡ b
      or_false b = ground arith

      watchers :
          (j : Bytes)
          → member j (add_sessions (list_sessions old) fresh).sessions ≡ member j old.sessions
      watchers j =
          unfold list_sessions member in
          member-add_sessions j old.sessions fresh
          ∙ ap (λ ks. member j old.sessions || member j ks) unseen
          ∙ or_false (member j old.sessions)
