-- ===== src/Runtime/Krunkit/Nodes/Reads.antt =====
-- What is read of the inventory.
use kiac.Base.{
  if◌then◌else◌, ◌===◌, Text, ok, err, ◌≡◌, refl, sym, ap, ◌∙◌, ◌⊎◌, inl, inr, Bool, true, false,
  ◌&&◌, Option, none, some, text_beq, text_beq_iff, nat_eq, bool_eq, text_eq, pair_eq, int_eq,
}
use kiac.Runtime.Krunkit.Nodes.{
  checked_state, read_file, NodeDir, NodeState, Nodes, invalid_name, other_state, read_state,
  valid_vm_name,
}
use kiac.Base.Dict.{get, get-put, put}
use kiac.Runtime.Krunkit.Network.{malformed, saved, state_schema, unreadable}

-- What `read_state` returns is in the file of that name, and of that name.
pub read_state-ok :
    (nodes : Nodes) (name : Text) (s : NodeState)
    → read_state nodes name ≡ ok s
    → (get name nodes ≡ some (some (saved s))) × (s.name ≡ name) × (valid_vm_name name ≡ true)
unfolding read_state read_file checked_state
read_state-ok nodes name s h = outer (valid_vm_name name) refl h
  where
    checked :
        (t : NodeState)
        → (b : Bool) → (t.name === name) ≡ b
        → (c : Bool) → (if c && b then ok t else err other_state) ≡ ok s
        → (◌≡◌ {A = Option NodeDir} (some (some (saved t))) (some (some (saved s))))
          × (s.name ≡ name)
    checked t true e true h =
        let same : t ≡ s = cc in (cc, ap NodeState.name (sym same) ∙ (text_beq_iff t.name name).0 e)
    checked t true e false h = absurd (cc)
    checked t false e true h = absurd (cc)
    checked t false e false h = absurd (cc)

    inner :
        (o : Option NodeDir)
        → read_file name o ≡ ok s
        → (o ≡ some (some (saved s))) × (s.name ≡ name)
    inner none h = absurd (cc)
    inner (some none) h = absurd (cc)
    inner (some (some unreadable)) h = absurd (cc)
    inner (some (some malformed)) h = absurd (cc)
    inner (some (some (saved t))) h = checked t _ refl (t.schema === state_schema) h

    outer :
        (b : Bool)
        → valid_vm_name name ≡ b
        → (if b then read_file name (get name nodes) else err (invalid_name name)) ≡ ok s
        → (get name nodes ≡ some (some (saved s))) × (s.name ≡ name) × (valid_vm_name name ≡ true)
    outer true e h = let (a, b) = inner (get name nodes) h in (a, b, e)
    outer false e h = absurd (cc)

pub read_state-get :
    (a b : Nodes) (name : Text) → get name a ≡ get name b → read_state a name ≡ read_state b name
unfolding read_state
read_state-get a b name e =
    ap
      (λ (o : Option NodeDir).
        if valid_vm_name name then read_file name o else err (invalid_name name))
      e

-- A machine that is read once a state is saved is that one, or was read before.
pub read_state-put :
    (nodes : Nodes) (t s : NodeState) (name : Text)
    → read_state (put t.name (some (saved t)) nodes) name ≡ ok s
    → (s ≡ t) ⊎ (read_state nodes name ≡ ok s)
read_state-put nodes t s name h = go (text_beq t.name name) refl
  where
    go : (b : Bool) → text_beq t.name name ≡ b → (s ≡ t) ⊎ (read_state nodes name ≡ ok s)
    go true e =
        let (found, _, _) = read_state-ok _ name s h in
        let entry = get-put t.name name (some (saved t)) nodes in
        let same : ◌≡◌ {A = Option NodeDir} (some (some (saved t))) (some (some (saved s))) =
          sym (entry ∙ rw e refl) ∙ found in
        inl (cc)
    go false e =
        let entry = get-put t.name name (some (saved t)) nodes in
        inr (sym (read_state-get _ nodes name (entry ∙ rw e refl)) ∙ h)
