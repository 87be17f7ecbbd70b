-- ===== src/Runtime/Krunkit/Remove/Unused.antt =====
-- Machines and their networks in `removeUnusedNetwork` (pkg/runtime/krunkit.go).
use kiac.Base.{
  if◌then◌else◌, Text, In, Result, ok, err, ◌≡◌, refl, sym, ◌∙◌, ◌≢◌, inl, inr, Bool, true, false,
  not, ◌||◌, Option, none, some, List, [], ◌∷◌, arith, subst, text_beq, text_beq_iff, nat_eq,
  bool_eq, text_eq, pair_eq, int_eq,
}
use kiac.Base.Dict.{remove, get, get-put, get-remove, put}
use kiac.Runtime.Krunkit.Remove.{
  any_user, Tidying, Removal, all_removed, entry_names, remove_all, remove_unused_network,
  state_kept, state_removed, is_user,
}
use kiac.Runtime.Krunkit.Linked.{Linked}
use kiac.Runtime.Krunkit.Nodes.{NodeDir, NodeError, NodeState, Nodes, read_state}
use kiac.Runtime.Krunkit.World.{World}
use kiac.Runtime.Krunkit.Network.Others.{load_network-remove_other}
use kiac.Runtime.Krunkit.Network.{IsComplete, network_file, saved, valid_network_id}
use kiac.Runtime.Krunkit.Nodes.Reads.{read_state-get, read_state-ok}

get-entry_names :
    (nodes : Nodes) (name : Text) (dir : NodeDir)
    → get name nodes ≡ some dir
    → In name (entry_names nodes)
unfolding get
get-entry_names [] name dir h = absurd (cc)
get-entry_names ((j, d) ∷ nodes) name dir h =
    ground (arith, get-entry_names nodes name dir, text_beq_iff j name)

any_user-false :
    (listed : Text → Bool) (id : Text) (nodes : Nodes) (entries : List Text) (name : Text)
    (s : NodeState)
    → IsComplete listed
    → any_user listed id nodes entries ≡ false
    → In name entries
    → read_state nodes name ≡ ok s
    → text_beq s.network_id id ≡ false
unfolding any_user
any_user-false listed id nodes [] name s complete h i r = absurd i
any_user-false listed id nodes (e ∷ es) name s complete h (inl here) r =
    let read : read_state nodes e ≡ ok s = subst (λ (k : Text). read_state nodes k ≡ ok s) here r in
    let seen = complete e in go (read_state nodes e) read (ground arith)
  where
    go :
        (o : Result NodeError NodeState)
        → o ≡ ok s
        → is_user id o ≡ false
        → text_beq s.network_id id ≡ false
    go (ok t) e u =
        let same : t ≡ s = cc in subst (λ (v : NodeState). text_beq v.network_id id ≡ false) same u
    go (err x) e u = absurd (cc)
any_user-false listed id nodes (e ∷ es) name s complete h (inr later) r =
    any_user-false listed id nodes es name s complete (ground arith) later r

-- Machines stay linked where a network that none uses is removed.
pub remove_unused_network-Linked :
    (t : Tidying) (id : Text) (w : World)
    → IsComplete t.listed
    → Linked w
    → Linked (remove_unused_network t id w)
unfolding remove_unused_network Linked
remove_unused_network-Linked t id w complete l =
    go (not (valid_network_id id) || not t.root_known)
      (any_user t.listed id w.nodes (entry_names w.nodes)) refl t.file_removed
  where
    go :
        (b c : Bool)
        → any_user t.listed id w.nodes (entry_names w.nodes) ≡ c
        → (d : Bool)
        → Linked (
            if b || c
            then w
            else if d
            then record w { networks = remove (network_file id) w.networks }
            else w)
    go true c e d = l
    go false true e d = l
    go false false e false = l
    go false false e true = λ name s r.
        let (found, _, _) = read_state-ok w.nodes name s r in
        let apart =
          any_user-false t.listed id w.nodes (entry_names w.nodes) name s complete e
            (get-entry_names w.nodes name _ found) r in
        let (n, loads, c) = l name s r in
        let other : s.network_id ≢ id =
          λ same. absurd (let t = (text_beq_iff s.network_id id).1 same in cc) in
        (n, load_network-remove_other id s.network_id w.networks other ∙ loads, c)

-- What can be read once a directory is removed, or in part, could be read before.
pub remove_all-reads :
    (removal : Removal) (name j : Text) (nodes : Nodes) (s : NodeState)
    → read_state (remove_all removal name nodes) j ≡ ok s
    → read_state nodes j ≡ ok s
unfolding remove_all
remove_all-reads state_kept name j nodes s h = h
remove_all-reads all_removed name j nodes s h =
    let (found, _, _) = read_state-ok _ j s h in go (text_beq name j) refl found
  where
    go :
        (b : Bool)
        → text_beq name j ≡ b
        → get j (remove name nodes) ≡ some (some (saved s))
        → read_state nodes j ≡ ok s
    go true e f =
        absurd
          (let g : get j (remove name nodes) ≡ none = get-remove name j nodes ∙ rw e refl in cc)
    go false e f = sym (read_state-get _ nodes j (get-remove name j nodes ∙ rw e refl)) ∙ h
remove_all-reads state_removed name j nodes s h =
    let (found, _, _) = read_state-ok _ j s h in go (text_beq name j) refl found
  where
    go :
        (b : Bool)
        → text_beq name j ≡ b
        → get j (put name none nodes) ≡ some (some (saved s))
        → read_state nodes j ≡ ok s
    go true e f =
        let g : get j (put name none nodes) ≡ some none = get-put name j none nodes ∙ rw e refl in
        let both : ◌≡◌ {A = Option NodeDir} (some none) (some (some (saved s))) = sym g ∙ f in
        absurd (cc)
    go false e f = sym (read_state-get _ nodes j (get-put name j none nodes ∙ rw e refl)) ∙ h

pub remove_all-Linked :
    (removal : Removal) (name : Text) (w : World)
    → Linked w
    → Linked (record w { nodes = remove_all removal name w.nodes })
unfolding Linked
remove_all-Linked removal name w l j s r = l j s (remove_all-reads removal name j w.nodes s r)
