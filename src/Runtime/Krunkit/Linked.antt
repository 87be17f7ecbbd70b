-- ===== src/Runtime/Krunkit/Linked.antt =====
-- Machines and the networks they name.
use kiac.Base.{
  if◌then◌else◌, Text, ok, err, ◌≡◌, refl, sym, ap, ◌∙◌, ◌⊎◌, inl, inr, Bool, true, false, not,
  some, subst, nat_eq, bool_eq, text_eq, pair_eq, int_eq,
}
use kiac.Runtime.Krunkit.Network.{Network, Networks, load_network, saved}
use kiac.Runtime.Krunkit.Nodes.{
  NodeState, invalid_name, read_state, state_not_written, valid_vm_name, write_state,
}
use kiac.Runtime.Krunkit.World.{World, on_nodes, save_state}
use kiac.Base.Dict.{put}
use kiac.Runtime.Krunkit.Nodes.Reads.{read_state-put}

-- The network that a machine names is there and valid, with the subnet that the machine recorded.
abbrev pub LinkedTo : Networks → NodeState → Type 0
LinkedTo networks s =
    (n : Network) × (load_network true networks s.network_id ≡ ok n) × (s.network_cidr ≡ n.cidr)

-- So it is for each machine whose state can be read.
unfoldable pub Linked : World → Type 0
Linked w = (name : Text) (s : NodeState) → read_state w.nodes name ≡ ok s → LinkedTo w.networks s

-- Two states of machines in the same network.
abbrev pub SameNetwork : NodeState → NodeState → Type 0
SameNetwork s t = (t.network_id ≡ s.network_id) × (t.network_cidr ≡ s.network_cidr)

pub SameNetwork-LinkedTo :
    (networks : Networks) (s t : NodeState)
    → SameNetwork s t
    → LinkedTo networks s
    → LinkedTo networks t
SameNetwork-LinkedTo networks s t (a, b) (n, l, c) =
    (n, ap (load_network true networks) a ∙ l, b ∙ c)

pub Linked-put :
    (w : World) (t : NodeState)
    → Linked w
    → LinkedTo w.networks t
    → Linked (record w { nodes = put t.name (some (saved t)) w.nodes })
unfolding Linked
Linked-put w t linked here name s h = go (read_state-put w.nodes t s name h)
  where
    go : (s ≡ t) ⊎ (read_state w.nodes name ≡ ok s) → LinkedTo w.networks s
    go (inl same) = subst (LinkedTo w.networks) (sym same) here
    go (inr old) = linked name s old

-- A world that changes no network and no machine but those in the network of one.
abbrev pub KeepsLinked : NodeState → World → World → Type 0
KeepsLinked s w after =
    (after.networks ≡ w.networks) × (Linked w → LinkedTo w.networks s → Linked after)

pub KeepsLinked-refl : (s : NodeState) (w : World) → KeepsLinked s w w
KeepsLinked-refl s w = (refl, λ l h. l)

pub KeepsLinked-trans :
    (s : NodeState) (u v w : World) → KeepsLinked s u v → KeepsLinked s v w → KeepsLinked s u w
KeepsLinked-trans s u v w (e, f) (e', f') =
    (e' ∙ e, λ l h. f' (f l h) (subst (λ (n : Networks). LinkedTo n s) (sym e) h))

-- Saving a state in the same network.
pub save_state-KeepsLinked :
    (s t : NodeState) (written : Bool) (w : World)
    → SameNetwork s t
    → KeepsLinked s w (save_state written t w).1
unfolding save_state on_nodes write_state
save_state-KeepsLinked s t written w same = go (valid_vm_name t.name) written
  where
    go :
        (b c : Bool)
        → KeepsLinked s w
            (on_nodes
              (if not b
                then (err (invalid_name t.name), w.nodes)
                else if c
                then (ok tt, put t.name (some (saved t)) w.nodes)
                else (err state_not_written, w.nodes))
              w).1
    go false c = KeepsLinked-refl s w
    go true true = (refl, λ l h. Linked-put w t l (SameNetwork-LinkedTo w.networks s t same h))
    go true false = KeepsLinked-refl s w
