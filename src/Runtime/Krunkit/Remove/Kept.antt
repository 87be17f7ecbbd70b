-- ===== src/Runtime/Krunkit/Remove/Kept.antt =====
-- What a removal keeps.
use kiac.Base.{
  All, if◌then◌else◌, Text, Result, ok, err, ◌≡◌, sym, ap, ◌⊎◌, inl, inr, Bool, true, false, Option,
  List, [], ◌∷◌, subst,
}
use kiac.Runtime.Krunkit.Remove.{
  remove_read, remove_one, removed, RemoveRun, remove_machines, remove_all, remove_unused_network,
}
use kiac.Runtime.Krunkit.Linked.{Linked, LinkedTo, SameNetwork-LinkedTo}
use kiac.Runtime.Krunkit.World.{MachineError, World, node_error}
use kiac.Runtime.Krunkit.Network.{IsComplete, Networks}
use kiac.Runtime.Krunkit.Nodes.{NodeError, NodeState, Nodes, Places, owns, read_state}
use kiac.Runtime.Krunkit.Stop.Done.{Saves, Stopped, stop_locked-Stopped, links}
use kiac.Runtime.Krunkit.Stop.{StopRun, stop_locked}
use kiac.Runtime.Krunkit.Nodes.Reads.{read_state-put}
use kiac.Runtime.Krunkit.Remove.Unused.{remove_all-Linked, remove_unused_network-Linked}

module _ (hash : Text → Text) (places : Places) where
  -- A stop keeps machines linked.
  pub stop_locked-Linked :
      (run : StopRun) (name : Text) (w : World)
      → Linked w
      → Linked (stop_locked hash places run name w).1
  unfolding Linked
  stop_locked-Linked run name w l = go (stop_locked-Stopped hash places run name w)
    where
      r : Result MachineError (Unit {0}) × World
      r = stop_locked hash places run name w

      go :
          ((state : NodeState) × (read_state w.nodes name ≡ ok state) × Stopped state w r)
            ⊎ ((e : NodeError) × (read_state w.nodes name ≡ err e) × (r ≡ (err (node_error e), w)))
          → Linked r.1
      go (inr (e, _, same)) =
          subst (λ (x : Result MachineError (Unit {0}) × World). Linked x.1) (sym same) l
      go (inl (state, read, s)) = linked
        where
          at : (u : NodeState) → LinkedTo w.networks u → LinkedTo r.1.networks u
          at u = subst (λ (n : Networks). LinkedTo n u) (sym s.networks)

          new : (t : NodeState) → links t ≡ links state → LinkedTo w.networks t
          new t kept_links =
              SameNetwork-LinkedTo w.networks state t
                (
                  ap (λ (x : Text × Text × Text). x.1) kept_links,
                  ap (λ (x : Text × Text × Text). x.2) kept_links,
                )
                (l name state read)

          cases :
              (t u : NodeState)
              → links t ≡ links state
              → (j : Text) → (u ≡ t) ⊎ (read_state w.nodes j ≡ ok u)
              → LinkedTo r.1.networks u
          cases t u kept_links j (inr old) = at u (l j u old)
          cases t u kept_links j (inl here) =
              at u (subst (LinkedTo w.networks) (sym here) (new t kept_links))

          nodes :
              (j : Text) (u : NodeState)
              → Saves state w.nodes r
              → read_state r.1.nodes j ≡ ok u
              → LinkedTo r.1.networks u
          nodes j u (inl (_, _, same)) h =
              at u (l j u (subst (λ (n : Nodes). read_state n j ≡ ok u) same h))
          nodes j u (inr (t, _, _, _, kept_links, same)) h =
              cases t u kept_links j
                (read_state-put w.nodes t u j (subst (λ (n : Nodes). read_state n j ≡ ok u) same h))

          linked :
              (j : Text) (u : NodeState) → read_state r.1.nodes j ≡ ok u → LinkedTo r.1.networks u
          linked j u h = nodes j u s.nodes h

  module _ (Q : RemoveRun → Type 0) (R : World → World → Type 0) (refl_lem : (w : World) → R w w)
      (trans : (u v w : World) → R u v → R v w → R u w)
      (stops : (run : StopRun) (name : Text) (w : World)
        → R w (stop_locked hash places run name w).1)
      (drops : (run : RemoveRun) (name id : Text) (w : World)
        → Q run
        → R w (
            remove_unused_network run.tidying id
              (record w { nodes = remove_all run.removal name w.nodes }))) where
    remove_one-related :
        (name : Text) (run : RemoveRun) (r : Option MachineError × World)
        → Q run
        → R r.1 (remove_one hash places name run r).1
    unfolding remove_one remove_read removed
    remove_one-related name run (first, w) q = go (owns w.nodes name) (read_state w.nodes name)
      where
        after_stop :
            (state : NodeState) (r : Result MachineError (Unit {0}) × World)
            → R w r.1
            → R w (removed hash places name state run first r).1
        after_stop state (err e, v) k = k
        after_stop state (ok u, v) k = trans w v _ k (drops run name state.network_id v q)

        go :
            (b : Bool) (o : Result NodeError NodeState)
            → R w (if b then remove_read hash places name run o first w else (first, w)).1
        go true (ok state) = after_stop state _ (stops run.stopping name w)
        go true (err e) = refl_lem w
        go false o = refl_lem w

    -- A removal is made of stops and of what follows each of them.
    pub remove_machines-related :
        (names : List (Text × RemoveRun)) (r : Option MachineError × World)
        → All (λ (e : Text × RemoveRun). Q e.1) names
        → R r.1 (remove_machines hash places names r).1
    unfolding remove_machines
    remove_machines-related [] r q = refl_lem r.1
    remove_machines-related ((name, run) ∷ rest) r (q, qs) =
        trans _ _ _ (remove_one-related name run r q)
          (remove_machines-related rest (remove_one hash places name run r) qs)

module _ (hash : Text → Text) (places : Places) where
  -- A removal of any machines keeps the others linked to their networks, if every listing that it
  -- makes is complete.
  pub remove_machines-Linked :
      (names : List (Text × RemoveRun)) (r : Option MachineError × World)
      → All (λ (e : Text × RemoveRun). IsComplete e.1.tidying.listed) names
      → Linked r.1
      → Linked (remove_machines hash places names r).1
  remove_machines-Linked =
      remove_machines-related hash places (λ run. IsComplete run.tidying.listed)
        (λ v w. Linked v → Linked w) (λ w l. l) (λ u v w a b l. b (a l))
        (λ run name w. stop_locked-Linked hash places run name w)
        (λ run name id w complete l.
          remove_unused_network-Linked run.tidying id _ complete
            (remove_all-Linked run.removal name w l))
