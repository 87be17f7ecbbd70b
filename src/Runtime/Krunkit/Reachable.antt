-- ===== src/Runtime/Krunkit/Reachable.antt =====
-- Any sequence of operations on krunkit machines. The lock of the store lets one operation run at a
-- time, so a sequence is enough.
use kiac.Runtime.Krunkit.Address.{Decoder}
use kiac.Runtime.Krunkit.Network.{IsComplete}
use kiac.Base.{All, Text, Bool, none, List, [], nat_eq, bool_eq, text_eq, pair_eq, int_eq}
use kiac.Runtime.Krunkit.Create.{CreateRun, run_detached}
use kiac.Runtime.Krunkit.Linked.{Linked}
use kiac.Runtime.Krunkit.Nodes.{NodeState, Places}
use kiac.Runtime.Krunkit.Remove.{RemoveRun, remove_machines}
use kiac.Runtime.Routed.{RunOpts}
use kiac.Runtime.Krunkit.Start.{StartRun, start_machine, start_state}
use kiac.Runtime.Krunkit.Stop.{StopRun, stop_locked}
use kiac.Runtime.Krunkit.World.{World}
use kiac.Runtime.Krunkit.Nodes.Reads.{read_state-ok}
use kiac.Runtime.Krunkit.Remove.Kept.{remove_machines-Linked, stop_locked-Linked}
use kiac.Runtime.Krunkit.Create.Kept.{run_detached-Linked}
use kiac.Runtime.Krunkit.Start.Outcome.{start_state-Outcome}
use kiac.Base.Dict.{get}
use kiac.Runtime.Krunkit.Listing.Kept.{Kept, list_machines-Kept, load-Kept, record_ip-Kept}
use kiac.Runtime.Krunkit.Listing.{ListRun, list_machines, record_ip}
use kiac.Runtime.Krunkit.Separated.{
  Separated, remove_machines-Separated, run_detached-Separated, same-Separated,
  stop_locked-networks, no_networks-Separate,
}

-- One operation, with whatever happens in it, whether it succeeds or fails.
pub data Step (hash : Text → Text) (places : Places) : World → World → Type 0 where
  creates :
      (run : CreateRun) (opts : RunOpts) (w : World)
      → Step hash places w (run_detached hash places run opts w).1
  starts :
      (run : StartRun) (name : Text) (w : World)
      → Step hash places w (start_machine hash places run name w).1
  stops :
      (run : StopRun) (name : Text) (w : World)
      → Step hash places w (stop_locked hash places run name w).1
  removes :
      (names : List (Text × RemoveRun)) (w : World)
      → Step hash places w (remove_machines hash places names (none, w)).1
  lists :
      (decode : Decoder) (run : ListRun) (prefix : Text) (w : World)
      → Step hash places w (list_machines hash decode places run prefix w).1
  records :
      (locked written : Bool) (name : Text) (s : NodeState) (ip : Text) (w : World)
      → Step hash places w (record_ip locked written name s ip w).1

abbrev pub empty_world : World
empty_world = record { nodes = []; networks = []; launched = []; signals = [] }

-- The worlds that operations lead to from an empty state directory.
pub data Reachable (hash : Text → Text) (places : Places) : World → Type 0 where
  nothing : Reachable hash places empty_world
  after : (v w : World) → Reachable hash places v → Step hash places v w → Reachable hash places w

-- In a step, every name is listed and can be read, where the code ignores the errors of that.
abbrev pub ListsAll :
    {hash : Text → Text} {places : Places} (v w : World) → Step hash places v w → Type 0
ListsAll _ _ (creates run opts w) = IsComplete run.host.listed × IsComplete run.tidying.listed
ListsAll _ _ (starts run name w) = Unit {0}
ListsAll _ _ (stops run name w) = Unit {0}
ListsAll _ _ (removes names w) = All (λ (e : Text × RemoveRun). IsComplete e.1.tidying.listed) names
ListsAll _ _ (lists decode run prefix w) = Unit {0}
ListsAll _ _ (records locked written name s ip w) = Unit {0}

-- It does so in each of the steps.
abbrev pub AlwaysListsAll :
    {hash : Text → Text} {places : Places} (w : World) → Reachable hash places w → Type 0
AlwaysListsAll _ nothing = Unit {0}
AlwaysListsAll _ (after v w r s) = AlwaysListsAll v r × ListsAll v w s

module _ (hash : Text → Text) (places : Places) where
  start_machine-Kept :
      (run : StartRun) (name : Text) (w : World) → Kept w (start_machine hash places run name w).1
  unfolding start_machine Linked
  start_machine-Kept run name w = load-Kept name (start_state hash places run) w (λ state h.
      let ((e, k), _) = start_state-Outcome hash places run state w in
      (e, λ l. k l (l name state h)))

  Step-Linked : (v w : World) (s : Step hash places v w) → ListsAll v w s → Linked v → Linked w
  Step-Linked _ _ (creates r opts v) (_, a) l = run_detached-Linked hash places r opts v a l
  Step-Linked _ _ (starts r name v) _ l = (start_machine-Kept r name v).1 l
  Step-Linked _ _ (stops r name v) _ l = stop_locked-Linked hash places r name v l
  Step-Linked _ _ (removes names v) a l = remove_machines-Linked hash places names (none, v) a l
  Step-Linked _ _ (lists decode r prefix v) _ l =
      (list_machines-Kept hash decode places r prefix v).1 l
  Step-Linked _ _ (records locked written name t ip v) _ l =
      (record_ip-Kept locked written name t ip v).1 l

  -- After any creations, starts, stops, removals and listings of machines and records of their
  -- addresses from an empty state directory, whatever else fails in them that the model lets fail,
  -- if every name is listed and can be read where the code ignores the errors of that, each machine
  -- whose state can be read is in a network that is there and valid, and has recorded its subnet.
  pub Reachable-Linked : (w : World) (r : Reachable hash places w) → AlwaysListsAll w r → Linked w
  unfolding Linked get
  Reachable-Linked _ nothing _ =
      λ name s r. absurd (let (found, _, _) = read_state-ok [] name s r in cc)
  Reachable-Linked _ (after v w r s) (a, b) = Step-Linked v w s b (Reachable-Linked v r a)

  Step-Separated :
      (v w : World) (s : Step hash places v w) → ListsAll v w s → Separated v → Separated w
  Step-Separated _ _ (creates r opts v) (a, _) s = run_detached-Separated hash places r opts v a s
  Step-Separated _ _ (starts r name v) _ s =
      same-Separated v (start_machine hash places r name v).1 (start_machine-Kept r name v).0 s
  Step-Separated _ _ (stops r name v) _ s =
      same-Separated v (stop_locked hash places r name v).1
        (stop_locked-networks hash places r name v) s
  Step-Separated _ _ (removes names v) _ s = remove_machines-Separated hash places names (none, v) s
  Step-Separated _ _ (lists decode r prefix v) _ s =
      same-Separated v (list_machines hash decode places r prefix v).1
        (list_machines-Kept hash decode places r prefix v).0 s
  Step-Separated _ _ (records locked written name t ip v) _ s =
      same-Separated v (record_ip locked written name t ip v).1
        (record_ip-Kept locked written name t ip v).0 s

  -- After any creations, starts, stops, removals and listings of machines and records of their
  -- addresses from an empty state directory, whatever else fails in them that the model lets fail,
  -- if every name is listed and can be read where the code ignores the errors of that, no two
  -- networks that can be loaded under different names have the same subnet.
  pub Reachable-Separated :
      (w : World) (r : Reachable hash places w) → AlwaysListsAll w r → Separated w
  Reachable-Separated _ nothing _ = no_networks-Separate
  Reachable-Separated _ (after v w r s) (a, b) = Step-Separated v w s b (Reachable-Separated v r a)
