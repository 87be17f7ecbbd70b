-- ===== src/Runtime/Krunkit/Stop/Done.antt =====
-- What a stop does to the inventory.
use kiac.Base.{
  if◌then◌else◌, Text, Result, ok, err, pos, ◌≡◌, refl, sym, ap, ◌∙◌, ◌⊎◌, inl, inr, Bool, true,
  false, not, some, [], subst, nat_eq, bool_eq, text_eq, pair_eq, int_eq,
}
use kiac.Runtime.Krunkit.Stop.{
  kill_phase, exited, term_owned, term_phase, kill_owned, request_phase, StopRun, stopped,
  stop_owned, without_process, stop_locked,
}
use kiac.Runtime.Krunkit.Process.Keeps.{Apart, poll-keeps, process_owned-keeps}
use kiac.Runtime.Krunkit.World.{
  MachineError, World, send, signal_error, Machine, node_error, on_nodes, save_state, load_state,
  loaded,
}
use kiac.Runtime.Krunkit.Nodes.{
  NodeState, Places, invalid_name, state_not_written, valid_vm_name, write_state, Nodes, NodeError,
  read_state,
}
use kiac.Runtime.Krunkit.Process.{poll, process_owned, sigkill, sigterm}
use kiac.Base.Exec.{continue, ◌>>=◌}
use kiac.Base.Dict.{put}
use kiac.Runtime.Krunkit.Network.{saved}

-- A phase leaves the inventory and the networks, and what it returns is as before but for the
-- identity of the process.
abbrev Phase :
    {A : Type 0}
    → (NodeState → A)
    → NodeState
    → World
    → Result MachineError NodeState × World
    → Type 0
Phase f s w r =
    (r.1.nodes ≡ w.nodes) × (r.1.networks ≡ w.networks) × ((t : NodeState) → r.0 ≡ ok t → f t ≡ f s)

Phase-then :
    {A : Type 0} (f : NodeState → A) (s : NodeState) (m : Machine NodeState)
    (n : NodeState → Machine NodeState) (w : World)
    → Phase f s w (m w)
    → ((t : NodeState) (v : World) → Phase f t v (n t v))
    → Phase f s w ((m >>= n) w)
unfolding ◌>>=◌
Phase-then f s m n w first rest = go (m w) first
  where
    go : (r : Result MachineError NodeState × World) → Phase f s w r → Phase f s w (continue n r)
    go (ok t, v) (a, b, c) =
        let (a', b', c') = rest t v in (a' ∙ a, b' ∙ b, λ u h. c' u h ∙ c t refl)
    go (err e, v) (a, b, c) = (a, b, λ u h. absurd (cc))

module _ (hash : Text → Text) (places : Places) (run : StopRun) {A : Type 0} (f : NodeState → A)
    (apart : Apart f) where
  request_phase-keeps :
      (name : Text) (s : NodeState) → f (request_phase hash places run name s) ≡ f s
  unfolding request_phase
  request_phase-keeps name s = go _
    where
      go : (b : Bool) → f (if b then poll hash places run.after_request s else s) ≡ f s
      go true = poll-keeps hash places f apart run.after_request s
      go false = refl

  term_phase-Phase : (s : NodeState) (w : World) → Phase f s w (term_phase hash places run s w)
  unfolding term_phase term_owned
  term_phase-Phase s w =
      go (process_owned hash places run.before_term s)
        (process_owned-keeps hash places f apart run.before_term s)
    where
      go : (p : Bool × NodeState) → f p.1 ≡ f s → Phase f s w (term_owned hash places run p w)
      go (false, t) e = (refl, refl, λ u h. (let same : t ≡ u = cc in ap f (sym same) ∙ e))
      go (true, t) e = answer _
        where
          answer :
              (b : Bool)
              → Phase f s w (
                  if b then (err signal_error, send run.term_group t.pid sigterm w) else (
                    ok (poll hash places run.after_term t),
                    send run.term_group t.pid sigterm w,
                  ))
          answer true = (refl, refl, λ u h. absurd (cc))
          answer false = (
            refl,
            refl,
            λ u h.
                (let same : poll hash places run.after_term t ≡ u = cc in
                  ap f (sym same) ∙ (poll-keeps hash places f apart run.after_term t ∙ e)),
          )

  kill_phase-Phase : (s : NodeState) (w : World) → Phase f s w (kill_phase hash places run s w)
  unfolding kill_phase kill_owned exited
  kill_phase-Phase s w =
      go (process_owned hash places run.before_kill s)
        (process_owned-keeps hash places f apart run.before_kill s)
    where
      go : (p : Bool × NodeState) → f p.1 ≡ f s → Phase f s w (kill_owned hash places run p w)
      go (false, t) e = (refl, refl, λ u h. (let same : t ≡ u = cc in ap f (sym same) ∙ e))
      go (true, t) e =
          answer _ (process_owned hash places run.at_end (poll hash places run.after_kill t)) (
            process_owned-keeps hash places f apart run.at_end (poll hash places run.after_kill t)
            ∙ (poll-keeps hash places f apart run.after_kill t ∙ e))
        where
          answer :
              (b : Bool) (p : Bool × NodeState)
              → f p.1 ≡ f s
              → Phase f s w (
                  if b
                  then (err signal_error, send run.kill_group t.pid sigkill w)
                  else (exited hash places run p, send run.kill_group t.pid sigkill w))
          answer true p e = (refl, refl, λ u h. absurd (cc))
          answer false (true, v) e = (refl, refl, λ u h. absurd (cc))
          answer false (false, v) e =
              (refl, refl, λ u h. (let same : v ≡ u = cc in ap f (sym same) ∙ e))

-- The fields by which a machine and its network are found.
abbrev pub links : NodeState → Text × Text × Text
links s = (s.name, s.network_id, s.network_cidr)

-- The state of a machine is saved with no process, or nothing is saved where the stop fails.
abbrev pub Saves : NodeState → Nodes → Result MachineError (Unit {0}) × World → Type 0
Saves state before r =
    ((e : MachineError) × (r.0 ≡ err e) × (r.1.nodes ≡ before))
    ⊎ ((t : NodeState) × (r.0 ≡ ok tt)
        × (t.status ≡ stopped)
        × (t.pid ≡ pos 0)
        × (links t ≡ links state)
        × (r.1.nodes ≡ put t.name (some (saved t)) before))

pub record Stopped (state : NodeState) (w : World) (r : Result MachineError (Unit {0}) × World)
    : Type 0 where
  pub networks : r.1.networks ≡ w.networks
  pub nodes : Saves state w.nodes r

save_state-Stopped :
    (state t : NodeState) (written : Bool) (w : World)
    → t.status ≡ stopped
    → t.pid ≡ pos 0
    → links t ≡ links state
    → Stopped state w (save_state written t w)
unfolding save_state on_nodes write_state
save_state-Stopped state t written w a b c = go (valid_vm_name t.name) written
  where
    go :
        (x y : Bool)
        → Stopped state w (
            on_nodes
              (if not x
                then (err (invalid_name t.name), w.nodes)
                else if y
                then (ok tt, put t.name (some (saved t)) w.nodes)
                else (err state_not_written, w.nodes))
              w)
    go false y = record {
      networks = refl;
      nodes = inl (node_error (invalid_name t.name), refl, refl);
    }
    go true true = record { networks = refl; nodes = inr (t, refl, a, b, c, refl) }
    go true false = record {
      networks = refl;
      nodes = inl (node_error state_not_written, refl, refl);
    }

-- A part that leaves the inventory alone, and a rest that ends as a stop does.
Stopped-then :
    {A : Type 0} (state : NodeState) (m : Machine A) (f : A → Machine (Unit {0})) (w : World)
    → (m w).1.nodes ≡ w.nodes
    → (m w).1.networks ≡ w.networks
    → ((a : A) (v : World) → (m w).0 ≡ ok a → Stopped state v (f a v))
    → Stopped state w ((m >>= f) w)
unfolding ◌>>=◌
Stopped-then {A} state m f w same_nodes same_networks rest = go (m w) refl same_nodes same_networks
  where
    go :
        (r : Result MachineError A × World)
        → m w ≡ r
        → r.1.nodes ≡ w.nodes
        → r.1.networks ≡ w.networks
        → Stopped state w (continue f r)
    go (ok a, v) e n k =
        let s = rest a v (ap (λ (x : Result MachineError A × World). x.0) e) in
        record {
          networks = s.networks ∙ k;
          nodes = subst (λ (before : Nodes). Saves state before (f a v)) n s.nodes;
        }
    go (err x, v) e n k = record { networks = k; nodes = inl (x, refl, n) }

module _ (hash : Text → Text) (places : Places) (run : StopRun) where
  stop_owned-Stopped :
      (name : Text) (state : NodeState) (p : Bool × NodeState) (w : World)
      → links p.1 ≡ links state
      → Stopped state w (stop_owned hash places run name p w)
  unfolding stop_owned
  stop_owned-Stopped name state (false, s) w l =
      save_state-Stopped state (without_process s) run.written w refl refl l
  stop_owned-Stopped name state (true, s) w l =
      let s1 = request_phase hash places run name s in
      let l1 = request_phase-keeps hash places run links (λ t a b. refl) name s in
      let m = term_phase hash places run s1 in
      let (n2, k2, f2) =
        Phase-then links s1 m (kill_phase hash places run) w
          (term_phase-Phase hash places run links (λ t a b. refl) s1 w)
          (kill_phase-Phase hash places run links (λ t a b. refl)) in
      Stopped-then state (m >>= kill_phase hash places run) _ w n2 k2 (λ last v e.
        save_state-Stopped state (record (without_process last) { ip = [] }) run.written v refl refl
          (f2 last e ∙ (l1 ∙ l)))

  -- A stop of a machine that can be read saves its state as stopped, with no process and with the
  -- same name and network, where it succeeds, and saves nothing where it fails; it changes no other
  -- machine and no network. A machine that cannot be read fails it.
  pub stop_locked-Stopped :
      (name : Text) (w : World)
      → ((state : NodeState) × (read_state w.nodes name ≡ ok state)
          × Stopped state w (stop_locked hash places run name w))
        ⊎ ((e : NodeError) × (read_state w.nodes name ≡ err e)
            × (stop_locked hash places run name w ≡ (err (node_error e), w)))
  unfolding stop_locked load_state loaded ◌>>=◌
  stop_locked-Stopped name w = go (read_state w.nodes name) refl
    where
      rest : NodeState → Machine (Unit {0})
      rest s = stop_owned hash places run name (process_owned hash places run.at_start s)

      go :
          (r : Result NodeError NodeState)
          → read_state w.nodes name ≡ r
          → ((state : NodeState) × (read_state w.nodes name ≡ ok state)
              × Stopped state w (continue rest (loaded r w)))
            ⊎ ((e : NodeError) × (read_state w.nodes name ≡ err e)
                × (continue rest (loaded r w) ≡ (err (node_error e), w)))
      go (ok state) e = inl (
        state,
        e,
        stop_owned-Stopped name state (process_owned hash places run.at_start state) w
            (process_owned-keeps hash places links (λ t a b. refl) run.at_start state),
      )
      go (err x) e = inr (x, e, refl)
