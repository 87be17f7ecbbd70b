-- ===== src/Runtime/Krunkit/Stop/Safe.antt =====
-- The signals that `stopLocked` sends (pkg/runtime/krunkit.go).
use kiac.Base.Exec.{◌>>=◌, continue}
use kiac.Runtime.Krunkit.World.Sends.{SendsOnly, SendsOnly-none, SendsOnly-send, SendsOnly-then}
use kiac.Base.{
  if◌then◌else◌, Text, Result, ok, err, ◌≡◌, refl, sym, ap, ◌∙◌, ◌⊎◌, inl, inr, Bool, true, false,
  some, [], subst, text_beq,
}
use kiac.Runtime.Krunkit.Stop.{
  term_owned, term_phase, request_phase, StopRun, stop_owned, kill_phase, kill_owned, stop_locked,
  without_process, exited,
}
use kiac.Runtime.Krunkit.Process.Identity.{
  Known, identity, poll-same, process_owned-identity, process_owned-same, process_owned-Known,
  process_owned-Owned, Owned,
}
use kiac.Runtime.Krunkit.Nodes.{NodeState, Places, NodeError, Nodes, read_state, write_state}
use kiac.Runtime.Krunkit.Process.{
  Seen, Sent, Signal, Target, group, single, poll, process_owned, sigkill, sigterm,
}
use kiac.Runtime.Krunkit.World.Sends.{SendsOnly}
use kiac.Runtime.Krunkit.World.{
  World, MachineError, load_state, loaded, on_nodes, save_state, send, signal_error,
}

-- What was seen just before a signal was sent.
pub look_before : StopRun → Signal → Seen
look_before run sigterm = run.before_term
look_before run sigkill = run.before_kill

module _ (hash : Text → Text) (places : Places) (run : StopRun) where
  -- A signal is for the process id of the state or its group, where the state recognised the
  -- process when the stop began, and the process now has the identity of that one.
  pub Own : NodeState → Target × Signal → Type 0
  Own state (target, signal) =
      ((target ≡ group state.pid) ⊎ (target ≡ single state.pid))
      × (identity hash (look_before run signal) ≡ identity hash run.at_start)
      × Owned hash places state run.at_start

  module _ (state s : NodeState) (k : Known s) (same_pid : s.pid ≡ state.pid)
      (i : identity hash run.at_start ≡ some (s.process_start, s.process_command_hash))
      (owned : Owned hash places state run.at_start) where
    send-Own :
        (answer : Sent) (signal : Signal) (t : NodeState) (w : World)
        → identity hash (look_before run signal) ≡ identity hash run.at_start
        → t ≡ s
        → SendsOnly (Own state) w (send answer t.pid signal w)
    unfolding Own
    send-Own answer signal t w seen_same same =
        let e = ap NodeState.pid same ∙ same_pid in
        SendsOnly-send (Own state) answer t.pid signal w (inl (ap group e), seen_same, owned)
          (inr (ap single e), seen_same, owned)

    owned_again :
        (seen : Seen) (t : NodeState)
        → process_owned hash places seen s ≡ (true, t)
        → (identity hash seen ≡ identity hash run.at_start) × (t ≡ s)
    owned_again seen t h =
        let same : t ≡ s =
          ap (λ (p : Bool × NodeState). p.1) (sym h) ∙ process_owned-same hash places s k seen in
        let (e, _) = process_owned-identity hash places seen s t h in
        (
          subst
                (λ (u : NodeState).
                  identity hash seen ≡ some (u.process_start, u.process_command_hash))
                same e
              ∙ sym i,
          same,
        )

    request_phase-same : (name : Text) → request_phase hash places run name s ≡ s
    unfolding request_phase
    request_phase-same name = go _
      where
        go : (b : Bool) → (if b then poll hash places run.after_request s else s) ≡ s
        go true = poll-same hash places s k run.after_request
        go false = refl

    term_phase-Own :
        (w : World)
        → SendsOnly (Own state) w (term_phase hash places run s w).1
          × ((t : NodeState) (v : World) → term_phase hash places run s w ≡ (ok t, v) → t ≡ s)
    unfolding term_phase term_owned Own look_before
    term_phase-Own w = go (process_owned hash places run.before_term s) refl
      where
        go :
            (p : Bool × NodeState)
            → process_owned hash places run.before_term s ≡ p
            → SendsOnly (Own state) w (term_owned hash places run p w).1
              × ((t : NodeState) (v : World) → term_owned hash places run p w ≡ (ok t, v) → t ≡ s)
        go (false, t) h = (
          SendsOnly-none (Own state) w w refl,
          λ u v e.
              let same : ◌≡◌ {A = NodeState} t u = cc in
              sym same
              ∙ (ap (λ (p : Bool × NodeState). p.1) (sym h)
                  ∙ process_owned-same hash places s k run.before_term),
        )
        go (true, t) h =
            let (seen_same, same) = owned_again run.before_term t h in answer t seen_same same _
          where
            answer :
                (t : NodeState)
                → identity hash run.before_term ≡ identity hash run.at_start
                → t ≡ s
                → (b : Bool)
                → SendsOnly
                    (Own state)
                    w
                    (if◌then◌else◌ {A = Result MachineError NodeState × World} b
                      (err signal_error, send run.term_group t.pid sigterm w)
                      (
                        ok (poll hash places run.after_term t),
                        send run.term_group t.pid sigterm w,
                      )).1
                  × ((u : NodeState) (v : World)
                      → ◌≡◌ {A = Result MachineError NodeState × World}
                          (if b then (err signal_error, send run.term_group t.pid sigterm w) else (
                            ok (poll hash places run.after_term t),
                            send run.term_group t.pid sigterm w,
                          ))
                          (ok u, v)
                      → u ≡ s)
            answer t seen_same same true =
                (send-Own run.term_group sigterm t w seen_same same, λ u v e. absurd (cc))
            answer t seen_same same false = (
              send-Own run.term_group sigterm t w seen_same same,
              λ u v e.
                  let polled : ◌≡◌ {A = NodeState} (poll hash places run.after_term t) u = cc in
                  sym polled
                  ∙ (ap (poll hash places run.after_term) same
                      ∙ poll-same hash places s k run.after_term),
            )

    kill_phase-Own : (w : World) → SendsOnly (Own state) w (kill_phase hash places run s w).1
    unfolding kill_phase kill_owned Own look_before
    kill_phase-Own w = go (process_owned hash places run.before_kill s) refl
      where
        go :
            (p : Bool × NodeState)
            → process_owned hash places run.before_kill s ≡ p
            → SendsOnly (Own state) w (kill_owned hash places run p w).1
        go (false, t) h = SendsOnly-none (Own state) w w refl
        go (true, t) h =
            let (seen_same, same) = owned_again run.before_kill t h in
            let sends = send-Own run.kill_group sigkill t w seen_same same in answer _ sends
          where
            answer :
                (b : Bool)
                → SendsOnly (Own state) w (send run.kill_group t.pid sigkill w)
                → SendsOnly
                    (Own state)
                    w
                    (if◌then◌else◌ {A = Result MachineError NodeState × World} b
                      (err signal_error, send run.kill_group t.pid sigkill w)
                      (
                        exited hash places run (
                            process_owned hash places run.at_end
                              (poll hash places run.after_kill t)),
                        send run.kill_group t.pid sigkill w,
                      )).1
            answer true sends = sends
            answer false sends = sends

  save_state-Own :
      (state s : NodeState) (written : Bool) (w : World)
      → SendsOnly (Own state) w (save_state written s w).1
  unfolding save_state on_nodes
  save_state-Own state s written w = go (write_state written s w.nodes)
    where
      go : (r : Result NodeError (Unit {0}) × Nodes) → SendsOnly (Own state) w (on_nodes r w).1
      go (ok u, nodes) = SendsOnly-none (Own state) w (record w { nodes = nodes }) refl
      go (err e, nodes) = SendsOnly-none (Own state) w (record w { nodes = nodes }) refl

  module _ (digest : (command : Text) → text_beq (hash command) [] ≡ false) where
    stop_owned-Own :
        (name : Text) (state : NodeState) (p : Bool × NodeState) (w : World)
        → process_owned hash places run.at_start state ≡ p
        → SendsOnly (Own state) w (stop_owned hash places run name p w).1
    unfolding stop_owned
    stop_owned-Own name state (false, s) w h =
        save_state-Own state (without_process s) run.written w
    stop_owned-Own name state (true, s) w h =
        let (i, same_pid) = process_owned-identity hash places run.at_start state s h in
        let k = process_owned-Known hash places run.at_start state s digest h in
        let o = process_owned-Owned hash places run.at_start state s h in
        let same = request_phase-same state s k same_pid i o name in
        let m = term_phase hash places run (request_phase hash places run name s) in
        let (terms, same_after) = term_phase-Own state s k same_pid i o w in
        SendsOnly-then (Own state) (m >>= kill_phase hash places run) _ w
          (SendsOnly-then (Own state) m (kill_phase hash places run) w
            (subst (λ (t : NodeState). SendsOnly (Own state) w (term_phase hash places run t w).1)
              (sym same) terms)
            (λ t v e.
              let here : t ≡ s =
                same_after t v
                  (subst (λ (u : NodeState). term_phase hash places run u w ≡ (ok t, v)) same e) in
              subst (λ (u : NodeState). SendsOnly (Own state) v (kill_phase hash places run u v).1)
                (sym here) (kill_phase-Own state s k same_pid i o v)))
          (λ last v e. save_state-Own state _ run.written v)

    -- `stop_locked` sends signals only for the recorded process id of the machine, to it or its
    -- group, and only where the process that was seen just before has the start and the command
    -- hash of the one that was seen when the stop began, which was the recorded one or, if the
    -- state lacks a start or a command hash, one with the start that is there, if any, and a
    -- command that names the directory or the socket of the machine. A machine whose state cannot
    -- be read is sent none. The hash of a command must never be the empty text.
    pub stop_locked-Own :
        (name : Text) (w : World)
        → ((state : NodeState) × (read_state w.nodes name ≡ ok state)
            × SendsOnly (Own state) w (stop_locked hash places run name w).1)
          ⊎ ((stop_locked hash places run name w).1.signals ≡ w.signals)
    unfolding stop_locked load_state loaded ◌>>=◌
    stop_locked-Own name w = go (read_state w.nodes name) refl
      where
        go :
            (r : Result NodeError NodeState)
            → read_state w.nodes name ≡ r
            → ((state : NodeState) × (read_state w.nodes name ≡ ok state)
                × SendsOnly
                    (Own state)
                    w
                    (continue
                      (λ (state : NodeState).
                        stop_owned hash places run name
                          (process_owned hash places run.at_start state))
                      (loaded r w)).1)
              ⊎ ((continue
                    (λ (state : NodeState).
                      stop_owned hash places run name
                        (process_owned hash places run.at_start state))
                    (loaded r w)).1.signals
                  ≡ w.signals)
        go (ok state) e = inl (state, e, stop_owned-Own name state _ w refl)
        go (err x) e = inr refl
