-- ===== src/Runtime/Krunkit/Start/Outcome.antt =====
-- What a start does to the inventory, and to the process that it ran where it fails then.
use kiac.Base.{
  All, All-append, append_assoc, if◌then◌else◌, ◌===◌, Text, In, In-append_right, Result, ok, err,
  ℤ, pos, ℕ, ◌≡◌, refl, sym, ap, ◌∙◌, ◌⊎◌, inl, inr, Bool, true, false, Option, none, some, List,
  [], ◌∷◌, ◌++◌, arith, subst, nat_eq, bool_eq, text_eq, pair_eq, int_eq,
}
use kiac.Base.Exec.{◌>>=◌, ◌>>◌}
use kiac.Runtime.Krunkit.Network.{Network, NetworkError, load_network}
use kiac.Runtime.Krunkit.Start.{
  terminate, prepared, found_network, with_socket, prepare_report, identify, no_overlap, StartRun,
  running_state, recorded, launch, check, or_terminate, start_new, check_report_mounts, start_owned,
  launch_args, running, start_state,
}
use kiac.Runtime.Krunkit.Linked.{
  KeepsLinked, KeepsLinked-refl, Linked, SameNetwork, KeepsLinked-trans, save_state-KeepsLinked,
  SameNetwork-LinkedTo,
}
use kiac.Runtime.Krunkit.World.{
  send, MachineError, World, on_nodes, save_state, unsafe_socket, Machine, not_launched,
  not_released, no_binary, no_log, no_nested, unsafe_disk,
}
use kiac.Runtime.Krunkit.Nodes.{
  NodeError, NodeState, Nodes, Places, write_state, node_dir, short_socket_path,
}
use kiac.Runtime.Krunkit.Process.{
  Sent, Signal, Target, delivered, group, kill_calls, no_process, not_permitted, other_error,
  sigkill, single, sigterm, process_command, process_start_time, process_owned,
}
use kiac.Runtime.Krunkit.World.Steps.{
  check-same, then-related, directory-same, pure_then, require-same,
}
use kiac.Runtime.Krunkit.Process.Keeps.{process_owned-keeps}

-- Only the new process or its group was sent signals, SIGTERM first, and SIGKILL too where it does
-- not end in time.
abbrev pub Terminated : StartRun → ℕ → World → World → Type 0
Terminated run pid w after =
    (rest : List (Target × Signal)) × (after.signals
      ≡ w.signals ++ (group (pos pid), sigterm) ∷ rest)
    × All (λ (c : Target × Signal). (c.0 ≡ group (pos pid)) ⊎ (c.0 ≡ single (pos pid))) rest
    × (run.ends_in_time ≡ false → In (group (pos pid), sigkill) rest)

-- At most one command was run. Signals were sent only where one was run and the start failed then.
abbrev pub ToldToEnd : StartRun → World → Result MachineError (Unit {0}) × World → Type 0
ToldToEnd run w r =
    ((r.1.launched ≡ w.launched) × (r.1.signals ≡ w.signals))
    ⊎ ((command : List Text) × (pid : ℕ) × (run.launched_pid ≡ some pid)
        × (r.1.launched ≡ w.launched ++ command ∷ [])
        × (((r.0 ≡ ok tt) × (r.1.signals ≡ w.signals))
            ⊎ ((e : MachineError) × (r.0 ≡ err e) × Terminated run pid w r.1)))

abbrev pub Outcome : StartRun → NodeState → World → Result MachineError (Unit {0}) × World → Type 0
Outcome run s w r = KeepsLinked s w r.1 × ToldToEnd run w r

Outcome-err :
    (run : StartRun) (s : NodeState) (w : World) (e : MachineError) → Outcome run s w (err e, w)
Outcome-err run s w e = (KeepsLinked-refl s w, inl (refl, refl))

-- A part of a start that leaves the world alone.
past :
    (run : StartRun) (s : NodeState) (w : World) {A : Type 0} (m : Machine A)
    (f : A → Machine (Unit {0}))
    → (m w).1 ≡ w
    → ((a : A) → m w ≡ (ok a, w) → Outcome run s w (f a w))
    → Outcome run s w ((m >>= f) w)
past run s w m f = pure_then (Outcome run s) m f w (Outcome-err run s w)

found_network-same : (r : Result NetworkError Network) (w : World) → (found_network r w).1 ≡ w
unfolding found_network
found_network-same (ok n) w = refl
found_network-same (err e) w = refl

no_overlap-same : (o : Option Text) (w : World) → (no_overlap o w).1 ≡ w
unfolding no_overlap
no_overlap-same none w = refl
no_overlap-same (some target) w = refl

calls_of :
    (answer : Sent) (pid : ℤ) (signal : Signal)
    → (rest : List (Target × Signal)) × (kill_calls answer pid signal ≡ (group pid, signal) ∷ rest)
      × All (λ (c : Target × Signal). (c.0 ≡ group pid) ⊎ (c.0 ≡ single pid)) rest
unfolding kill_calls
calls_of delivered pid signal = ([], refl, tt)
calls_of no_process pid signal = ((single pid, signal) ∷ [], refl, (inr refl, tt))
calls_of not_permitted pid signal = ((single pid, signal) ∷ [], refl, (inr refl, tt))
calls_of other_error pid signal = ([], refl, tt)

module _ (run : StartRun) (pid : ℕ) where
  abbrev ended_after : World → World
  ended_after = terminate run.term_group run.kill_group run.ends_in_time (pos pid)

  terminate-Terminated :
      (w v : World) → v.signals ≡ w.signals → Terminated run pid w (ended_after v)
  unfolding terminate
  terminate-Terminated w v same =
      go run.ends_in_time refl (calls_of run.term_group (pos pid) sigterm)
        (calls_of run.kill_group (pos pid) sigkill)
    where
      Calls : Signal → Sent → Type 0
      Calls signal answer =
          (rest : List (Target × Signal)) × (kill_calls answer (pos pid) signal
            ≡ (group (pos pid), signal) ∷ rest)
          × All (λ (c : Target × Signal). (c.0 ≡ group (pos pid)) ⊎ (c.0 ≡ single (pos pid))) rest

      go :
          (b : Bool)
          → run.ends_in_time ≡ b
          → Calls sigterm run.term_group
          → Calls sigkill run.kill_group
          → Terminated run pid w (
              if b
              then send run.term_group (pos pid) sigterm v
              else send run.kill_group (pos pid) sigkill (send run.term_group (pos pid) sigterm v))
      go true b (xs, e, a) _ = (xs, rw same (rw e refl), a, λ late. absurd (cc))
      go false b (xs, e, a) (ys, f, c) = (
        xs ++ (group (pos pid), sigkill) ∷ ys,
        rw same (
            rw e (
              rw f (
                append_assoc w.signals ((group (pos pid), sigterm) ∷ xs)
                  ((group (pos pid), sigkill) ∷ ys)))),
        All-append _ xs _ a (inl refl, c),
        λ late. In-append_right _ xs _ (inl refl),
      )

  terminate-KeepsLinked :
      (s : NodeState) (v w : World) → KeepsLinked s v w → KeepsLinked s v (ended_after w)
  unfolding terminate Linked
  terminate-KeepsLinked s v w k = go run.ends_in_time
    where
      go : (b : Bool) → KeepsLinked s v (terminate run.term_group run.kill_group b (pos pid) w)
      go true = k
      go false = k

  terminate-launched : (w : World) → (ended_after w).launched ≡ w.launched
  unfolding terminate
  terminate-launched w = go run.ends_in_time
    where
      go :
          (b : Bool) → (terminate run.term_group run.kill_group b (pos pid) w).launched ≡ w.launched
      go true = refl
      go false = refl

-- Neither the commands nor the signals change.
abbrev Quiet : World → World → Type 0
Quiet w v = (v.launched ≡ w.launched) × (v.signals ≡ w.signals)

save_state-Quiet : (written : Bool) (s : NodeState) (w : World) → Quiet w (save_state written s w).1
unfolding save_state on_nodes
save_state-Quiet written s w = go (write_state written s w.nodes)
  where
    go : (r : Result NodeError (Unit {0}) × Nodes) → Quiet w (on_nodes r w).1
    go (ok u, nodes) = (refl, refl)
    go (err e, nodes) = (refl, refl)

module _ (hash : Text → Text) (places : Places) (run : StartRun) where
  with_socket-same :
      (expected : Text) (s : NodeState) (w : World)
      → (with_socket hash places run expected s w).1 ≡ w
  unfolding with_socket
  with_socket-same expected s w = ground arith

  with_socket-SameNetwork :
      (expected : Text) (s t : NodeState) (w : World)
      → with_socket hash places run expected s w ≡ (ok t, w)
      → SameNetwork s t
  unfolding with_socket
  with_socket-SameNetwork expected s t w h =
      go (s.rest_socket === []) (s.rest_socket === expected) h
    where
      go :
          (b c : Bool)
          → ◌≡◌ {A = Result MachineError NodeState × World}
              (if b
                then (ok (record s { rest_socket = expected }), w)
                else if c
                then (ok s, w)
                else (err unsafe_socket, w))
              (ok t, w)
          → SameNetwork s t
      go true c h =
          let same : record s { rest_socket = expected } ≡ t = cc in
          subst (SameNetwork s) same (refl, refl)
      go false true h = let same : s ≡ t = cc in subst (SameNetwork s) same (refl, refl)
      go false false h = absurd (cc)

  prepare_report-same : (s : NodeState) (w : World) → (prepare_report hash places run s w).1 ≡ w
  unfolding prepare_report
  prepare_report-same s w = ground arith

  prepare_report-SameNetwork :
      (s t : NodeState) (w : World)
      → prepare_report hash places run s w ≡ (ok t, w)
      → SameNetwork s t
  unfolding prepare_report prepared
  prepare_report-SameNetwork s t w h = go s.guest_address_report run.generation h
    where
      go :
          (b : Bool) (o : Option Text)
          → ◌≡◌ {A = Result MachineError NodeState × World}
              (if b then (prepared hash places run o s, w) else (ok s, w))
              (ok t, w)
          → SameNetwork s t
      go true none h = absurd (cc)
      go true (some g) h =
          let same : record s { address_generation = g; ip = [] } ≡ t = cc in
          subst (SameNetwork s) same (refl, refl)
      go false o h = let same : s ≡ t = cc in subst (SameNetwork s) same (refl, refl)

  identify-same :
      (s : NodeState) (pid : ℕ) (o c : Option Text) (w : World)
      → ((identify hash places run s pid o c w).1 ≡ w)
        × ((t : NodeState) → (identify hash places run s pid o c w).0 ≡ ok t → SameNetwork s t)
  unfolding identify
  identify-same s pid none c w = (refl, λ t h. absurd (cc))
  identify-same s pid (some o) none w = (refl, λ t h. absurd (cc))
  identify-same s pid (some o) (some c) w = (
    refl,
    λ t h.
        (let same : running_state hash places run s pid o c ≡ t = cc in
          subst (SameNetwork s) same (refl, refl)),
  )

  -- Recording the process saves a state in the same network, runs nothing and sends nothing.
  recorded-KeepsLinked :
      (s : NodeState) (pid : ℕ) (w : World)
      → KeepsLinked s w (recorded hash places run s pid w).1
        × Quiet w (recorded hash places run s pid w).1
  unfolding recorded
  recorded-KeepsLinked s pid w =
      then-related R trans identity_read saved_then w
        (let e = (identify-same s pid _ _ w).0 in
          subst (R w) (sym e) (KeepsLinked-refl s w, (refl, refl)))
        (λ t v e.
          let same =
            (identify-same s pid _ _ w).1 t
              (ap (λ (r : Result MachineError NodeState × World). r.0) e) in
          then-related R trans (save_state run.written t) (λ _. check run.released not_released) v
            (save_state-KeepsLinked s t run.written v same, save_state-Quiet run.written t v)
            (λ u x h.
              let c = check-same run.released not_released x in
              subst (R x) (sym c) (KeepsLinked-refl s x, (refl, refl))))
    where
      R : World → World → Type 0
      R u v = KeepsLinked s u v × Quiet u v

      trans : (u v x : World) → R u v → R v x → R u x
      trans u v x (a, (b, m)) (c, (d, n)) = (KeepsLinked-trans s u v x a c, (d ∙ b, n ∙ m))

      identity_read : Machine NodeState
      identity_read =
          identify hash places run s pid (process_start_time run.launched_seen.lstart)
            (process_command run.launched_seen.command)

      saved_then : NodeState → Machine (Unit {0})
      saved_then t = save_state run.written t >> check run.released not_released

  launch-Outcome :
      (command : List Text) (s : NodeState) (o : Option ℕ) (w : World)
      → run.launched_pid ≡ o
      → Outcome run s w (launch hash places run command s o w)
  unfolding launch Linked
  launch-Outcome command s none w p = Outcome-err run s w not_launched
  launch-Outcome command s (some pid) w p =
      go (recorded hash places run s pid started) (recorded-KeepsLinked s pid started)
    where
      started : World
      started = record w { launched = w.launched ++ command ∷ [] }

      go :
          (r : Result MachineError (Unit {0}) × World)
          → KeepsLinked s started r.1 × Quiet started r.1
          → Outcome run s w (or_terminate hash places run pid r)
      go (ok u, v) (k, (l, q)) = (k, inr (command, pid, p, l, inl (refl, q)))
      go (err e, v) (k, (l, q)) = (
        terminate-KeepsLinked run pid s w v k,
        inr (
          command,
          pid,
          p,
          terminate-launched run pid v ∙ l,
          inr (e, refl, terminate-Terminated run pid w v q),
        ),
      )

  SameNetwork-Outcome :
      (s t : NodeState) (w : World) (r : Result MachineError (Unit {0}) × World)
      → SameNetwork s t
      → Outcome run t w r
      → Outcome run s w r
  SameNetwork-Outcome s t w r same ((n, k), left) =
      ((n, λ l h. k l (SameNetwork-LinkedTo w.networks s t same h)), left)

  start_new-Outcome : (s : NodeState) (w : World) → Outcome run s w (start_new hash places run s w)
  unfolding start_new check_report_mounts
  start_new-Outcome s w = past run s w _ _ (check-same _ no_nested w) (λ _ _.
      past run s w _ _ (require-same run.vmnet_run no_binary w) (λ vmnet _.
        past run s w _ _ (require-same run.krunkit no_binary w) (λ krunkit _.
          past run s w _ _
            (found_network-same (load_network run.root_known w.networks s.network_id) w)
            (λ n _. past run s w _ _ (directory-same (node_dir places s.name) w) (λ dir _.
              past run s w _ _ (check-same _ unsafe_disk w) (λ _ _.
                past run s w _ _ (no_overlap-same _ w) (λ _ _.
                  past run s w _ _ (directory-same (short_socket_path places s.name) w)
                    (λ expected _. past run s w _ _ (with_socket-same expected s w) (λ socketed h.
                      past run s w _ _ (prepare_report-same socketed w) (λ ready k.
                        past run s w _ _ (check-same run.log_opened no_log w) (λ _ _.
                          let (a, b) = with_socket-SameNetwork expected s socketed w h in
                          let (c, d) = prepare_report-SameNetwork socketed ready w k in
                          SameNetwork-Outcome s ready w _ (c ∙ a, d ∙ b)
                            (launch-Outcome (vmnet ∷ launch_args n krunkit dir ready) ready
                              run.launched_pid w refl))))))))))))

  start_owned-Outcome :
      (s : NodeState) (p : Bool × NodeState) (w : World)
      → SameNetwork s p.1
      → Outcome run s w (start_owned hash places run p w)
  unfolding start_owned
  start_owned-Outcome s (true, t) w same = (
    save_state-KeepsLinked s (record t { status = running }) run.written w same,
    inl (save_state-Quiet run.written (record t { status = running }) w),
  )
  start_owned-Outcome s (false, t) w same = SameNetwork-Outcome s t w _ same (start_new-Outcome t w)

  pub start_state-Outcome :
      (s : NodeState) (w : World) → Outcome run s w (start_state hash places run s w)
  unfolding start_state
  start_state-Outcome s w = start_owned-Outcome s (process_owned hash places run.at_start s) w (
    process_owned-keeps hash places NodeState.network_id (λ t a b. refl) run.at_start s,
    process_owned-keeps hash places NodeState.network_cidr (λ t a b. refl) run.at_start s,
  )

  -- A start runs at most one command, and sends signals only where it runs one and fails then: to
  -- the process that it ran or its group, SIGTERM to the group first, and SIGKILL to the group too
  -- where the process does not end in time.
  pub start_state-ToldToEnd :
      (s : NodeState) (w : World) → ToldToEnd run w (start_state hash places run s w)
  start_state-ToldToEnd s w = (start_state-Outcome s w).1
