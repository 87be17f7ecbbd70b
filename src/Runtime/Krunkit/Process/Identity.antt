-- ===== src/Runtime/Krunkit/Process/Identity.antt =====
-- The identity of a process: its start and the hash of its command.
use kiac.Base.{
  if◌then◌else◌, ◌===◌, Text, Result, ok, err, Bool-cases, ◌≢◌, ◌⊎◌, inl, inr, ◌≡◌, refl, sym, ap,
  ◌∙◌, Bool, true, false, not, ◌&&◌, ◌||◌, Option, none, some, List, [], ◌∷◌, arith, subst,
  is_positive, text_beq, text_beq_iff, nat_eq, bool_eq, text_eq, pair_eq, int_eq,
}
use kiac.Runtime.Krunkit.Process.{
  known_command, not_empty, Seen, process_command, process_start_time, with_command, with_start,
  poll, process_owned, in_command, after_look,
}
use kiac.Runtime.Krunkit.Nodes.{NodeError, NodeState, Places, node_dir}
use kiac.Go.Strings.{trim_space, contains}

pair_of : (Text → Text) → Option Text → Option Text → Option (Text × Text)
pair_of hash none command = none
pair_of hash (some started) none = none
pair_of hash (some started) (some command) = some (started, hash command)

-- The identity of the process that is seen, if `ps` tells it.
pub identity : (Text → Text) → Seen → Option (Text × Text)
unfolding pair_of
identity hash seen = pair_of hash (process_start_time seen.lstart) (process_command seen.command)

-- The state has an identity, so that none is taken over.
abbrev pub Known : NodeState → Type 0
Known s = (text_beq s.process_start [] ≡ false) × (text_beq s.process_command_hash [] ≡ false)

process_start_time-some :
    (out : Option Text) (started : Text)
    → process_start_time out ≡ some started
    → text_beq started [] ≡ false
unfolding process_start_time not_empty text_beq
process_start_time-some none started h = absurd (cc)
process_start_time-some (some out) started h = go (trim_space out) h
  where
    go : (s : Text) → (not_empty s ≡ some started) → text_beq started [] ≡ false
    go [] h = absurd (cc)
    go (c ∷ s) h =
        let same : c ∷ s ≡ started = cc in subst (λ (t : Text). text_beq t [] ≡ false) same refl

-- What is kept of an owned process: its start, the hash of its command, and the same process id.
abbrev pub Holds : Text → Text → NodeState → NodeState → Type 0
Holds started command_hash s t =
    (t.process_start ≡ started) × (t.process_command_hash ≡ command_hash) × (t.pid ≡ s.pid)

-- The command names the directory or the socket of the machine.
abbrev pub Names : Places → NodeState → Text → Type 0
Names places s command =
    ((dir : Text) × (node_dir places s.name ≡ ok dir) × (contains dir command ≡ true))
    ⊎ ((s.rest_socket ≢ []) × (contains s.rest_socket command ≡ true))

-- A process that a state recognises: the one that it has recorded, or, if it lacks the start or the
-- command, one that does not contradict what it has and whose command names the machine.
abbrev pub Recognises : (Text → Text) → Places → NodeState → Text → Text → Type 0
Recognises hash places s started command =
    ((s.process_start ≡ started) × (s.process_command_hash ≡ hash command))
    ⊎ (((s.process_start ≡ []) ⊎ ((s.process_start ≡ started) × (s.process_command_hash ≡ [])))
        × Names places s command)

first_of : {A : Type 0} {b c : Bool} {x y : A} → ◌≡◌ {A = Bool × A} (b, x) (c, y) → b ≡ c
first_of e = cc

second_of : {A : Type 0} {b c : Bool} {x y : A} → ◌≡◌ {A = Bool × A} (b, x) (c, y) → x ≡ y
second_of e = cc

module _ (hash : Text → Text) (places : Places) where
  known_command-Holds :
      (s t : NodeState) (started command : Text)
      → (not (s.process_start === []) && not (s.process_start === started)) ≡ false
      → known_command hash places s started command ≡ (true, t)
      → Holds started (hash command) s t × Recognises hash places s started command
  unfolding known_command
  known_command-Holds s t started command a h =
      go (not (s.process_start === []) && not (s.process_command_hash === [])) refl
        (in_command (node_dir places s.name) command
          || (not (s.rest_socket === []) && contains s.rest_socket command))
        refl h
    where
      in_directory :
          (r : Result NodeError Text)
          → node_dir places s.name ≡ r
          → in_command r command ≡ true
          → (dir : Text) × (node_dir places s.name ≡ ok dir) × (contains dir command ≡ true)
      in_directory (err e) q i = absurd (cc)
      in_directory (ok dir) q i = (dir, q, i)

      names :
          (in_command (node_dir places s.name) command
              || (not (s.rest_socket === []) && contains s.rest_socket command))
            ≡ true
          → Names places s command
      names e = elim (Bool-cases (in_command (node_dir places s.name) command)) [
        | inl i ↦ inl (in_directory (node_dir places s.name) refl i)
        | inr i ↦ inr (ground (arith, text_beq_iff s.rest_socket []))
      ]

      legacy :
          (not (s.process_start === []) && not (s.process_command_hash === [])) ≡ false
          → (s.process_start ≡ []) ⊎ ((s.process_start ≡ started) × (s.process_command_hash ≡ []))
      legacy k = elim (Bool-cases (s.process_start === [])) [
        | inl e ↦ inl ((text_beq_iff s.process_start []).0 e)
        | inr e ↦ inr (
          (text_beq_iff s.process_start started).0 (ground arith),
          (text_beq_iff s.process_command_hash []).0 (ground arith),
        )
      ]

      go :
          (known : Bool)
          → (not (s.process_start === []) && not (s.process_command_hash === [])) ≡ known
          → (named : Bool)
          → (in_command (node_dir places s.name) command
              || (not (s.rest_socket === []) && contains s.rest_socket command))
            ≡ named
          → ◌≡◌ {A = Bool × NodeState}
              (if known
                then (s.process_command_hash === hash command, s)
                else if named
                then (
                  true,
                  record s { process_start = started; process_command_hash = hash command },
                )
                else (false, s))
              (true, t)
          → Holds started (hash command) s t × Recognises hash places s started command
      go true k named q h =
          let a' = (text_beq_iff s.process_start started).0 (ground arith) in
          let b = (text_beq_iff s.process_command_hash (hash command)).0 (first_of h) in
          (subst (Holds started (hash command) s) (second_of h) (a', b, refl), inl (a', b))
      go false k true q h = (
        subst (Holds started (hash command) s) (second_of h) (refl, refl, refl),
        inr (legacy k, names q),
      )
      go false k false q h = absurd (let e = first_of h in cc)

  -- An owned process is one that the state recognises, and has an identity, which the state then has.
  pub process_owned-Holds :
      (seen : Seen) (s t : NodeState)
      → process_owned hash places seen s ≡ (true, t)
      → (started : Text) × (command : Text) × (process_start_time seen.lstart ≡ some started)
        × (process_command seen.command ≡ some command)
        × Holds started (hash command) s t
        × Recognises hash places s started command
  unfolding process_owned with_start with_command
  process_owned-Holds seen s t h =
      go (is_positive s.pid && seen.alive) (process_start_time seen.lstart) refl
        (process_command seen.command) refl h
    where
      inner :
          (started command : Text)
          → (b : Bool) → (not (s.process_start === []) && not (s.process_start === started)) ≡ b
          → (if b then (false, s) else known_command hash places s started command) ≡ (true, t)
          → Holds started (hash command) s t × Recognises hash places s started command
      inner started command true e h = absurd (let x = first_of h in cc)
      inner started command false e h = known_command-Holds s t started command e h

      go :
          (b : Bool) (o : Option Text)
          → process_start_time seen.lstart ≡ o
          → (c : Option Text) → process_command seen.command ≡ c
          → (if b then with_start hash places s o c else (false, s)) ≡ (true, t)
          → (started : Text) × (command : Text) × (process_start_time seen.lstart ≡ some started)
            × (process_command seen.command ≡ some command)
            × Holds started (hash command) s t
            × Recognises hash places s started command
      go false o p c q h = absurd (let x = first_of h in cc)
      go true none p c q h = absurd (let x = first_of h in cc)
      go true (some started) p none q h = absurd (let x = first_of h in cc)
      go true (some started) p (some command) q h =
          let (holds, known) = inner started command _ refl h in
          (started, command, p, q, holds, known)

  module _ (s : NodeState) (k : Known s) where
    known_command-same :
        (started command : Text)
        → known_command hash places s started command ≡ (s.process_command_hash === hash command, s)
    unfolding known_command
    known_command-same started command = rw k.0 (rw k.1 refl)

    -- A state with an identity is not changed by a look.
    pub process_owned-same : (seen : Seen) → (process_owned hash places seen s).1 ≡ s
    unfolding process_owned with_start with_command
    process_owned-same seen =
        go (is_positive s.pid && seen.alive) (process_start_time seen.lstart)
          (process_command seen.command)
      where
        inner :
            (b : Bool) (started command : Text)
            → (if b then (false, s) else known_command hash places s started command).1 ≡ s
        inner true started command = refl
        inner false started command =
            ap (λ (p : Bool × NodeState). p.1) (known_command-same started command)

        go :
            (b : Bool) (o c : Option Text)
            → (if b then with_start hash places s o c else (false, s)).1 ≡ s
        go false o c = refl
        go true none c = refl
        go true (some started) none = refl
        go true (some started) (some command) = inner _ started command

    pub poll-same : (looks : List Seen) → poll hash places looks s ≡ s
    unfolding poll
    poll-same [] = refl
    poll-same (seen ∷ looks) =
        go (process_owned hash places seen s) (process_owned-same seen) (poll-same looks)
      where
        go :
            (p : Bool × NodeState)
            → p.1 ≡ s
            → poll hash places looks s ≡ s
            → after_look p (poll hash places looks p.1) ≡ s
        go (true, t) e h = ap (poll hash places looks) e ∙ h
        go (false, t) e h = e

module _ (hash : Text → Text) (places : Places) where
  -- An owned process is the one whose identity the state has after the look.
  pub process_owned-identity :
      (seen : Seen) (s t : NodeState)
      → process_owned hash places seen s ≡ (true, t)
      → (identity hash seen ≡ some (t.process_start, t.process_command_hash)) × (t.pid ≡ s.pid)
  unfolding identity pair_of
  process_owned-identity seen s t h =
      let (started, command, p, q, (a, b, c), _) = process_owned-Holds hash places seen s t h in
      ((rw p (rw q (cc))), c)

  pub process_owned-Known :
      (seen : Seen) (s t : NodeState)
      → ((command : Text) → text_beq (hash command) [] ≡ false)
      → process_owned hash places seen s ≡ (true, t)
      → Known t
  process_owned-Known seen s t digest h =
      let (started, command, p, q, (a, b, c), _) = process_owned-Holds hash places seen s t h in
      (
        subst (λ (x : Text). text_beq x [] ≡ false) (sym a)
            (process_start_time-some seen.lstart started p),
        subst (λ (x : Text). text_beq x [] ≡ false) (sym b) (digest command),
      )

  -- What a look at a machine that is owned has seen.
  abbrev pub Owned : NodeState → Seen → Type 0
  Owned s seen =
      (started : Text) × (command : Text) × (process_start_time seen.lstart ≡ some started)
      × (process_command seen.command ≡ some command)
      × Recognises hash places s started command

  pub process_owned-Owned :
      (seen : Seen) (s t : NodeState) → process_owned hash places seen s ≡ (true, t) → Owned s seen
  process_owned-Owned seen s t h =
      let (started, command, p, q, _, r) = process_owned-Holds hash places seen s t h in
      (started, command, p, q, r)
