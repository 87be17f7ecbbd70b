-- ===== src/Runtime/Krunkit/Process/Keeps.antt =====
-- The fields of a state in a look at its process (pkg/runtime/krunkit.go).
use kiac.Base.{
  if◌then◌else◌, ◌===◌, Text, ◌≡◌, refl, ◌∙◌, Bool, true, false, ◌&&◌, Option, none, some, List, [],
  ◌∷◌, is_positive, nat_eq, bool_eq, text_eq, pair_eq, int_eq,
}
use kiac.Runtime.Krunkit.Process.{
  known_command, with_start, with_command, Seen, after_look, poll, process_command, process_owned,
  process_start_time,
}
use kiac.Runtime.Krunkit.Nodes.{NodeState, Places}

-- A field that is not part of the identity of a process.
abbrev pub Apart : {A : Type 0} → (NodeState → A) → Type 0
Apart f =
    (t : NodeState) (started digest : Text)
    → f (record t { process_start = started; process_command_hash = digest }) ≡ f t

module _ (hash : Text → Text) (places : Places) {A : Type 0} (f : NodeState → A)
    (apart : Apart f) where
  pub process_owned-keeps :
      (seen : Seen) (s : NodeState) → f (process_owned hash places seen s).1 ≡ f s
  unfolding process_owned with_start with_command known_command
  process_owned-keeps seen s =
      go (is_positive s.pid && seen.alive) (process_start_time seen.lstart)
        (process_command seen.command)
    where
      known :
          (b c : Bool) (started command : Text)
          → f
              (if◌then◌else◌ {A = Bool × NodeState} b
                (s.process_command_hash === hash command, s)
                (if c
                  then (
                    true,
                    record s { process_start = started; process_command_hash = hash command },
                  )
                  else (false, s))).1
            ≡ f s
      known true c started command = refl
      known false true started command = apart s started (hash command)
      known false false started command = refl

      inner :
          (b : Bool) (started command : Text)
          → f
              (if◌then◌else◌ {A = Bool × NodeState} b
                (false, s)
                (known_command hash places s started command)).1
            ≡ f s
      inner true started command = refl
      inner false started command = known _ _ started command

      go :
          (b : Bool) (o c : Option Text)
          → f (if◌then◌else◌ {A = Bool × NodeState} b (with_start hash places s o c) (false, s)).1
            ≡ f s
      go false o c = refl
      go true none c = refl
      go true (some started) none = refl
      go true (some started) (some command) = inner _ started command

  pub poll-keeps : (looks : List Seen) (s : NodeState) → f (poll hash places looks s) ≡ f s
  unfolding poll
  poll-keeps [] s = refl
  poll-keeps (seen ∷ looks) s =
      go (process_owned hash places seen s) (process_owned-keeps seen s) (poll-keeps looks)
    where
      go :
          (p : Bool × NodeState)
          → f p.1 ≡ f s
          → ((t : NodeState) → f (poll hash places looks t) ≡ f t)
          → f (after_look p (poll hash places looks p.1)) ≡ f s
      go (true, t) e h = h t ∙ e
      go (false, t) e h = e
