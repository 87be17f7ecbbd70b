-- ===== src/Runtime/Krunkit/World/Steps.antt =====
-- How a block relates the world before it to its result and the world after it.
use kiac.Base.{
  Text, Result, ok, err, ◌≡◌, refl, sym, ◌∙◌, Bool, true, false, Option, none, some, subst,
}
use kiac.Base.Exec.{◌>>=◌, continue}
use kiac.Runtime.Krunkit.World.{
  Machine, MachineError, World, directory, load_state, loaded, require, check,
}
use kiac.Runtime.Krunkit.Nodes.{NodeError, NodeState, read_state}

-- A first part that leaves the world alone; where it fails, so does the block.
pub pure_then :
    {A B : Type 0} (Q : World → Result MachineError B × World → Type 0) (m : Machine A)
    (f : A → Machine B) (w : World)
    → ((e : MachineError) → Q w (err e, w))
    → (m w).1 ≡ w
    → ((a : A) → m w ≡ (ok a, w) → Q w (f a w))
    → Q w ((m >>= f) w)
unfolding ◌>>=◌
pure_then {A} {B} Q m f w fails same rest = go (m w) refl same
  where
    at_world :
        (r : Result MachineError A) {u v : World}
        → u ≡ v
        → ◌≡◌ {A = Result MachineError A × World} (r, u) (r, v)
    at_world r e = cc

    go : (r : Result MachineError A × World) → m w ≡ r → r.1 ≡ w → Q w (continue f r)
    go (ok a, v) e s = subst (λ (u : World). Q w (f a u)) (sym s) (rest a (e ∙ at_world (ok a) s))
    go (err x, v) e s = subst (λ (u : World). Q w (err x, u)) (sym s) (fails x)

module _ (R : World → World → Type 0) (trans : (u v w : World) → R u v → R v w → R u w) where
  -- A relation that is transitive relates the ends of a block, if it does for each of its parts.
  pub then-related :
      {A B : Type 0} (m : Machine A) (f : A → Machine B) (w : World)
      → R w (m w).1
      → ((a : A) (v : World) → m w ≡ (ok a, v) → R v (f a v).1)
      → R w ((m >>= f) w).1
  unfolding ◌>>=◌
  then-related {A} {B} m f w first rest = go (m w) refl first
    where
      go : (r : Result MachineError A × World) → m w ≡ r → R w r.1 → R w (continue f r).1
      go (ok a, v) e s = trans w v (f a v).1 s (rest a v e)
      go (err x, v) e s = s

pub require-same :
    {A : Type 0} (o : Option A) (e : MachineError) (w : World) → (require o e w).1 ≡ w
unfolding require
require-same none e w = refl
require-same (some a) e w = refl

pub check-same : (b : Bool) (e : MachineError) (w : World) → (check b e w).1 ≡ w
unfolding check
check-same true e w = refl
check-same false e w = refl

pub directory-same : (r : Result NodeError Text) (w : World) → (directory r w).1 ≡ w
unfolding directory
directory-same (ok dir) w = refl
directory-same (err e) w = refl

pub load_state-same : (name : Text) (w : World) → (load_state name w).1 ≡ w
unfolding load_state loaded
load_state-same name w = go (read_state w.nodes name)
  where
    go : (r : Result NodeError NodeState) → (loaded r w).1 ≡ w
    go (ok s) = refl
    go (err e) = refl

pub load_state-ok :
    (name : Text) (w v : World) (state : NodeState)
    → load_state name w ≡ (ok state, v)
    → read_state w.nodes name ≡ ok state
unfolding load_state loaded
load_state-ok name w v state h = go (read_state w.nodes name) h
  where
    go : (r : Result NodeError NodeState) → loaded r w ≡ (ok state, v) → r ≡ ok state
    go (ok s) h = cc
    go (err e) h = absurd (cc)
