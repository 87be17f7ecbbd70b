-- ===== src/Runtime/Krunkit/World/Sends.antt =====
-- Which signals a block sends.
use kiac.Base.Exec.{◌>>=◌}
use kiac.Runtime.Krunkit.World.Steps.{then-related}
use kiac.Base.{
  All, All-append, ok, ℤ, ◌≡◌, refl, sym, ap, ◌∙◌, List, [], ◌++◌, append-nil, append_assoc,
}
use kiac.Runtime.Krunkit.World.{Machine, World, send}
use kiac.Runtime.Krunkit.Process.{
  Sent, Signal, Target, delivered, group, kill_calls, no_process, not_permitted, other_error,
  single,
}

-- The signals that were sent between two states all have a property.
abbrev pub SendsOnly : (Target × Signal → Type 0) → World → World → Type 0
SendsOnly P w after =
    (sent : List (Target × Signal)) × (after.signals ≡ w.signals ++ sent) × All P sent

module _ (P : Target × Signal → Type 0) where
  pub SendsOnly-none : (w after : World) → after.signals ≡ w.signals → SendsOnly P w after
  SendsOnly-none w after e = ([], e ∙ sym (append-nil w.signals), tt)

  pub SendsOnly-send :
      (answer : Sent) (pid : ℤ) (signal : Signal) (w : World)
      → P (group pid, signal)
      → P (single pid, signal)
      → SendsOnly P w (send answer pid signal w)
  unfolding kill_calls
  SendsOnly-send answer pid signal w g s =
      (kill_calls answer pid signal, refl, kill_calls-All answer)
    where
      kill_calls-All : (a : Sent) → All P (kill_calls a pid signal)
      kill_calls-All delivered = (g, tt)
      kill_calls-All no_process = (g, (s, tt))
      kill_calls-All not_permitted = (g, (s, tt))
      kill_calls-All other_error = (g, tt)

  pub SendsOnly-trans : (u v w : World) → SendsOnly P u v → SendsOnly P v w → SendsOnly P u w
  SendsOnly-trans u v w (s, e, a) (t, f, b) = (
    s ++ t,
    f ∙ (ap (λ (x : List (Target × Signal)). x ++ t) e ∙ append_assoc u.signals s t),
    All-append P s t a b,
  )

  -- A block sends what its first part and the rest send.
  pub SendsOnly-then :
      {A B : Type 0} (m : Machine A) (f : A → Machine B) (w : World)
      → SendsOnly P w (m w).1
      → ((a : A) (v : World) → m w ≡ (ok a, v) → SendsOnly P v (f a v).1)
      → SendsOnly P w ((m >>= f) w).1
  SendsOnly-then = then-related (SendsOnly P) SendsOnly-trans
