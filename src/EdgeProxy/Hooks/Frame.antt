-- ===== src/EdgeProxy/Hooks/Frame.antt =====
-- The routes and the snapshot under the methods on the hooks (cmd/kiac-edge-proxy/main.go).
use kiac.Base.{
  if◌then◌else◌, Text, Result, ok, err, ◌≡◌, refl, ◌∙◌, Bool, true, false, List, [], ◌∷◌,
}
use kiac.Base.Exec.{pure, ◌>>=◌, continue, for_each}
use kiac.EdgeProxy.Iptables.{Family, Chain, Rule, Command, Iptables}
use kiac.EdgeProxy.Node.{Config, RouteTable, Node, ProxyError, families, ipt, attempt, ipt_ok}
use kiac.EdgeProxy.Hooks.{
  Method, ensure_jump, ensure_family, ensure_hook, family_missing, any_missing, rules_missing,
}

module _ (t : Iptables) where
  open t use {Kernel}

  -- All of the state but the kernel.
  abbrev pub rest_of : Node Kernel → RouteTable × RouteTable × Text
  rest_of n = (n.draft, n.routes, n.last_snapshot)

  pub record Frame {A : Type 0} (m : Method t A) : Type 0 where
    pub at : (n : Node Kernel) → rest_of (m n).1 ≡ rest_of n

  Frame-pure : {A : Type 0} (a : A) → Frame (pure a)
  Frame-pure a = record { at = λ n. refl }

  Frame-ipt : (f : Family) (cmd : Command) → Frame (ipt t f cmd)
  unfolding ipt
  Frame-ipt f cmd = record { at = λ n. refl }

  Frame-attempt : (f : Family) (cmd : Command) → Frame (attempt t f cmd)
  unfolding attempt
  Frame-attempt f cmd = record { at = λ n. refl }

  Frame-ipt_ok : (f : Family) (cmd : Command) → Frame (ipt_ok t f cmd)
  unfolding ipt_ok
  Frame-ipt_ok f cmd = record { at = λ n. refl }

  Frame-bind :
      {A B : Type 0} (m : Method t A) (f : A → Method t B)
      → Frame m
      → ((a : A) → Frame (f a))
      → Frame (m >>= f)
  unfolding ◌>>=◌
  Frame-bind {A} {B} m f p q = record { at = λ n. go (m n) n (p.at n) }
    where
      go :
          (r : Result ProxyError A × Node Kernel) (n : Node Kernel)
          → rest_of r.1 ≡ rest_of n
          → rest_of (continue f r).1 ≡ rest_of n
      go (ok a, k) n e = (q a).at k ∙ e
      go (err x, k) n e = e

  Frame-if :
      {A : Type 0} (b : Bool) (m m' : Method t A) → Frame m → Frame m' → Frame (if b then m else m')
  Frame-if true m m' p q = p
  Frame-if false m m' p q = q

  Frame-for_each :
      {A : Type 0} (xs : List A) (body : A → Method t (Unit {0}))
      → ((x : A) → Frame (body x))
      → Frame (for_each xs body)
  unfolding for_each
  Frame-for_each [] body h = Frame-pure tt
  Frame-for_each (x ∷ xs) body h =
      Frame-bind (body x) (λ _. for_each xs body) (h x) (λ _. Frame-for_each xs body h)

  ruleset frame_rules =
      (Frame-pure, Frame-ipt, Frame-attempt, Frame-ipt_ok, Frame-bind, Frame-if, Frame-for_each)

  ensure_jump-Frame : (f : Family) (ch : Chain) (r : Rule) → Frame (ensure_jump t f ch r)
  unfolding ensure_jump
  ensure_jump-Frame f ch r = search frame_rules

  ensure_family-Frame : (f : Family) → Frame (ensure_family t f)
  unfolding ensure_family
  ensure_family-Frame f = search (frame_rules, ensure_jump-Frame)

  pub ensure_hook-Frame : (c : Config) → Frame (ensure_hook t c)
  unfolding ensure_hook
  ensure_hook-Frame c = Frame-for_each (families c) (ensure_family t) ensure_family-Frame

  family_missing-Frame : (c : Config) (f : Family) → Frame (family_missing t c f)
  unfolding family_missing
  family_missing-Frame c f = search frame_rules depth 12

  any_missing-Frame : (c : Config) (fs : List Family) → Frame (any_missing t c fs)
  unfolding any_missing
  any_missing-Frame c [] = Frame-pure false
  any_missing-Frame c (f ∷ fs) =
      Frame-bind (family_missing t c f) _ (family_missing-Frame c f)
        (λ b. Frame-if b _ _ (Frame-pure true) (any_missing-Frame c fs))

  pub rules_missing-Frame : (c : Config) → Frame (rules_missing t c)
  unfolding rules_missing
  rules_missing-Frame c = any_missing-Frame c (families c)
