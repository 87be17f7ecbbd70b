-- ===== src/EdgeProxy/Hooks/Families.antt =====
-- Loops over the families of the proxy (cmd/kiac-edge-proxy/main.go).
use kiac.Base.{
  if◌then◌else◌, Bool-cases, Result, ok, ◌≡◌, sym, ap, ◌∙◌, inl, inr, Bool, true, false, [], ◌∷◌,
}
use kiac.Base.Exec.{>>=-eq-ok, for_each}
use kiac.EdgeProxy.Iptables.{Family, ipv4, ipv6, same_family, Iptables}
use kiac.EdgeProxy.Node.{Config, Node, families}
use kiac.EdgeProxy.Hooks.{Method, ProxyError}

-- The families that the proxy programs.
abbrev pub handled : Config → Family → Bool
handled c ipv4 = true
handled c ipv6 = c.has_ip6

module _ (t : Iptables) {X : Type 0} where
  open t use {Kernel}

  module _ (P : Node Kernel → Family → X) (F : X → X) (body : Family → Method t (Unit {0}))
      (step : (f : Family) (n m : Node Kernel) (g : Family)
        → body f n ≡ (ok tt, m)
        → P m g ≡ (if same_family f g then F (P n g) else P n g)) where
    two_families :
        (n m : Node Kernel) (g : Family)
        → for_each (ipv4 ∷ ipv6 ∷ []) body n ≡ (ok tt, m)
        → P m g ≡ F (P n g)
    unfolding for_each
    two_families n m g h =
        let (_, k, e, h') = >>=-eq-ok (body ipv4) _ n h in
        let (_, l, e', d) = >>=-eq-ok (body ipv6) _ k h' in
        by_family g (step ipv4 n k g e) (step ipv6 k l g e')
          (ap (λ (p : Result ProxyError (Unit {0}) × Node Kernel). P p.1 g) d)
      where
        by_family :
            (g : Family) {k l : Node Kernel}
            → P k g ≡ (if same_family ipv4 g then F (P n g) else P n g)
            → P l g ≡ (if same_family ipv6 g then F (P k g) else P k g)
            → P l g ≡ P m g
            → P m g ≡ F (P n g)
        by_family ipv4 p q r = cc
        by_family ipv6 p q r = cc

    one_family :
        (n m : Node Kernel) (g : Family)
        → for_each (ipv4 ∷ []) body n ≡ (ok tt, m)
        → P m g ≡ (if same_family ipv4 g then F (P n g) else P n g)
    unfolding for_each
    one_family n m g h =
        let (_, k, e, d) = >>=-eq-ok (body ipv4) _ n h in
        ap (λ (p : Result ProxyError (Unit {0}) × Node Kernel). P p.1 g) (sym d) ∙ step ipv4 n k g e

    -- Each family that is handled has the effect of the body, and the other none.
    pub families_done :
        (c : Config) (n m : Node Kernel) (g : Family)
        → for_each (families c) body n ≡ (ok tt, m)
        → P m g ≡ (if handled c g then F (P n g) else P n g)
    unfolding families
    families_done c n m g h = elim (Bool-cases c.has_ip6) [
      | inl both ↦ by_family g (two_families n m g (rw both at h)) both
      | inr only ↦ by_family' g (one_family n m g (rw only at h)) only
    ]
      where
        by_family :
            (g : Family)
            → P m g ≡ F (P n g)
            → c.has_ip6 ≡ true
            → P m g ≡ (if handled c g then F (P n g) else P n g)
        by_family ipv4 p b = p
        by_family ipv6 p b = rw b p

        by_family' :
            (g : Family)
            → P m g ≡ (if same_family ipv4 g then F (P n g) else P n g)
            → c.has_ip6 ≡ false
            → P m g ≡ (if handled c g then F (P n g) else P n g)
        by_family' ipv4 p b = p
        by_family' ipv6 p b = rw b p
