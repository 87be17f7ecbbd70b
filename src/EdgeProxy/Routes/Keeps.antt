-- ===== src/EdgeProxy/Routes/Keeps.antt =====
-- The draft of the route table under `addServiceRules` (cmd/kiac-edge-proxy/main.go).
use kiac.Base.{
  if◌then◌else◌, ◌===◌, Text, text, In, Result, ok, err, ℕ, ◌≡◌, refl, inl, inr, Bool, true, false,
  not, ◌&&◌, Option, none, some, List, [], ◌∷◌, arith, nat_eq, bool_eq, text_eq, pair_eq, int_eq,
}
use kiac.Base.Exec.{pure, ◌>>=◌, ◌>>◌, continue, for_each}
use kiac.Go.Net.Ip.{parse_ip, is_v4}
use kiac.EdgeProxy.Cluster.{ServiceItem, ServicePort, ClusterState}
use kiac.EdgeProxy.Iptables.{Family, Command, Iptables}
use kiac.EdgeProxy.Node.{Config, RouteTable, Node, ipt, ProxyError}
use kiac.EdgeProxy.Hooks.{Method}
use kiac.EdgeProxy.Routes.Sound.{IsSound, add_ports-IsSound, put_balancer-IsSound}
use kiac.EdgeProxy.Routes.{
  skipped, edit, add_ingress_port, add_parsed_ingress, add_ingress, add_service,
}

-- Methods that keep a property of the draft.
module _ (t : Iptables) (P : RouteTable → Type 0) where
  open t use {Kernel}

  pub record Keeps (m : Method t (Unit {0})) : Type 0 where
    pub at : (n : Node Kernel) → P n.draft → P (m n).1.draft

  pub Keeps-pure : Keeps (pure tt)
  Keeps-pure = record { at = λ n h. h }

  pub Keeps-ipt : (f : Family) (cmd : Command) → Keeps (ipt t f cmd)
  unfolding ipt
  Keeps-ipt f cmd = record { at = λ n h. h }

  pub Keeps-then : (m m' : Method t (Unit {0})) → Keeps m → Keeps m' → Keeps (m >> m')
  unfolding ◌>>=◌
  Keeps-then m m' p q = record { at = λ n h. go (m n) (p.at n h) }
    where
      go :
          (r : Result ProxyError (Unit {0}) × Node Kernel)
          → P r.1.draft
          → P (continue (λ _. m') r).1.draft
      go (ok a, k) h = q.at k h
      go (err e, k) h = h

  pub Keeps-if :
      (b : Bool) (m m' : Method t (Unit {0}))
      → (b ≡ true → Keeps m)
      → (b ≡ false → Keeps m')
      → Keeps (if b then m else m')
  Keeps-if true m m' p q = p refl
  Keeps-if false m m' p q = q refl

  pub Keeps-for_each :
      {A : Type 0} (xs : List A) (body : A → Method t (Unit {0}))
      → ((x : A) → In x xs → Keeps (body x))
      → Keeps (for_each xs body)
  unfolding for_each
  Keeps-for_each [] body h = Keeps-pure
  Keeps-for_each (x ∷ xs) body h =
      Keeps-then (body x) (for_each xs body) (h x (inl refl))
        (Keeps-for_each xs body (λ y i. h y (inr i)))

module _ (t : Iptables) (c : Config) (st : ClusterState) where
  open t use {Kernel}

  edit-Keeps :
      (f : RouteTable → RouteTable)
      → ((rt : RouteTable) → IsSound c st rt → IsSound c st (f rt))
      → Keeps t (IsSound c st) (edit t c f)
  unfolding edit
  edit-Keeps f h = record { at = λ n s. h n.draft s }

  add_ingress_port-Keeps :
      (svc : ServiceItem) (ip : Text) (bytes : List ℕ) (port : ServicePort)
      → In svc st.services
      → (svc.service_type === text "LoadBalancer") ≡ true
      → In ip svc.ingress
      → parse_ip ip ≡ some bytes
      → In port svc.ports
      → Keeps t (IsSound c st) (add_ingress_port t c st svc ip (not (is_v4 bytes)) port)
  unfolding add_ingress_port
  add_ingress_port-Keeps svc ip bytes port i b j p k =
      Keeps-if t _ (skipped c port) _ _ (λ _. Keeps-pure t _)
        (λ w. Keeps-then t _ _ _ (Keeps-ipt t _ _ _) (
          Keeps-then t _ _ _ (Keeps-ipt t _ _ _)
            (edit-Keeps _ (λ rt s. put_balancer-IsSound c st svc i port ip bytes rt k j b w p s))))

  add_parsed_ingress-Keeps :
      (svc : ServiceItem) (ip : Text) (o : Option (List ℕ))
      → In svc st.services
      → (svc.service_type === text "LoadBalancer") ≡ true
      → In ip svc.ingress
      → parse_ip ip ≡ o
      → Keeps t (IsSound c st) (add_parsed_ingress t c st svc ip o)
  unfolding add_parsed_ingress
  add_parsed_ingress-Keeps svc ip none i b j p = Keeps-pure t _
  add_parsed_ingress-Keeps svc ip (some bytes) i b j p =
      Keeps-if t _ (not (is_v4 bytes) && not c.has_ip6) _ _ (λ _. Keeps-pure t _)
        (λ _.
          Keeps-for_each t _ svc.ports _
            (λ port k. add_ingress_port-Keeps svc ip bytes port i b j p k))

  add_service-Keeps :
      (svc : ServiceItem) → In svc st.services → Keeps t (IsSound c st) (add_service t c st svc)
  unfolding add_service add_ingress
  add_service-Keeps svc i =
      Keeps-then t _ _ _
        (edit-Keeps _ (λ rt s. add_ports-IsSound c st svc i svc.ports rt (λ p k. k) s))
        (Keeps-if t _ (not (svc.service_type === text "LoadBalancer")) _ _ (λ _. Keeps-pure t _)
          (λ b.
            Keeps-for_each t _ svc.ingress _
              (λ ip j. add_parsed_ingress-Keeps svc ip (parse_ip ip) i (ground arith) j refl)))

  pub add_services-Keeps : Keeps t (IsSound c st) (for_each st.services (add_service t c st))
  add_services-Keeps = Keeps-for_each t _ st.services _ add_service-Keeps

  -- Adding the Services of a state to a draft whose entries all come from the state leaves one
  -- whose entries all come from it, whether or not an error ends the loop: the allowed targets are
  -- ready endpoints on this node, and the routes are those of LoadBalancer addresses and NodePorts
  -- of the state.
  pub add_services-IsSound :
      (n : Node Kernel)
      → IsSound c st n.draft
      → IsSound c st (for_each st.services (add_service t c st) n).1.draft
  add_services-IsSound = add_services-Keeps.at
