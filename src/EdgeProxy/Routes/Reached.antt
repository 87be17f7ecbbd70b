-- ===== src/EdgeProxy/Routes/Reached.antt =====
-- The allowed targets once all the Services were added (cmd/kiac-edge-proxy/main.go).
use kiac.Base.{
  if◌then◌else◌, ◌===◌, Text, text, In, Result, ok, ℕ, ◌≡◌, refl, inl, inr, Bool, not, ◌&&◌, Option,
  none, some, List, [], ◌∷◌, subst, nat_eq, bool_eq, text_eq, pair_eq, int_eq,
}
use kiac.Base.Exec.{>>=-eq-ok, for_each, pure, ◌>>=◌}
use kiac.EdgeProxy.Routes.Complete.{Allows, Handles, add_ports-Allows, add_ports-adds}
use kiac.EdgeProxy.Cluster.{ClusterState, ServiceItem, ServicePort}
use kiac.EdgeProxy.Node.{Config, Node, ProxyError, RouteTable}
use kiac.EdgeProxy.Endpoints.{EndpointTarget}
use kiac.EdgeProxy.Iptables.{Iptables}
use kiac.EdgeProxy.Routes.Keeps.{Keeps, Keeps-for_each, Keeps-if, Keeps-ipt, Keeps-pure, Keeps-then}
use kiac.EdgeProxy.Hooks.{Method}
use kiac.EdgeProxy.Endpoints.Serves.{Serves, matching_endpoints-Serves}
use kiac.EdgeProxy.Routes.{
  add_service, put_balancer, skipped, add_parsed_ingress, edit, add_ingress, add_ingress_port,
  add_ports,
}
use kiac.Go.Net.Ip.{is_v4, parse_ip}

module _ (a : Text) where
  module _ (t : Iptables) (c : Config) (st : ClusterState) where
    open t use {Kernel}

    abbrev Grows : Method t (Unit {0}) → Type 0
    Grows = Keeps t (Allows a)

    edit-Grows :
        (f : RouteTable → RouteTable)
        → ((rt : RouteTable) → Allows a rt → Allows a (f rt))
        → Grows (edit t c f)
    unfolding edit
    edit-Grows f h = record { at = λ n s. h n.draft s }

    add_parsed_ingress-Grows :
        (svc : ServiceItem) (ip : Text) (o : Option (List ℕ))
        → Grows (add_parsed_ingress t c st svc ip o)
    unfolding add_parsed_ingress add_ingress_port put_balancer
    add_parsed_ingress-Grows svc ip none = Keeps-pure t _
    add_parsed_ingress-Grows svc ip (some bytes) =
        Keeps-if t _ (not (is_v4 bytes) && not c.has_ip6) _ _ (λ _. Keeps-pure t _)
          (λ _. Keeps-for_each t _ svc.ports _ (λ port k.
            Keeps-if t _ (skipped c port) _ _ (λ _. Keeps-pure t _)
              (λ w.
                Keeps-then t _ _ _ (Keeps-ipt t _ _ _)
                  (Keeps-then t _ _ _ (Keeps-ipt t _ _ _) (edit-Grows _ (λ rt s. s))))))

    after_ports-Grows :
        (svc : ServiceItem) (b : Bool)
        → Grows (if b then pure tt else for_each svc.ingress (add_ingress t c st svc))
    unfolding add_ingress
    after_ports-Grows svc b =
        Keeps-if t _ b _ _ (λ _. Keeps-pure t _)
          (λ _.
            Keeps-for_each t _ svc.ingress _
              (λ ip j. add_parsed_ingress-Grows svc ip (parse_ip ip)))

    add_service-Grows : (svc : ServiceItem) → Grows (add_service t c st svc)
    unfolding add_service
    add_service-Grows svc =
        Keeps-then t _ _ _ (edit-Grows _ (add_ports-Allows a c st svc svc.ports))
          (after_ports-Grows svc (not (svc.service_type === text "LoadBalancer")))

    pub add_service_ported :
        (svc : ServiceItem) (k : Node Kernel)
        → Allows a (add_ports c st svc svc.ports k.draft)
        → Allows a (add_service t c st svc k).1.draft
    unfolding add_service edit ◌>>=◌
    add_service_ported svc k h =
        (after_ports-Grows svc (not (svc.service_type === text "LoadBalancer"))).at
          (record k { draft = add_ports c st svc svc.ports k.draft }) h

    for_each_reaches :
        (xs : List ServiceItem) (svc : ServiceItem) (n m : Node Kernel)
        → In svc xs
        → ((k : Node Kernel) → Allows a (add_service t c st svc k).1.draft)
        → for_each xs (add_service t c st) n ≡ (ok tt, m)
        → Allows a m.draft
    unfolding for_each
    for_each_reaches [] svc n m i h e = absurd i
    for_each_reaches (x ∷ xs) svc n m (inl i) h e =
        let (_, k, e1, h1) = >>=-eq-ok (add_service t c st x) _ n e in
        subst (λ (r : Result ProxyError (Unit {0}) × Node Kernel). Allows a r.1.draft) h1
          ((Keeps-for_each t (Allows a) xs (add_service t c st) (λ y j. add_service-Grows y)).at k (
            subst (λ (r : Result ProxyError (Unit {0}) × Node Kernel). Allows a r.1.draft) e1
              (subst (λ (y : ServiceItem). Allows a (add_service t c st y n).1.draft) i (h n))))
    for_each_reaches (x ∷ xs) svc n m (inr i) h e =
        let (_, k, e1, h1) = >>=-eq-ok (add_service t c st x) _ n e in
        for_each_reaches xs svc k m i h h1

-- Once all the Services of a state were added without an error, each ready endpoint of a Service
-- port that is on this node and of a family that is handled is an allowed target.
pub add_services-allow :
    (t : Iptables) (c : Config) (st : ClusterState) (n m : Node t.Kernel) (svc : ServiceItem)
    (port : ServicePort) (v6 : Bool) (ep : EndpointTarget)
    → In svc st.services
    → In port svc.ports
    → Serves st svc port v6 ep
    → ep.node_name ≡ c.node_name
    → Handles c v6
    → for_each st.services (add_service t c st) n ≡ (ok tt, m)
    → In ep.address m.draft.allowed_targets
add_services-allow t c st n m svc port v6 ep i j s e f h =
    for_each_reaches ep.address t c st st.services svc n m i
      (λ k. add_service_ported ep.address t c st svc k (
        add_ports-adds ep.address c st svc v6 ep f e refl svc.ports port k.draft j
          ((matching_endpoints-Serves st svc port v6 ep).1 s)))
      h
