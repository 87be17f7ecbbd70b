-- ===== src/EdgeProxy/Routes/Redirects.antt =====
-- The redirects of a snapshot as a list, beside `addServiceRules` (cmd/kiac-edge-proxy/main.go).
use mathlib.Core.Path.{fun_ext}
use kiac.Base.{
  if◌then◌else◌, ◌===◌, Text, text, concat_map, ℕ, ◌≡◌, refl, Bool, true, false, not, ◌&&◌, Option,
  none, some, List, [], ◌∷◌, ◌++◌, arith, subst, nat_eq, bool_eq, text_eq, pair_eq, int_eq,
}
use kiac.Base.Exec.{pure, for_each}
use kiac.Go.Net.Ip.{parse_ip, is_v4}
use kiac.EdgeProxy.Cluster.{ServiceItem, ServicePort, ClusterState}
use kiac.EdgeProxy.Iptables.{
  Family, Chain, prerouting, output, edge, edge_output, Rule, same_family, same_chain, Iptables,
}
use kiac.EdgeProxy.Node.{Config, RouteTable, bin_for}
use kiac.EdgeProxy.Hooks.{Method}
use kiac.EdgeProxy.Routes.{
  skipped, redirect, edit, put_balancer, add_ports, add_ingress_port, add_parsed_ingress,
  add_ingress, add_service,
}
use kiac.EdgeProxy.Routes.Appends.{
  Added, Appends, nothing, Appends-if, Appends-pure, Appends-modify, Appends-ipt, Appends-then,
  Appends-for_each,
}

-- The two chains of the proxy.
abbrev pub is_edge : Chain → Bool
is_edge prerouting = false
is_edge output = false
is_edge edge = true
is_edge edge_output = true

port_redirects : Config → Text → Bool → Family → ServicePort → List Rule
port_redirects c ip v6 g port =
    if same_family (bin_for v6) g && not (skipped c port) then redirect c ip port ∷ [] else []

ingress_redirects : Config → ServiceItem → Family → Text → Option (List ℕ) → List Rule
ingress_redirects c svc g ip none = []
ingress_redirects c svc g ip (some bytes) =
    let v6 = not (is_v4 bytes) in
    if v6 && not c.has_ip6 then [] else concat_map (port_redirects c ip v6 g) svc.ports

service_redirects : Config → Family → ServiceItem → List Rule
service_redirects c g svc =
    if svc.service_type === text "LoadBalancer"
    then concat_map (λ ip. ingress_redirects c svc g ip (parse_ip ip)) svc.ingress
    else []

-- One redirect for each port, that is not skipped, of each LoadBalancer IP of the family.
pub redirects : Config → ClusterState → Family → List Rule
unfolding port_redirects ingress_redirects service_redirects
redirects c st g = concat_map (service_redirects c g) st.services

concat_map_if :
    {A B : Type 0} (b : Bool) (f : A → List B) (xs : List A)
    → concat_map (λ x. if b then f x else []) xs ≡ (if b then concat_map f xs else [])
concat_map_if true f xs = refl
concat_map_if false f [] = refl
concat_map_if false f (x ∷ xs) = concat_map_if false f xs

module _ (t : Iptables) (c : Config) where
  -- The rules go to the chains of the proxy alone.
  abbrev pub on_edges : (Family → List Rule) → Added t
  on_edges rs g ch = if is_edge ch then rs g else []

  cast :
      {m : Method t (Unit {0})} {a b : Added t}
      → ((g : Family) (ch : Chain) → a g ch ≡ b g ch)
      → Appends t m a
      → Appends t m b
  cast {m} e p = subst (Appends t m) (fun_ext (λ g. fun_ext (λ ch. e g ch))) p

  edit-Appends : (f : RouteTable → RouteTable) → Appends t (edit t c f) (nothing t)
  unfolding edit
  edit-Appends f = Appends-modify t _ (λ n. refl)

  add_ingress_port-Appends :
      (st : ClusterState) (svc : ServiceItem) (ip : Text) (v6 : Bool) (port : ServicePort)
      → Appends t
          (add_ingress_port t c st svc ip v6 port)
          (on_edges (λ g. port_redirects c ip v6 g port))
  unfolding add_ingress_port port_redirects
  add_ingress_port-Appends st svc ip v6 port =
      cast (λ g ch. port_cases (skipped c port) (same_family (bin_for v6) g) ch)
        (Appends-if t (skipped c port) (pure tt) _ (nothing t) _ (Appends-pure t) (
          Appends-then t _ _ _ _ (Appends-ipt t (bin_for v6) edge (redirect c ip port)) (
            Appends-then t _ _ _ _ (Appends-ipt t (bin_for v6) edge_output (redirect c ip port))
              (edit-Appends (put_balancer c st svc port ip v6)))))
    where
      rules : Bool → Chain → Chain → List Rule
      rules here ch d = if here && same_chain ch d then redirect c ip port ∷ [] else []

      port_cases :
          (skip here : Bool) (ch : Chain)
          → (if skip then [] else rules here edge ch ++ (rules here edge_output ch ++ [])) ≡ (
              if is_edge ch then (if here && not skip then redirect c ip port ∷ [] else []) else [])
      port_cases true here ch = ground arith
      port_cases false true ch = ground arith
      port_cases false false ch = ground arith

  add_parsed_ingress-Appends :
      (st : ClusterState) (svc : ServiceItem) (ip : Text) (o : Option (List ℕ))
      → Appends t
          (add_parsed_ingress t c st svc ip o)
          (on_edges (λ g. ingress_redirects c svc g ip o))
  unfolding add_parsed_ingress ingress_redirects
  add_parsed_ingress-Appends st svc ip none = cast (λ g ch. ground arith) (Appends-pure t)
  add_parsed_ingress-Appends st svc ip (some bytes) =
      let v6 = not (is_v4 bytes) in
      cast (λ g ch. ingress_cases (v6 && not c.has_ip6) v6 g ch)
        (Appends-if t (v6 && not c.has_ip6) (pure tt) _ (nothing t) _ (Appends-pure t) (
          Appends-for_each t svc.ports (add_ingress_port t c st svc ip v6)
            (λ p. on_edges (λ g. port_redirects c ip v6 g p))
            (add_ingress_port-Appends st svc ip v6)))
    where
      ingress_cases :
          (skip v6 : Bool) (g : Family) (ch : Chain)
          → (if skip
              then []
              else concat_map (λ p. on_edges (λ h. port_redirects c ip v6 h p) g ch) svc.ports)
            ≡ (if is_edge ch
                then (if skip then [] else concat_map (port_redirects c ip v6 g) svc.ports)
                else [])
      ingress_cases true v6 g ch = ground arith
      ingress_cases false v6 g ch = concat_map_if (is_edge ch) (port_redirects c ip v6 g) svc.ports

  add_service-Appends :
      (st : ClusterState) (svc : ServiceItem)
      → Appends t (add_service t c st svc) (on_edges (λ g. service_redirects c g svc))
  unfolding add_service add_ingress service_redirects
  add_service-Appends st svc =
      let balancer = svc.service_type === text "LoadBalancer" in
      cast (λ g ch. service_cases balancer g ch)
        (Appends-then t _ _ _ _ (edit-Appends (add_ports c st svc svc.ports)) (
          Appends-if t (not balancer) (pure tt) _ (nothing t) _ (Appends-pure t) (
            Appends-for_each t svc.ingress (add_ingress t c st svc)
              (λ ip. on_edges (λ g. ingress_redirects c svc g ip (parse_ip ip)))
              (λ ip. add_parsed_ingress-Appends st svc ip (parse_ip ip)))))
    where
      service_cases :
          (balancer : Bool) (g : Family) (ch : Chain)
          → []
              ++ (if not balancer
                  then []
                  else concat_map
                      (λ ip. on_edges (λ h. ingress_redirects c svc h ip (parse_ip ip)) g ch)
                      svc.ingress)
            ≡ (if is_edge ch
                then (if balancer
                    then concat_map (λ ip. ingress_redirects c svc g ip (parse_ip ip)) svc.ingress
                    else [])
                else [])
      service_cases false g ch = ground arith
      service_cases true g ch =
          concat_map_if (is_edge ch) (λ ip. ingress_redirects c svc g ip (parse_ip ip)) svc.ingress

  -- `add_service_rules` on a snapshot that decodes to `st`.
  pub add_services-Appends :
      (st : ClusterState)
      → Appends t (for_each st.services (add_service t c st)) (on_edges (redirects c st))
  unfolding redirects
  add_services-Appends st =
      cast (λ g ch. concat_map_if (is_edge ch) (service_redirects c g) st.services)
        (Appends-for_each t st.services (add_service t c st)
          (λ svc. on_edges (λ g. service_redirects c g svc)) (add_service-Appends st))
