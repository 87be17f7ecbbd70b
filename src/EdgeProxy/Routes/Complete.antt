-- ===== src/EdgeProxy/Routes/Complete.antt =====
-- The allowed targets of a route table that ports are added to (cmd/kiac-edge-proxy/main.go).
use kiac.Base.{
  if◌then◌else◌, ◌===◌, Text, In, ◌≡◌, sym, ap, ◌∙◌, ◌⊎◌, inl, inr, Bool, true, false, not, List,
  [], ◌∷◌, subst, is_positive, text_beq_iff, nat_eq, bool_eq, text_eq, pair_eq, int_eq,
}
use kiac.EdgeProxy.Cluster.{ClusterState, ServiceItem, ServicePort}
use kiac.EdgeProxy.Node.{Config, RouteTable}
use kiac.EdgeProxy.Endpoints.{EndpointTarget, matching_endpoints}
use kiac.EdgeProxy.Routes.{allow_local_targets, add_port, allow_family, put_node_port, add_ports}

-- Both families where the kernel has IPv6, else IPv4 alone.
abbrev pub Handles : Config → Bool → Type 0
Handles c v6 = (v6 ≡ false) ⊎ (c.has_ip6 ≡ true)

module _ (a : Text) where
  abbrev pub Allows : RouteTable → Type 0
  Allows rt = In a rt.allowed_targets

  allow_local_targets-Allows :
      (node_name : Text) (eps : List EndpointTarget) (rt : RouteTable)
      → Allows rt
      → Allows (allow_local_targets node_name eps rt)
  unfolding allow_local_targets
  allow_local_targets-Allows node_name [] rt h = h
  allow_local_targets-Allows node_name (ep ∷ eps) rt h =
      allow_local_targets-Allows node_name eps _ (go (ep.node_name === node_name))
    where
      go :
          (b : Bool)
          → Allows
              (if b then record rt { allowed_targets = ep.address ∷ rt.allowed_targets } else rt)
      go true = inr h
      go false = h

  allow_local_targets-adds :
      (node_name : Text) (eps : List EndpointTarget) (rt : RouteTable) (ep : EndpointTarget)
      → In ep eps
      → ep.node_name ≡ node_name
      → ep.address ≡ a
      → Allows (allow_local_targets node_name eps rt)
  unfolding allow_local_targets
  allow_local_targets-adds node_name [] rt ep i e q = absurd i
  allow_local_targets-adds node_name (x ∷ eps) rt ep (inl i) e q =
      allow_local_targets-Allows node_name eps _ (
        go (x.node_name === node_name)
          ((text_beq_iff _ _).1 (ap (λ (y : EndpointTarget). y.node_name) (sym i) ∙ e)))
    where
      go :
          (b : Bool)
          → b ≡ true
          → Allows
              (if b then record rt { allowed_targets = x.address ∷ rt.allowed_targets } else rt)
      go true w = inl (sym q ∙ ap (λ (y : EndpointTarget). y.address) i)
      go false w = absurd (cc)
  allow_local_targets-adds node_name (x ∷ eps) rt ep (inr i) e q =
      allow_local_targets-adds node_name eps _ ep i e q

  module _ (c : Config) (st : ClusterState) (svc : ServiceItem) where
    both_families :
        (port : ServicePort) (b : Bool) (u : RouteTable)
        → Allows u
        → Allows (if b then allow_family c st svc port true u else u)
    unfolding allow_family
    both_families port true u q =
        allow_local_targets-Allows c.node_name (matching_endpoints st svc port true) u q
    both_families port false u q = q

    with_node_ports :
        (port : ServicePort) (skip b : Bool) (u : RouteTable)
        → Allows u
        → Allows (
            if skip
            then u
            else (if b
                then put_node_port c st svc port true (put_node_port c st svc port false u)
                else put_node_port c st svc port false u))
    unfolding put_node_port
    with_node_ports port true b u q = q
    with_node_ports port false true u q = q
    with_node_ports port false false u q = q

    add_port-Allows :
        (port : ServicePort) (rt : RouteTable) → Allows rt → Allows (add_port c st svc port rt)
    unfolding add_port allow_family
    add_port-Allows port rt h =
        with_node_ports port (not (is_positive port.node_port)) c.has_ip6 _ (
          both_families port c.has_ip6 _
            (allow_local_targets-Allows c.node_name (matching_endpoints st svc port false) rt h))

    pub add_ports-Allows :
        (ports : List ServicePort) (rt : RouteTable)
        → Allows rt
        → Allows (add_ports c st svc ports rt)
    unfolding add_ports
    add_ports-Allows [] rt h = h
    add_ports-Allows (p ∷ ps) rt h = add_ports-Allows ps _ (add_port-Allows p rt h)

    module _ (v6 : Bool) (ep : EndpointTarget) (f : Handles c v6) (e : ep.node_name ≡ c.node_name)
        (q : ep.address ≡ a) where
      add_port-adds :
          (port : ServicePort) (rt : RouteTable)
          → In ep (matching_endpoints st svc port v6)
          → Allows (add_port c st svc port rt)
      unfolding add_port allow_family
      add_port-adds port rt i =
          with_node_ports port (not (is_positive port.node_port)) c.has_ip6 _ (go v6 i f)
        where
          go :
              (v : Bool)
              → In ep (matching_endpoints st svc port v)
              → Handles c v
              → Allows (
                  if c.has_ip6
                  then allow_family c st svc port true (allow_family c st svc port false rt)
                  else allow_family c st svc port false rt)
          go false j k = both_families port c.has_ip6 _ (
              allow_local_targets-adds c.node_name (matching_endpoints st svc port false) rt ep j e
                q)
          go true j (inl k) = absurd (cc)
          go true j (inr k) =
              subst
                (λ (b : Bool). Allows (
                  if b
                  then allow_family c st svc port true (allow_family c st svc port false rt)
                  else allow_family c st svc port false rt))
                (sym k)
                (allow_local_targets-adds c.node_name (matching_endpoints st svc port true) _ ep j e
                  q)

      pub add_ports-adds :
          (ports : List ServicePort) (port : ServicePort) (rt : RouteTable)
          → In port ports
          → In ep (matching_endpoints st svc port v6)
          → Allows (add_ports c st svc ports rt)
      unfolding add_ports
      add_ports-adds [] port rt i j = absurd i
      add_ports-adds (p ∷ ps) port rt (inl i) j = add_ports-Allows ps _ (
          add_port-adds p rt
            (subst (λ (x : ServicePort). In ep (matching_endpoints st svc x v6)) i j))
      add_ports-adds (p ∷ ps) port rt (inr i) j = add_ports-adds ps port _ i j
