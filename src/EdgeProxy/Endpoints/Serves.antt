-- ===== src/EdgeProxy/Endpoints/Serves.antt =====
-- Which endpoints serve a port of a Service, as a relation, beside `matchingEndpoints`
-- (cmd/kiac-edge-proxy/main.go).
use kiac.Base.{
  Bool-cases, ◌===◌, Text, text, concat_map, In, ℤ, ℕ, ◌≡◌, refl, ◌≢◌, ◌↔◌, ◌⊎◌, inl, inr, Bool,
  true, false, not, Option, none, some, List, [], arith, text_beq_iff, In-concat_map, concat_map-In,
  nat_eq, bool_eq, text_eq, pair_eq, int_eq,
}
use kiac.Base.Dict.{get_or}
use kiac.Go.Net.Ip.{parse_ip, is_v4}
use kiac.EdgeProxy.Cluster.{
  ServiceItem, ServicePort, EndpointPort, EndpointEntry, EndpointSliceItem, ClusterState,
}
use kiac.EdgeProxy.Endpoints.{
  EndpointTarget, service_port_matches_endpoint, service_name_label, slice_selected, target,
  ip_targets, address_targets, ready_targets, number_targets, endpoint_targets, port_targets,
  slice_targets, matching_endpoints,
}

-- `t` is an address of the entry, of the family.
pub record Address (v6 : Bool) (n : ℤ) (ep : EndpointEntry) (t : EndpointTarget) : Type 0 where
  pub addr : Text
  pub listed : In addr ep.addresses
  pub ip : List ℕ
  pub parsed : parse_ip addr ≡ some ip
  pub family : is_v4 ip ≡ not v6
  pub made : t ≡ target addr n ep.node_name

-- The slice belongs to the Service, and is not for the other family.
pub record Selected (svc : ServiceItem) (v6 : Bool) (slice : EndpointSliceItem) : Type 0 where
  pub same_namespace : slice.metadata.namespace ≡ svc.metadata.namespace
  pub labelled : get_or service_name_label [] slice.metadata.labels ≡ svc.metadata.name
  pub same_family : (slice.address_type ≡ []) ⊎ (((slice.address_type === text "IPv6") ≡ v6))

pub record Serves (st : ClusterState) (svc : ServiceItem) (port : ServicePort) (v6 : Bool)
    (t : EndpointTarget) : Type 0 where
  pub slice : EndpointSliceItem
  pub slice_listed : In slice st.endpoint_slices
  pub selected : Selected svc v6 slice
  pub ep_port : EndpointPort
  pub port_listed : In ep_port slice.ports
  pub number : ℤ
  pub numbered : ep_port.port ≡ some number
  pub matches : service_port_matches_endpoint port ep_port ≡ true
  pub entry : EndpointEntry
  pub entry_listed : In entry slice.endpoints
  pub is_ready : entry.ready ≢ some false
  pub address : Address v6 number entry t

slice_selected-Selected :
    (svc : ServiceItem) (v6 : Bool) (slice : EndpointSliceItem)
    → slice_selected svc v6 slice ≡ true
    → Selected svc v6 slice
unfolding slice_selected
slice_selected-Selected svc v6 slice h = ground (
  arith,
  text_beq_iff slice.metadata.namespace svc.metadata.namespace,
  text_beq_iff (get_or service_name_label [] slice.metadata.labels) svc.metadata.name,
  text_beq_iff slice.address_type [],
)

Selected-slice_selected :
    (svc : ServiceItem) (v6 : Bool) (slice : EndpointSliceItem)
    → Selected svc v6 slice
    → slice_selected svc v6 slice ≡ true
unfolding slice_selected
Selected-slice_selected svc v6 slice s = ground (
  arith,
  text_beq_iff slice.metadata.namespace svc.metadata.namespace,
  text_beq_iff (get_or service_name_label [] slice.metadata.labels) svc.metadata.name,
  text_beq_iff slice.address_type [],
)

module _ (v6 : Bool) (n : ℤ) (node addr : Text) where
  ip_targets_sound :
      (o : Option (List ℕ)) (t : EndpointTarget)
      → In t (ip_targets v6 n node addr o)
      → (ip : List ℕ) × (o ≡ some ip) × (is_v4 ip ≡ not v6) × (t ≡ target addr n node)
  unfolding ip_targets
  ip_targets_sound none t h = absurd h
  ip_targets_sound (some ip) t h = (ip, refl, ground arith, ground arith)

  ip_targets-complete :
      (ip : List ℕ)
      → is_v4 ip ≡ not v6
      → In (target addr n node) (ip_targets v6 n node addr (some ip))
  unfolding ip_targets
  ip_targets-complete ip f = ground arith

module _ (v6 : Bool) (n : ℤ) where
  endpoint_targets_sound :
      (ep : EndpointEntry) (t : EndpointTarget)
      → In t (endpoint_targets v6 n ep)
      → (ep.ready ≢ some false) × Address v6 n ep t
  unfolding endpoint_targets
  endpoint_targets_sound ep t h = go ep.ready h
    where
      found : In t (concat_map (address_targets v6 n ep.node_name) ep.addresses) → Address v6 n ep t
      found i =
          let (addr, listed, j) =
            In-concat_map (address_targets v6 n ep.node_name) t ep.addresses i in
          let (ip, parsed, family, made) =
            ip_targets_sound v6 n ep.node_name addr (parse_ip addr) t j in
          record {
            addr = addr;
            listed = listed;
            ip = ip;
            parsed = parsed;
            family = family;
            made = made;
          }

      go :
          (o : Option Bool)
          → In t (ready_targets v6 n ep.node_name ep.addresses o)
          → (o ≢ some false) × Address v6 n ep t
      go (some false) i = absurd i
      go (some true) i = (λ e. cc, found i)
      go none i = (λ e. cc, found i)

  ready_targets-complete :
      (node : Text) (addrs : List Text) (o : Option Bool) (t : EndpointTarget)
      → o ≢ some false
      → In t (concat_map (address_targets v6 n node) addrs)
      → In t (ready_targets v6 n node addrs o)
  unfolding ready_targets
  ready_targets-complete node addrs (some false) t r i = absurd (r refl)
  ready_targets-complete node addrs (some true) t r i = i
  ready_targets-complete node addrs none t r i = i

  endpoint_targets-complete :
      (ep : EndpointEntry) (t : EndpointTarget)
      → ep.ready ≢ some false
      → Address v6 n ep t
      → In t (endpoint_targets v6 n ep)
  unfolding endpoint_targets
  endpoint_targets-complete ep t r a =
      ready_targets-complete ep.node_name ep.addresses ep.ready t r (
        concat_map-In (address_targets v6 n ep.node_name) t ep.addresses a.addr a.listed
          (rw (a.made, a.parsed) (ip_targets-complete v6 n ep.node_name a.addr a.ip a.family)))

module _ (port : ServicePort) (v6 : Bool) (endpoints : List EndpointEntry)
    (ep_port : EndpointPort) where
  number_targets_sound :
      (o : Option ℤ) (t : EndpointTarget)
      → In t (number_targets port v6 endpoints ep_port o)
      → (n : ℤ) × (o ≡ some n)
        × (service_port_matches_endpoint port ep_port ≡ true)
        × In t (concat_map (endpoint_targets v6 n) endpoints)
  unfolding number_targets
  number_targets_sound none t h = absurd h
  number_targets_sound (some n) t h =
      elim (Bool-cases (service_port_matches_endpoint port ep_port)) [
        | inl m ↦ (n, refl, m, rw (m) at h)
        | inr m ↦ absurd (rw (m) at h)
      ]

  number_targets-complete :
      (o : Option ℤ) (n : ℤ) (t : EndpointTarget)
      → o ≡ some n
      → service_port_matches_endpoint port ep_port ≡ true
      → In t (concat_map (endpoint_targets v6 n) endpoints)
      → In t (number_targets port v6 endpoints ep_port o)
  unfolding number_targets
  number_targets-complete o n t e m i = rw e (rw m i)

module _ (st : ClusterState) (svc : ServiceItem) (port : ServicePort) (v6 : Bool) where
  slice_targets-Selected :
      (slice : EndpointSliceItem) (t : EndpointTarget)
      → In t (slice_targets svc port v6 slice)
      → (slice_selected svc v6 slice ≡ true)
        × In t (concat_map (port_targets port v6 slice.endpoints) slice.ports)
  unfolding slice_targets
  slice_targets-Selected slice t h = elim (Bool-cases (slice_selected svc v6 slice)) [
    | inl m ↦ (m, rw (m) at h)
    | inr m ↦ absurd (rw (m) at h)
  ]

  -- Every endpoint that is listed serves the port.
  matching_endpoints_sound :
      (t : EndpointTarget) → In t (matching_endpoints st svc port v6) → Serves st svc port v6 t
  unfolding matching_endpoints port_targets
  matching_endpoints_sound t h =
      let (slice, listed, i) = In-concat_map (slice_targets svc port v6) t st.endpoint_slices h in
      let (chosen, j) = slice_targets-Selected slice t i in
      let (ep_port, port_listed, k) =
        In-concat_map (port_targets port v6 slice.endpoints) t slice.ports j in
      let (n, numbered, m, l) =
        number_targets_sound port v6 slice.endpoints ep_port ep_port.port t k in
      let (ep, entry_listed, o) = In-concat_map (endpoint_targets v6 n) t slice.endpoints l in
      let (r, a) = endpoint_targets_sound v6 n ep t o in
      record {
        slice = slice;
        slice_listed = listed;
        selected = slice_selected-Selected svc v6 slice chosen;
        ep_port = ep_port;
        port_listed = port_listed;
        number = n;
        numbered = numbered;
        matches = m;
        entry = ep;
        entry_listed = entry_listed;
        is_ready = r;
        address = a;
      }

  -- Every endpoint that serves the port is listed.
  matching_endpoints-complete :
      (t : EndpointTarget) → Serves st svc port v6 t → In t (matching_endpoints st svc port v6)
  unfolding matching_endpoints slice_targets port_targets
  matching_endpoints-complete t s =
      concat_map-In (slice_targets svc port v6) t st.endpoint_slices s.slice s.slice_listed (
        rw (Selected-slice_selected svc v6 s.slice s.selected) (
          concat_map-In (port_targets port v6 s.slice.endpoints) t s.slice.ports s.ep_port
            s.port_listed
            (number_targets-complete port v6 s.slice.endpoints s.ep_port s.ep_port.port s.number t
              s.numbered s.matches
              (concat_map-In (endpoint_targets v6 s.number) t s.slice.endpoints s.entry
                s.entry_listed
                (endpoint_targets-complete v6 s.number s.entry t s.is_ready s.address)))))

  -- `matching_endpoints` lists an endpoint exactly if it serves the port of the Service in the
  -- family: it is made from an address of the family of an entry that is not said to be unready, in
  -- a slice that is the Service's and not for the other family, under a port of the slice that has
  -- a number and matches the Service's port.
  pub matching_endpoints-Serves :
      (t : EndpointTarget) → In t (matching_endpoints st svc port v6) ↔ Serves st svc port v6 t
  matching_endpoints-Serves t = (matching_endpoints_sound t, matching_endpoints-complete t)
