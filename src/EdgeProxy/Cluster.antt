-- ===== src/EdgeProxy/Cluster.antt =====
-- The Kubernetes objects that the edge proxy reads, and `parseClusterState`
-- (cmd/kiac-edge-proxy/main.go). Decoding of JSON is a parameter.
use kiac.Base.{
  if◌then◌else◌, ◌===◌, Text, text, ℤ, ℕ, Bool, true, false, Option, none, some, List, [], ◌∷◌,
  ◌++◌, nat_eq, bool_eq, text_eq, pair_eq, int_eq,
}
use kiac.Base.Dict.{Dict, get_or, put}
use kiac.Go.Net.Ip.{parse_ip, is_v4}

pub record ObjectMeta : Type 0 where
  pub name : Text
  pub namespace : Text
  pub labels : Dict Text Text

pub record IntOrString : Type 0 where
  pub int_val : ℤ
  pub str_val : Text
  pub is_set : Bool

pub record ServicePort : Type 0 where
  pub name : Text
  pub port : ℤ
  pub node_port : ℤ
  pub target_port : IntOrString

-- `ingress` holds the IPs of `status.loadBalancer.ingress`.
pub record ServiceItem : Type 0 where
  pub metadata : ObjectMeta
  pub service_type : Text
  pub ports : List ServicePort
  pub ingress : List Text

-- A nil pointer is `none`.
pub record EndpointPort : Type 0 where
  pub name : Option Text
  pub port : Option ℤ
  pub protocol : Option Text

pub record EndpointEntry : Type 0 where
  pub addresses : List Text
  pub node_name : Text
  pub ready : Option Bool

pub record EndpointSliceItem : Type 0 where
  pub metadata : ObjectMeta
  pub address_type : Text
  pub ports : List EndpointPort
  pub endpoints : List EndpointEntry

pub record NodeAddress : Type 0 where
  pub address_type : Text
  pub address : Text

pub record NodeItem : Type 0 where
  pub metadata : ObjectMeta
  pub addresses : List NodeAddress

-- The InternalIP of a node for each family; empty if there is none.
pub record NodeAddrs : Type 0 where
  pub v4 : Text
  pub v6 : Text

unfoldable pub for_family : NodeAddrs → Bool → Text
for_family n true = n.v6
for_family n false = n.v4

pub record ClusterState : Type 0 where
  pub services : List ServiceItem
  pub endpoint_slices : List EndpointSliceItem
  pub node_ips : Dict Text NodeAddrs

-- What the code uses of encoding/json: each decoder fails on a value of another shape.
pub record Decoder : Type 1 where
  pub Raw : Type 0
  pub list : Text → Option (List Raw)
  pub kind : Raw → Option Text
  pub service : Raw → Option ServiceItem
  pub slice : Raw → Option EndpointSliceItem
  pub node : Raw → Option NodeItem

abbrev pub no_addrs : NodeAddrs
no_addrs = record { v4 = []; v6 = [] }

-- The first address of each family is kept.
add_ip : NodeAddrs → Text → Option (List ℕ) → NodeAddrs
add_ip addrs address none = addrs
add_ip addrs address (some ip) =
    if is_v4 ip
    then (if addrs.v4 === [] then record addrs { v4 = address } else addrs)
    else if addrs.v6 === []
    then record addrs { v6 = address }
    else addrs

add_address : NodeAddrs → NodeAddress → NodeAddrs
unfolding add_ip
add_address addrs a =
    if a.address_type === text "InternalIP"
    then add_ip addrs a.address (parse_ip a.address)
    else addrs

pub add_addresses : NodeAddrs → List NodeAddress → NodeAddrs
unfolding add_address
add_addresses addrs [] = addrs
add_addresses addrs (a ∷ rest) = add_addresses (add_address addrs a) rest

add_node : ClusterState → NodeItem → ClusterState
unfolding add_addresses
add_node st node =
    let name = node.metadata.name in
    record st {
      node_ips =
          put name (add_addresses (get_or name no_addrs st.node_ips) node.addresses) st.node_ips;
    }

module _ (d : Decoder) where
  open d use {Raw}

  add_service : ClusterState → Option ServiceItem → Option ClusterState
  add_service st none = none
  add_service st (some svc) = some (record st { services = st.services ++ svc ∷ [] })

  add_slice : ClusterState → Option EndpointSliceItem → Option ClusterState
  add_slice st none = none
  add_slice st (some s) = some (record st { endpoint_slices = st.endpoint_slices ++ s ∷ [] })

  add_node_item : ClusterState → Option NodeItem → Option ClusterState
  add_node_item st none = none
  add_node_item st (some n) = some (add_node st n)

  add_item : ClusterState → Raw → Option Text → Option ClusterState
  add_item st item none = none
  add_item st item (some k) =
      if k === text "Service"
      then add_service st (d.service item)
      else if k === text "EndpointSlice"
      then add_slice st (d.slice item)
      else if k === text "Node"
      then add_node_item st (d.node item)
      else some st

  -- An item that does not decode ends the loop with an error.
  add_items : ClusterState → List Raw → Option ClusterState
  add_items st [] = some st
  add_items st (item ∷ rest) = elim (add_item st item (d.kind item)) [
    | none ↦ none
    | some st' ↦ add_items st' rest
  ]

  abbrev empty_state : ClusterState
  empty_state = record { services = []; endpoint_slices = []; node_ips = [] }

  unfoldable pub parse_cluster_state : Text → Option ClusterState
  unfolding add_service add_slice add_node_item add_item add_items add_node
  parse_cluster_state raw = elim (d.list raw) [
    | none ↦ none
    | some items ↦ add_items empty_state items
  ]
