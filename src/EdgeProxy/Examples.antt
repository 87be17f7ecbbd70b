-- ===== src/EdgeProxy/Examples.antt =====
-- A small cluster, on which the theorems about the edge proxy are applied.
pub mod Tables
mod Hooked
mod Copied
mod Routed
mod Synced
mod Tunnelled
use kiac.Base.{if◌then◌else◌, Text, text, pos, Bool, true, false, none, some, [], ◌∷◌}
use kiac.EdgeProxy.Cluster.{
  ClusterState, Decoder, EndpointEntry, EndpointPort, EndpointSliceItem, ObjectMeta, ServiceItem,
  ServicePort,
}
use kiac.EdgeProxy.Node.{Config, Node, no_routes}
use kiac.EdgeProxy.Endpoints.{EndpointTarget}
use kiac.EdgeProxy.Hooks.{reset_hook}
use kiac.EdgeProxy.Examples.Tables.{tables, NatTables, run_tables}
use kiac.EdgeProxy.Iptables.{foreign, jump, edge, edge_output, output, prerouting}
use kiac.Go.Net.Ip.{v4, v6}

abbrev pub meta : Text → ObjectMeta
meta name = record {
  name = name;
  namespace = text "default";
  labels = (text "kubernetes.io/service-name", text "web") ∷ [];
}

abbrev pub web_port : ServicePort
web_port = record {
  name = text "http";
  port = pos 80;
  node_port = pos 30080;
  target_port = record { int_val = pos 8080; str_val = []; is_set = true };
}

abbrev pub web : ServiceItem
web = record {
  metadata = meta (text "web");
  service_type = text "LoadBalancer";
  ports = web_port ∷ [];
  ingress = text "192.168.64.9" ∷ [];
}

abbrev pub web_endpoint_port : EndpointPort
web_endpoint_port = record { name = none; port = some (pos 8080); protocol = some (text "TCP") }

abbrev pub web_entry : EndpointEntry
web_entry = record {
  addresses = text "10.0.0.7" ∷ [];
  node_name = text "worker";
  ready = some true;
}

abbrev pub web_slice : EndpointSliceItem
web_slice = record {
  metadata = meta (text "web-1");
  address_type = text "IPv4";
  ports = web_endpoint_port ∷ [];
  endpoints = web_entry ∷ [];
}

-- A Service with an endpoint on the node `worker`.
abbrev pub cluster : ClusterState
cluster = record {
  services = web ∷ [];
  endpoint_slices = web_slice ∷ [];
  node_ips = (text "worker", record { v4 = text "192.168.64.3"; v6 = [] }) ∷ [];
}

-- Each object is decoded to itself; any text but the empty one is the cluster.
abbrev pub decoder : Decoder
decoder = record {
  Raw = Bool;
  list = λ raw. some (true ∷ false ∷ []);
  kind = λ b. some (if b then text "Service" else text "EndpointSlice");
  service = λ b. some web;
  slice = λ b. some web_slice;
  node = λ b. none;
}

abbrev pub token : Text
token = text "0123456789abcdef0123456789abcdef"

abbrev pub config : Text → Config
config node_name = record {
  proxy_port = text "15080";
  node_port_range = text "30000:32767";
  backend_mss = pos 1200;
  has_ip6 = false;
  node_name = node_name;
  tunnel_token = token;
}

-- Tables that an earlier run has left two jumps in.
abbrev pub built_in : NatTables
built_in f prerouting = some (jump edge ∷ foreign 1 ∷ jump edge ∷ [])
built_in f output = some []
built_in f edge = none
built_in f edge_output = none

abbrev pub node : NatTables → Node NatTables
node k = record {
  kernel = k;
  draft = no_routes;
  routes = no_routes;
  last_snapshot = text "__kiac_unset__";
}

abbrev pub endpoint : EndpointTarget
endpoint = record { address = text "10.0.0.7:8080"; node_name = text "worker" }
