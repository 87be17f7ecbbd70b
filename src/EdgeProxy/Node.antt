-- ===== src/EdgeProxy/Node.antt =====
-- The state that the edge proxy works on: its settings, its routes, and the tables of the node
-- (`proxyApp`, `routeTable`, `nodePortKey` of cmd/kiac-edge-proxy/main.go).
use kiac.Base.{
  if◌then◌else◌, Text, Result, ok, err, is_ok, ℤ, Bool, true, false, List, [], ◌∷◌, nat_eq, bool_eq,
  text_eq, pair_eq, int_eq,
}
use kiac.Base.Dict.{Dict}
use kiac.Base.Exec.{Exec}
use kiac.EdgeProxy.Endpoints.{BackendRoute}
use kiac.EdgeProxy.Iptables.{Family, ipv4, ipv6, Command, Iptables}

-- The settings that do not change once the proxy runs; `has_ip6` is `a.ip6tables != ""`.
pub record Config : Type 0 where
  pub proxy_port : Text
  pub node_port_range : Text
  pub backend_mss : ℤ
  pub has_ip6 : Bool
  pub node_name : Text
  pub tunnel_token : Text

-- A NodePort of a family.
abbrev pub NodePortKey : Type 0
NodePortKey = ℤ × Bool

-- `allowed_targets` is a set.
pub record RouteTable : Type 0 where
  pub load_balancers : Dict Text BackendRoute
  pub node_ports : Dict NodePortKey BackendRoute
  pub allowed_targets : List Text

abbrev pub no_routes : RouteTable
no_routes = record { load_balancers = []; node_ports = []; allowed_targets = [] }

-- `draft` is the table that `syncRules` fills, `routes` the one in use.
pub record Node (K : Type 0) : Type 0 where
  pub kernel : K
  pub draft : RouteTable
  pub routes : RouteTable
  pub last_snapshot : Text

pub data ProxyError : Type 0 where
  iptables_failed : Family → Command → ProxyError
  bad_snapshot : ProxyError
  out_of_fuel : ProxyError

-- `families`: always IPv4, and IPv6 where the kernel has it.
unfoldable pub families : Config → List Family
families c = if c.has_ip6 then ipv4 ∷ ipv6 ∷ [] else ipv4 ∷ []

-- `binFor`
unfoldable pub bin_for : Bool → Family
bin_for true = ipv6
bin_for false = ipv4

-- `ipt`: one command, whose failure is an error.
module _ (t : Iptables) where
  open t use {Kernel}

  status : Family → Command → Bool → Result ProxyError (Unit {0})
  status f cmd true = ok tt
  status f cmd false = err (iptables_failed f cmd)

  unfoldable pub ipt : Family → Command → Exec ProxyError (Node Kernel) (Unit {0})
  unfolding status
  ipt f cmd n = let (done, k) = t.run f cmd n.kernel in (status f cmd done, record n { kernel = k })

  -- `_ = a.ipt(…)`: the error is dropped.
  unfoldable pub attempt : Family → Command → Exec ProxyError (Node Kernel) (Unit {0})
  unfolding ipt
  attempt f cmd n = (ok tt, (ipt f cmd n).1)

  -- `iptOK`
  unfoldable pub ipt_ok : Family → Command → Exec ProxyError (Node Kernel) Bool
  unfolding ipt
  ipt_ok f cmd n = (ok (is_ok (ipt f cmd n).0), (ipt f cmd n).1)
