-- ===== src/EdgeProxy/Tunnel/Safety.antt =====
-- Where connections go once the route table reflects a snapshot.
use kiac.Base.{Text, In, ◌≡◌, sym, ◌∙◌, inl, inr, true, some, subst}
use kiac.EdgeProxy.Tunnel.Decisions.{Authentic, handle_tunnel-proxied}
use kiac.EdgeProxy.Routes.Sound.{LocalTarget}
use kiac.EdgeProxy.Cluster.{ClusterState, Decoder, parse_cluster_state}
use kiac.EdgeProxy.Node.{Config, RouteTable}
use kiac.EdgeProxy.Tunnel.{Network, handle_conn, handle_tunnel, is_proxy_port, proxied, conn_to}
use kiac.EdgeProxy.Sync.Table.{Reflects}

module _ (c : Config) (rt : RouteTable) (net : Network) where
  -- A connection to the port of the proxy itself is a tunnel.
  handle_conn_tunnelled :
      (dst : Text)
      → net.original_dst ≡ some dst
      → is_proxy_port dst c.proxy_port ≡ true
      → handle_conn c rt net ≡ handle_tunnel c rt net
  unfolding handle_conn conn_to
  handle_conn_tunnelled dst o p = simp (o, p)

  -- A connection whose original destination is the proxy's own port, if it is proxied, came with a
  -- header of three fields, the protocol, the node's token and a valid target, and reaches the
  -- address of a ready endpoint of a Service on this node, in the state that the snapshot decodes
  -- to. The hypothesis is that the route table in use reflects the snapshot.
  pub tunnel_reaches_local :
      (d : Decoder) (snapshot dst dialled sent : Text)
      → Reflects c d snapshot rt
      → net.original_dst ≡ some dst
      → is_proxy_port dst c.proxy_port ≡ true
      → handle_conn c rt net ≡ proxied dialled sent
      → ((line : Text) × (net.first_line ≡ some line) × Authentic c.tunnel_token line dialled)
        × ((st : ClusterState) × (parse_cluster_state d snapshot ≡ some st)
            × LocalTarget c st dialled)
  tunnel_reaches_local d snapshot dst dialled sent reflects o p h =
      let (line, l, authentic, i, e) =
        handle_tunnel-proxied c rt net dialled sent (sym (handle_conn_tunnelled dst o p) ∙ h) in
      (
        (line, l, authentic),
        elim reflects [
          | inl q ↦ absurd (subst (λ (x : RouteTable). In dialled x.allowed_targets) q i)
          | inr (st, q, s) ↦ (st, q, s.allowed dialled i)
        ],
      )
