-- ===== src/EdgeProxy/Tunnel.antt =====
-- The tunnel between nodes (cmd/kiac-edge-proxy/main.go): `readTunnelToken`, the header,
-- `authenticateTunnelHeader`, and what `handleConn` and `handleTunnel` do with a connection.
pub mod Header
pub mod Decisions
pub mod Delivery
pub mod Safety
use kiac.Base.{
  ltb, leb, if◌then◌else◌, is_some, ◌===◌, Text, text, length, Result, ok, err, ℤ, pos, negsuc,
  Bool, false, not, ◌&&◌, ◌||◌, Option, none, some, List, [], ◌∷◌, ◌++◌, nat_eq, bool_eq, text_eq,
  pair_eq, int_eq,
}
use kiac.EdgeProxy.Endpoints.{BackendRoute, target}
use kiac.EdgeProxy.Node.{Config, RouteTable}
use kiac.Go.Strconv.{atoi}
use kiac.EdgeProxy.Routes.{backend_route, tunnel_target_allowed}
use kiac.Go.Strings.{fields, has_byte, trim_space}
use kiac.Go.Net.Ip.{parse_ip}
use kiac.Go.Net.{split_host_port}

pub data TokenError : Type 0 where
  no_token_file : TokenError
  unreadable_token : TokenError
  bad_token : TokenError

-- `strings.ContainsAny(s, " \t\r\n")`
unfoldable pub has_blank : Text → Bool
has_blank s = has_byte 32 s || has_byte 9 s || has_byte 13 s || has_byte 10 s

checked_token : Text → Result TokenError Text
unfolding has_blank
checked_token token = if ltb (length token) 32 || has_blank token then err bad_token else ok token

token_of_file : Option Text → Result TokenError Text
unfolding checked_token
token_of_file none = err unreadable_token
token_of_file (some raw) = checked_token (trim_space raw)

-- `readTunnelToken`, with the files that can be read.
unfoldable pub read_tunnel_token : (Text → Option Text) → Text → Result TokenError Text
unfolding token_of_file
read_tunnel_token files [] = err no_token_file
read_tunnel_token files (c ∷ path) = token_of_file (files (c ∷ path))

port_is : Text → Option (Text × Text) → Bool
port_is proxy_port none = false
port_is proxy_port (some (host, port)) = port === proxy_port

-- `isProxyPort`
unfoldable pub is_proxy_port : Text → Text → Bool
unfolding port_is
is_proxy_port dst proxy_port = port_is proxy_port (split_host_port dst)

valid_number : Option ℤ → Bool
valid_number none = false
valid_number (some (pos n)) = ltb 0 n && leb n 65535
valid_number (some (negsuc n)) = false

valid_parts : Option (Text × Text) → Bool
unfolding valid_number
valid_parts none = false
valid_parts (some (host, port)) =
    if not (is_some (parse_ip host)) then false else valid_number (atoi port)

-- `validBackendTarget`
unfoldable pub valid_backend_target : Text → Bool
unfolding valid_parts
valid_backend_target target = valid_parts (split_host_port target)

abbrev pub tunnel_protocol : Text
tunnel_protocol = text "KIACEDGE/2"

-- What `handleConn` writes in front of a tunnelled stream.
unfoldable pub tunnel_header : Text → Text → Text
tunnel_header token target = tunnel_protocol ++ b' ' ∷ (token ++ b' ' ∷ (target ++ 10 ∷ []))

authenticate_fields : Text → List Text → Option Text
authenticate_fields token (protocol ∷ sent ∷ target ∷ []) =
    if not (protocol === tunnel_protocol)
      || not (sent === token)
      || not (valid_backend_target target)
    then none
    else some target
authenticate_fields token [] = none
authenticate_fields token (a ∷ []) = none
authenticate_fields token (a ∷ b ∷ []) = none
authenticate_fields token (a ∷ b ∷ c ∷ d ∷ more) = none

-- `authenticateTunnelHeader`
unfoldable pub authenticate_tunnel_header : Text → Text → Option Text
unfolding authenticate_fields
authenticate_tunnel_header line token = authenticate_fields token (fields line)

-- How the network answers, for one connection: where it was sent to before the redirect, the line
-- that `handleTunnel` reads, and which addresses can be dialled and written to.
pub record Network : Type 0 where
  pub original_dst : Option Text
  pub takes_deadline : Bool
  pub first_line : Option Text
  pub dials : Text → Bool
  pub writes : Text → Bool

-- How a connection is handled. `proxied` is the address that is dialled and what is written to it
-- before the streams are copied.
pub data Handled : Type 0 where
  no_destination : Handled
  no_deadline : Handled
  unread_header : Handled
  unauthenticated : Handled
  not_local : Handled
  dial_failed : Text → Handled
  header_failed : Text → Handled
  proxied : Text → Text → Handled

module _ (c : Config) (rt : RouteTable) (net : Network) where
  dial_target : Text → Handled
  dial_target target = if net.dials target then proxied target [] else dial_failed target

  allowed_target : Option Text → Handled
  unfolding dial_target
  allowed_target none = unauthenticated
  allowed_target (some target) =
      if not (tunnel_target_allowed rt target) then not_local else dial_target target

  tunnel_line : Option Text → Handled
  unfolding allowed_target
  tunnel_line none = unread_header
  tunnel_line (some line) = allowed_target (authenticate_tunnel_header line c.tunnel_token)

  -- `handleTunnel`
  unfoldable pub handle_tunnel : Handled
  unfolding tunnel_line
  handle_tunnel = if not net.takes_deadline then no_deadline else tunnel_line net.first_line

  -- The rest of `handleConn`, once it has a backend.
  send_header : BackendRoute → Handled
  send_header r =
      if r.tunnel_target === []
      then proxied r.dial []
      else if net.writes r.dial
      then proxied r.dial (tunnel_header c.tunnel_token r.tunnel_target)
      else header_failed r.dial

  -- Where no route is known, the original destination is dialled.
  or_original : Text → BackendRoute → BackendRoute
  or_original dst r = if r.dial === [] then record r { dial = dst } else r

  dial_route : BackendRoute → Handled
  unfolding send_header
  dial_route r = if not (net.dials r.dial) then dial_failed r.dial else send_header r

  conn_to : Option Text → Handled
  unfolding dial_route or_original
  conn_to none = no_destination
  conn_to (some dst) =
      if is_proxy_port dst c.proxy_port
      then handle_tunnel
      else dial_route (or_original dst (backend_route rt dst))

  -- `handleConn`
  unfoldable pub handle_conn : Handled
  unfolding conn_to
  handle_conn = conn_to net.original_dst
