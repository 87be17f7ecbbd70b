-- ===== src/Runtime/Publish.antt =====
-- Published ports: `Publish`, `ParsePublish`, `ValidatePublishes` and the flag `Publishes`
-- (pkg/runtime/publish.go).
pub mod Colons
pub mod Hosts
pub mod RoundTrip
mod Examples
use kiac.Base.{
  ltb, ◌==◌, between, if◌then◌else◌, ◌===◌, Text, text, Result, ok, err, ◌>>=◌, ℤ, pos, negsuc, ℕ,
  suc, ◌+◌, ◌-◌, not, ◌&&◌, ◌||◌, Option, none, some, List, [], ◌∷◌, ◌++◌, nat_eq, bool_eq, text_eq,
  pair_eq, int_eq,
}
use kiac.Base.Dict.{Dict, get, put}
use kiac.Go.Strconv.{atoi, itoa}
use kiac.Go.Net.Format.{canonical_text}
use kiac.Go.Strings.{
  count_byte, drop, has_byte, has_prefix, has_suffix, join, reverse, to_lower, trim_space,
}

pub record Publish : Type 0 where
  pub host_ip : Text
  pub host_port : ℕ
  pub container_port : ℕ
  pub protocol : Text

pub data PublishError : Type 0 where
  value_required : PublishError
  invalid_protocol : PublishError
  invalid_mapping : PublishError
  invalid_port : Text → PublishError
  invalid_brackets : PublishError
  bracket_form : PublishError
  empty_host : PublishError
  unbracketed_v6 : PublishError
  invalid_host : PublishError

pub data ListError : Type 0 where
  publish : ℕ → PublishError → ListError
  duplicates : ℕ → ℕ → Text → ListError

host_text : Text → Text → Text
host_text host rest =
    if host === []
    then rest
    else if has_byte b':' host
    then b'[' ∷ (host ++ (text "]:" ++ rest))
    else host ++ b':' ∷ rest

-- `Publish.String`
unfoldable pub publish_text : Publish → Text
unfolding host_text
publish_text p =
    host_text p.host_ip (itoa (pos p.host_port) ++ b':' ∷ itoa (pos p.container_port))
    ++ (if not (p.protocol === []) && not (p.protocol === text "tcp")
        then b'/' ∷ p.protocol
        else [])

-- The parts around the last `c`.
pub cut_last : ℕ → Text → Option (Text × Text)
cut_last c [] = none
cut_last c (x ∷ s) = after (cut_last c s)
  where
    after : Option (Text × Text) → Option (Text × Text)
    after (some (a, b)) = some (x ∷ a, b)
    after none = if x == c then some ([], s) else none

-- `lastColonOutsideBrackets`, on the text read backwards: `depth` brackets are open, `behind` is what
-- was passed. What is in front of the colon, backwards, and what is behind it.
colon_from : ℕ → Text → Text → Option (Text × Text)
colon_from depth behind [] = none
colon_from depth behind (c ∷ s) =
    let close = colon_from (suc depth) (c ∷ behind) s in
    let open_one = colon_from (depth - 1) (c ∷ behind) s in
    let other = colon_from depth (c ∷ behind) s in
    if c == b']'
    then close
    else if c == b'['
    then open_one
    else if c == b':' && depth == 0
    then some (s, behind)
    else other

forwards : Option (Text × Text) → Option (Text × Text)
forwards none = none
forwards (some (s, behind)) = some (reverse s, behind)

-- The parts around the last colon that is not in brackets.
unfoldable pub cut_colon : Text → Option (Text × Text)
unfolding forwards colon_from
cut_colon s = forwards (colon_from 0 [] (reverse s))

port_in_range : Text → Option ℤ → Result PublishError ℕ
port_in_range raw none = err (invalid_port raw)
port_in_range raw (some (negsuc n)) = err (invalid_port raw)
port_in_range raw (some (pos n)) = if between 1 65535 n then ok n else err (invalid_port raw)

-- `parsePort`
pub parse_port : Text → Result PublishError ℕ
unfolding port_in_range
parse_port raw = port_in_range raw (atoi (trim_space raw))

canonical_host : Option Text → Result PublishError Text
canonical_host none = err invalid_host
canonical_host (some host) = ok host

-- All but the first and the last byte.
abbrev inner : Text → Text
inner s = reverse (drop 1 (reverse (drop 1 s)))

-- `parseHostIP`
pub parse_host_ip : Text → Result PublishError Text
unfolding canonical_host
parse_host_ip raw =
    let addr = trim_space raw in
    let opens = has_prefix (text "[") addr in
    let closes = has_suffix (text "]") addr in
    if addr === []
    then ok []
    else if ltb 1 (count_byte b'[' addr) || ltb 1 (count_byte b']' addr)
    then err invalid_brackets
    else if opens && closes
    then (if trim_space (inner addr) === []
        then err empty_host
        else canonical_host (canonical_text (trim_space (inner addr))))
    else if opens || closes
    then err bracket_form
    else if has_byte b':' addr
    then err unbracketed_v6
    else canonical_host (canonical_text addr)

-- The mapping and the protocol; no slash is TCP.
split_protocol : Text → Option (Text × Text) → Text × Text
split_protocol spec none = (spec, text "tcp")
split_protocol spec (some (mapping, protocol)) =
    (trim_space mapping, to_lower (trim_space protocol))

-- The host and the port in front of the container's port.
split_host : Text → Option (Text × Text) → Text × Text
split_host left none = ([], left)
split_host left (some (host, port)) = (host, port)

parse_parts : Text → Text → Text → Text → Result PublishError Publish
parse_parts host port container protocol = do
  host_port ← parse_port port
  container_port ← parse_port container
  host_ip ← parse_host_ip host
  ok (record {
    host_ip = host_ip;
    host_port = host_port;
    container_port = container_port;
    protocol = protocol;
  })

-- Both sides of the last colon must be there.
parse_mapping : Text → Option (Text × Text) → Result PublishError Publish
unfolding parse_parts split_host
parse_mapping protocol none = err invalid_mapping
parse_mapping protocol (some (left, container)) =
    if left === [] || container === []
    then err invalid_mapping
    else parse_parts (split_host left (cut_colon left)).0 (split_host left (cut_colon left)).1
        container protocol

parse_spec : Text × Text → Result PublishError Publish
unfolding parse_mapping
parse_spec (spec, protocol) =
    if protocol === text "tcp" || protocol === text "udp"
    then parse_mapping protocol (cut_colon spec)
    else err invalid_protocol

-- `ParsePublish`
pub parse_publish : Text → Result PublishError Publish
unfolding split_protocol parse_spec
parse_publish value =
    let spec = trim_space value in
    if spec === []
    then err value_required
    else parse_spec (split_protocol spec (cut_last b'/' spec))

check_new : ℕ → Text → Option ℕ → Result ListError (Unit {0})
check_new i normalized none = ok tt
check_new i normalized (some first) = err (duplicates i first normalized)

numbered : ℕ → Result PublishError Publish → Result ListError Publish
numbered i (ok p) = ok p
numbered i (err e) = err (publish i e)

-- `i` is the number of the next mapping, from 1; `seen` the numbers of the earlier ones.
validate_from : ℕ → Dict Text ℕ → List Text → Result ListError (Unit {0})
unfolding check_new numbered
validate_from i seen [] = ok tt
validate_from i seen (spec ∷ specs) = numbered i (parse_publish spec) >>= λ p.
    check_new i (publish_text p) (get (publish_text p) seen) >>= λ _.
    validate_from (i + 1) (put (publish_text p) i seen) specs

-- `ValidatePublishes`
pub validate_publishes : List Text → Result ListError (Unit {0})
unfolding validate_from
validate_publishes specs = validate_from 1 [] specs

added : List Text → Result PublishError Publish → Result PublishError (Unit {0}) × List Text
added publishes (ok p) = (ok tt, publishes ++ publish_text p ∷ [])
added publishes (err e) = (err e, publishes)

-- `Publishes.Set`
unfoldable pub set_publish : Text → List Text → Result PublishError (Unit {0}) × List Text
unfolding added
set_publish value publishes = added publishes (parse_publish value)

-- `Publishes.String`; a nil pointer is `none`.
unfoldable pub publishes_text : Option (List Text) → Text
publishes_text none = []
publishes_text (some publishes) = join publishes b';'
