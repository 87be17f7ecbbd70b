-- ===== src/Go/Net.antt =====
-- Go's package net: host and port joined and split, over ASCII texts.
pub mod Ip
pub mod HostPort
pub mod Cidr
pub mod Format
use kiac.Base.{◌==◌, if◌then◌else◌, Text, Bool, not, ◌&&◌, ◌||◌, Option, none, some, [], ◌∷◌, ◌++◌}
use kiac.Go.Strings.{has_byte, cut_byte}

-- An IPv6 host is bracketed.
unfoldable pub join_host_port : Text → Text → Text
join_host_port host port =
    if has_byte b':' host then b'[' ∷ (host ++ b']' ∷ b':' ∷ port) else host ++ b':' ∷ port

has_bracket : Text → Bool
has_bracket s = has_byte b'[' s || has_byte b']' s

-- After a bracketed host comes the last colon.
bracketed_port : Text → Text → Option (Text × Text)
bracketed_port host [] = none
bracketed_port host (c ∷ port) =
    if c == b':' && not (has_byte b':' port || has_byte b'[' host || has_bracket port)
    then some (host, port)
    else none

bracketed : Option (Text × Text) → Option (Text × Text)
bracketed none = none
bracketed (some (host, after)) = bracketed_port host after

plain : Option (Text × Text) → Option (Text × Text)
plain none = none
plain (some (host, port)) =
    if has_byte b':' port || has_bracket host || has_bracket port then none else some (host, port)

-- `none` stands for each of its errors.
unfoldable pub split_host_port : Text → Option (Text × Text)
unfolding has_bracket bracketed_port bracketed plain
split_host_port [] = none
split_host_port (c ∷ s) =
    if c == b'[' then bracketed (cut_byte b']' s) else plain (cut_byte b':' (c ∷ s))
