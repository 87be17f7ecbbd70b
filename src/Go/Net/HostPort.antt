-- ===== src/Go/Net/HostPort.antt =====
-- `join_host_port` and `split_host_port`.
use kiac.Base.{Bool-cases, Text, ◌≡◌, inl, inr, false, some, [], ◌∷◌, ◌++◌, arith}
use kiac.Go.Strings.{has_byte, cut_byte}
use kiac.Go.Strings.Laws.{cut_byte-append}
use kiac.Go.Net.{join_host_port, split_host_port}

-- A text with no bracket.
abbrev pub Unbracketed : Text → Type 0
Unbracketed s = (has_byte b'[' s ≡ false) × (has_byte b']' s ≡ false)

split-join_v6 :
    (host port : Text)
    → Unbracketed host
    → Unbracketed port
    → has_byte b':' port ≡ false
    → split_host_port (b'[' ∷ (host ++ b']' ∷ b':' ∷ port)) ≡ some (host, port)
unfolding split_host_port
split-join_v6 host port h p c = ground (arith, cut_byte-append b']' host (b':' ∷ port) h.1)

split-join_v4 :
    (host port : Text)
    → Unbracketed host
    → Unbracketed port
    → has_byte b':' host ≡ false
    → has_byte b':' port ≡ false
    → split_host_port (host ++ b':' ∷ port) ≡ some (host, port)
unfolding split_host_port cut_byte has_byte
split-join_v4 [] port h p c d = ground arith
split-join_v4 (x ∷ host) port h p c d = ground (arith, cut_byte-append b':' host port)

-- The host and the port come back, if they have no brackets and the port has no colon.
pub split_host_port-join_host_port :
    (host port : Text)
    → Unbracketed host
    → Unbracketed port
    → has_byte b':' port ≡ false
    → split_host_port (join_host_port host port) ≡ some (host, port)
unfolding join_host_port
split_host_port-join_host_port host port h p c = elim (Bool-cases (has_byte b':' host)) [
  | inl v6 ↦ rw v6 (split-join_v6 host port h p c)
  | inr v4 ↦ rw v4 (split-join_v4 host port h p v4 c)
]
