-- ===== src/Runtime/Publish/RoundTrip.antt =====
-- `Publish.String` and `ParsePublish` (pkg/runtime/publish.go).
use kiac.Base.{
  Text, text, All-append, ok, pos, ℕ, ◌≤◌, ◌≡◌, refl, sym, ap, ◌∙◌, ◌≢◌, ◌⊎◌, inl, inr, Bool, true,
  false, [], ◌∷◌, ◌++◌, append-nil, append_assoc, arith, subst, text_beq,
}
use kiac.Runtime.Publish.{
  host_text, split_host, Publish, cut_colon, parse_host_ip, parse_mapping, parse_parts, parse_spec,
  split_protocol, parse_publish, publish_text,
}
use kiac.Go.Strconv.RoundTrip.{IsDigits}
use kiac.Runtime.Publish.Colons.{
  IsDigits-IsPlain, cut_colon-append, cut_colon-none, cut_last-append, cut_last-none,
}
use kiac.Runtime.Publish.Hosts.{
  IsHost, not_nil, parse_host_ip-brackets, parse_host_ip-plain, itoa-IsDigits, itoa-filled,
  parse_port-itoa, itoa-IsWord,
}
use kiac.Go.Strings.Laws.{IsWord, has_byte-append, trim_space_word}
use kiac.Go.Strings.{has_byte, is_space, trim_space, to_lower}
use kiac.Go.Strconv.{itoa}

-- Ports in their range, a protocol that is known, and a host that is none or can be printed.
pub record IsMapping (p : Publish) : Type 0 where
  pub host : (p.host_ip ≡ []) ⊎ IsHost p.host_ip
  pub host_low : 1 ≤ p.host_port
  pub host_high : p.host_port ≤ 65535
  pub container_low : 1 ≤ p.container_port
  pub container_high : p.container_port ≤ 65535
  pub protocol : (p.protocol ≡ text "tcp") ⊎ (p.protocol ≡ text "udp")

-- What stands in front of the container's port, and how it is read.
record Front (host port : Text) : Type 0 where
  pub left : Text
  pub raw : Text
  pub prints : (rest : Text) → host_text host (port ++ b':' ∷ rest) ≡ left ++ b':' ∷ rest
  pub splits : split_host left (cut_colon left) ≡ (raw, port)
  pub reads : parse_host_ip raw ≡ ok host
  pub word : IsWord left
  pub no_slash : has_byte b'/' left ≡ false
  pub filled : text_beq left [] ≡ false

IsDigits-no_slash : (s : Text) → IsDigits s → has_byte b'/' s ≡ false
unfolding has_byte
IsDigits-no_slash [] h = refl
IsDigits-no_slash (c ∷ s) h = ground (arith, IsDigits-no_slash s h.1)

append_cons-filled : (s : Text) (c : ℕ) (t : Text) → s ++ c ∷ t ≢ []
append_cons-filled [] c t e = absurd (cc)
append_cons-filled (x ∷ s) c t e = absurd (cc)

shape :
    (h port : Text) → b'[' ∷ (h ++ b']' ∷ b':' ∷ port) ≡ (b'[' ∷ (h ++ b']' ∷ [])) ++ b':' ∷ port
shape h port = ap (λ (s : Text). b'[' ∷ s) (sym (append_assoc h (b']' ∷ []) (b':' ∷ port)))

module _ (port : Text) (d : IsDigits port) (w : IsWord port) (n : text_beq port [] ≡ false) where
  no_host : Front [] port
  unfolding host_text split_host parse_host_ip text_beq trim_space
  no_host = record {
    left = port;
    raw = [];
    prints = λ rest. refl;
    splits = rw (cut_colon-none port (IsDigits-IsPlain port d)) refl;
    reads = refl;
    word = w;
    no_slash = IsDigits-no_slash port d;
    filled = n;
  }

  module _ (h : Text) (p : IsHost h) where
    plain_host : has_byte b':' h ≡ false → Front h port
    unfolding host_text split_host is_space has_byte
    plain_host c = record {
      left = h ++ b':' ∷ port;
      raw = h;
      prints = λ rest. simp (not_nil h p.filled, c, append_assoc);
      splits = rw (cut_colon-append h port (IsDigits-IsPlain port d)) refl;
      reads = parse_host_ip-plain h p c;
      word = All-append (λ c. is_space c ≡ false) h (b':' ∷ port) p.word (refl, w);
      no_slash = has_byte-append b'/' h (b':' ∷ port) p.no_slash (IsDigits-no_slash port d);
      filled = not_nil (h ++ b':' ∷ port) (append_cons-filled h b':' port);
    }

    bracket_host : has_byte b':' h ≡ true → Front h port
    unfolding host_text split_host is_space has_byte text_beq
    bracket_host c = record {
      left = b'[' ∷ (h ++ b']' ∷ b':' ∷ port);
      raw = b'[' ∷ (h ++ b']' ∷ []);
      prints = λ rest. simp (not_nil h p.filled, c, append_assoc);
      splits = ap (split_host _) (
          ap cut_colon (shape h port)
          ∙ cut_colon-append (b'[' ∷ (h ++ b']' ∷ [])) port (IsDigits-IsPlain port d));
      reads = parse_host_ip-brackets h p;
      word = (
        refl,
        All-append (λ c. is_space c ≡ false) h (b']' ∷ b':' ∷ port) p.word (refl, (refl, w)),
      );
      no_slash = has_byte-append b'/' h (b']' ∷ b':' ∷ port) p.no_slash (IsDigits-no_slash port d);
      filled = refl;
    }

    front : Front h port
    front = go (has_byte b':' h) refl
      where
        go : (b : Bool) → has_byte b':' h ≡ b → Front h port
        go true e = bracket_host e
        go false e = plain_host e

-- The mapping without its protocol is read back.
parse_mapping-Front :
    (p : Publish) (protocol : Text)
    → IsMapping p
    → Front p.host_ip (itoa (pos p.host_port))
    → parse_mapping protocol (
        cut_colon
          (host_text p.host_ip (itoa (pos p.host_port) ++ b':' ∷ itoa (pos p.container_port))))
      ≡ ok (record p { protocol = protocol })
unfolding parse_mapping parse_parts
parse_mapping-Front p protocol m f =
    let digits = itoa-IsDigits p.container_port in
    let filled = itoa-filled p.container_port in
    rw (f.prints (itoa (pos p.container_port))) (
      rw (cut_colon-append f.left (itoa (pos p.container_port)) (IsDigits-IsPlain _ digits)) (
        simp (
          f.filled,
          filled,
          f.splits,
          f.reads,
          parse_port-itoa p.host_port m.host_low m.host_high,
          parse_port-itoa p.container_port m.container_low m.container_high,
        )))

-- The mapping without its protocol, as it is printed.
abbrev ports_text : Publish → Text
ports_text p = host_text p.host_ip (itoa (pos p.host_port) ++ b':' ∷ itoa (pos p.container_port))

module _ (p : Publish) (m : IsMapping p) (f : Front p.host_ip (itoa (pos p.host_port))) where
  ports_text-IsWord : IsWord (ports_text p)
  unfolding is_space
  ports_text-IsWord =
      rw (f.prints (itoa (pos p.container_port)))
        (All-append (λ c. is_space c ≡ false) f.left _ f.word (refl, itoa-IsWord p.container_port))

  ports_text-no_slash : has_byte b'/' (ports_text p) ≡ false
  unfolding has_byte
  ports_text-no_slash = rw (f.prints (itoa (pos p.container_port))) (
      has_byte-append b'/' f.left _ f.no_slash
        (IsDigits-no_slash (itoa (pos p.container_port)) (itoa-IsDigits p.container_port)))

  ports_text-filled : text_beq (ports_text p) [] ≡ false
  ports_text-filled =
      rw (f.prints (itoa (pos p.container_port))) (not_nil _ (append_cons-filled f.left b':' _))

  tcp_read : parse_publish (ports_text p) ≡ ok (record p { protocol = text "tcp" })
  unfolding parse_publish split_protocol parse_spec text_beq
  tcp_read = simp (
    trim_space_word (ports_text p) ports_text-IsWord,
    ports_text-filled,
    cut_last-none b'/' (ports_text p) ports_text-no_slash,
    parse_mapping-Front p (text "tcp") m f,
  )

  udp_read : parse_publish (ports_text p ++ text "/udp") ≡ ok (record p { protocol = text "udp" })
  unfolding parse_publish split_protocol parse_spec text_beq is_space has_byte trim_space to_lower
  udp_read = simp (
    trim_space_word (ports_text p ++ text "/udp") (
        All-append (λ c. is_space c ≡ false) (ports_text p) (text "/udp") ports_text-IsWord
          (refl, (refl, (refl, (refl, tt))))),
    not_nil (ports_text p ++ text "/udp") (append_cons-filled (ports_text p) b'/' (text "udp")),
    cut_last-append b'/' (ports_text p) (text "udp") refl,
    trim_space_word (ports_text p) ports_text-IsWord,
    parse_mapping-Front p (text "udp") m f,
  )

  protocol_read :
      (q : Text)
      → (q ≡ text "tcp") ⊎ (q ≡ text "udp")
      → parse_publish (publish_text (record p { protocol = q })) ≡ ok (record p { protocol = q })
  unfolding publish_text text_beq
  protocol_read q (inl e) =
      subst
        (λ (r : Text).
          parse_publish (publish_text (record p { protocol = r })) ≡ ok (record p { protocol = r }))
        (sym e) (ap parse_publish (append-nil (ports_text p)) ∙ tcp_read)
  protocol_read q (inr e) =
      subst
        (λ (r : Text).
          parse_publish (publish_text (record p { protocol = r })) ≡ ok (record p { protocol = r }))
        (sym e) udp_read

-- A mapping with ports from 1 to 65535, the protocol tcp or udp, and no host or a canonical one
-- with no space, slash or bracket is parsed again from the text that it is printed as.
pub parse_publish-publish_text : (p : Publish) → IsMapping p → parse_publish (publish_text p) ≡ ok p
parse_publish-publish_text p m = protocol_read p m (at_host m.host) p.protocol m.protocol
  where
    port : Text
    port = itoa (pos p.host_port)

    at_host : (p.host_ip ≡ []) ⊎ IsHost p.host_ip → Front p.host_ip port
    at_host (inl e) =
        subst (λ (h : Text). Front h port) (sym e)
          (no_host port (itoa-IsDigits p.host_port) (itoa-IsWord p.host_port)
            (itoa-filled p.host_port))
    at_host (inr h) =
        front port (itoa-IsDigits p.host_port) (itoa-IsWord p.host_port) (itoa-filled p.host_port)
          p.host_ip h
