-- ===== src/Runtime/Publish/Examples.antt =====
-- The theorems about published ports, at a concrete mapping.
use kiac.Base.{
  text, ok, err, ◌≡◌, refl, inr, some, [], ◌∷◌, arith, text_beq, nat_eq, bool_eq, text_eq, pair_eq,
  int_eq,
}
use kiac.Runtime.Publish.RoundTrip.{IsMapping, parse_publish-publish_text}
use kiac.Runtime.Publish.{
  Publish, parse_publish, publish_text, cut_colon, cut_last, duplicates, parse_host_ip, parse_port,
  publishes_text, set_publish, validate_publishes,
}
use kiac.Go.Net.Format.{canonical_text}
use kiac.Go.Strings.{
  cut_byte, has_byte, is_space, count_byte, has_prefix, has_suffix, join, reverse_onto, to_lower,
  trim_space,
}
use kiac.Go.Net.Ip.{is_v4, kind, parse_ip}
use kiac.Go.Strconv.{itoa, atoi, value_from}
use kiac.Go.Net.Cidr.{parse_addr}
use kiac.Base.Dict.{get, put}

abbrev web : Publish
web = record { host_ip = text "::1"; host_port = 8080; container_port = 80; protocol = text "udp" }

printed_web : publish_text web ≡ text "[::1]:8080:80/udp"
unfolding publish_text has_byte itoa text_beq
printed_web = refl

canonical_web : canonical_text (text "::1") ≡ some (text "::1")
unfolding canonical_text parse_addr parse_ip kind cut_byte is_v4
canonical_web = refl

web-IsMapping : IsMapping web
unfolding has_byte is_space
web-IsMapping = record {
  host = inr (record {
    canonical = canonical_web;
    word = (refl, (refl, (refl, tt)));
    filled = λ e. absurd (cc e);
    no_slash = refl;
    no_open = refl;
    no_close = refl;
  });
  host_low = omega arith;
  host_high = omega arith;
  container_low = omega arith;
  container_high = omega arith;
  protocol = inr refl;
}

parse_publish-publish_text_example : parse_publish (publish_text web) ≡ ok web
parse_publish-publish_text_example = parse_publish-publish_text web web-IsMapping

-- The same mapping written in two ways is a duplicate.
repeated :
    validate_publishes (text "8080:80" ∷ text " 8080:80/TCP" ∷ [])
    ≡ err (duplicates 2 1 (text "8080:80"))
unfolding validate_publishes parse_publish publish_text trim_space cut_last cut_colon to_lower atoi
    has_byte has_prefix has_suffix reverse_onto itoa value_from parse_port parse_host_ip get put
    text_beq
repeated = refl

set_twice : set_publish (text "127.0.0.1:8080:80") [] ≡ (ok tt, text "127.0.0.1:8080:80" ∷ [])
unfolding set_publish parse_publish publish_text trim_space cut_last cut_colon to_lower atoi
    has_byte has_prefix has_suffix reverse_onto itoa value_from parse_port parse_host_ip text_beq
    canonical_text parse_addr parse_ip kind cut_byte is_v4 count_byte
set_twice = refl

shown : publishes_text (some (text "1:2" ∷ text "3:4" ∷ [])) ≡ text "1:2;3:4"
unfolding publishes_text join
shown = refl
