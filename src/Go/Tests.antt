-- ===== src/Go/Tests.antt =====
-- Runs of the library functions at concrete texts.
use kiac.Base.{text, pos, negsuc, ◌≡◌, refl, none, some, [], ◌∷◌}
use kiac.Go.Strings.{has_byte, cut_byte, fields, split, trim_space}
use kiac.Go.Strconv.{itoa, atoi}
use kiac.Go.Net.{join_host_port, split_host_port}
use kiac.Go.Net.Ip.{parse_ip}

ip_v4 :
    parse_ip (text "10.0.0.7")
    ≡ some (0 ∷ 0 ∷ 0 ∷ 0 ∷ 0 ∷ 0 ∷ 0 ∷ 0 ∷ 0 ∷ 0 ∷ 255 ∷ 255 ∷ 10 ∷ 0 ∷ 0 ∷ 7 ∷ [])
unfolding parse_ip
ip_v4 = refl

ip_v6 :
    parse_ip (text "fd00::1:2")
    ≡ some (253 ∷ 0 ∷ 0 ∷ 0 ∷ 0 ∷ 0 ∷ 0 ∷ 0 ∷ 0 ∷ 0 ∷ 0 ∷ 0 ∷ 0 ∷ 1 ∷ 0 ∷ 2 ∷ [])
unfolding parse_ip
ip_v6 = refl

ip_embedded : parse_ip (text "::ffff:1.2.3.4") ≡ parse_ip (text "1.2.3.4")
unfolding parse_ip
ip_embedded = refl

ip_full :
    parse_ip (text "1:2:3:4:5:6:7:8")
    ≡ some (0 ∷ 1 ∷ 0 ∷ 2 ∷ 0 ∷ 3 ∷ 0 ∷ 4 ∷ 0 ∷ 5 ∷ 0 ∷ 6 ∷ 0 ∷ 7 ∷ 0 ∷ 8 ∷ [])
unfolding parse_ip
ip_full = refl

ip_errors :
    (parse_ip (text "1:2:3:4:5:6:7::8") ≡ none)
    × (parse_ip (text "01.2.3.4") ≡ none)
    × (parse_ip (text "1.2.3.") ≡ none)
    × (parse_ip (text "1.2.3.256") ≡ none)
    × (parse_ip (text "fe80::1%eth0") ≡ none)
    × (parse_ip (text "1::2::3") ≡ none)
    × (parse_ip (text "12345::") ≡ none)
unfolding parse_ip
ip_errors = (refl, refl, refl, refl, refl, refl, refl)

numbers :
    (itoa (pos 30080) ≡ text "30080")
    × (itoa (negsuc 9) ≡ text "-10")
    × (atoi (text "-10") ≡ some (negsuc 9))
    × (atoi (text "+7") ≡ some (pos 7))
    × (atoi (text "9223372036854775808") ≡ none)
    × (atoi (text "1 ") ≡ none)
unfolding itoa atoi
numbers = (refl, refl, refl, refl, refl, refl)

hosts :
    (split_host_port (text "[::1]:80") ≡ some (text "::1", text "80"))
    × (split_host_port (text "::1:80") ≡ none)
    × (split_host_port (text "h:") ≡ some (text "h", []))
    × (split_host_port (text "[::1]") ≡ none)
    × (join_host_port (text "::1") (text "80") ≡ text "[::1]:80")
unfolding join_host_port split_host_port cut_byte has_byte
hosts = (refl, refl, refl, refl, refl)

texts :
    (fields (text " a  bc\n") ≡ text "a" ∷ text "bc" ∷ [])
    × (split (text "a,,b") b',' ≡ text "a" ∷ [] ∷ text "b" ∷ [])
    × (trim_space (text "\t a b\n") ≡ text "a b")
unfolding fields split trim_space
texts = (refl, refl, refl)
