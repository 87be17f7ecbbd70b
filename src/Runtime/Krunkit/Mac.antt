-- ===== src/Runtime/Krunkit/Mac.antt =====
-- Hardware addresses: Go's net.ParseMAC for addresses of six bytes, and `normalizeMAC`
-- (pkg/runtime/krunkit.go).
use kiac.Base.{◌==◌, between, Text, ℕ, zero, suc, Bool, false, ◌&&◌, ◌||◌, [], ◌∷◌, map}
use kiac.Go.Strings.{join, split, to_lower}

is_hex : ℕ → Bool
is_hex c = between b'0' b'9' c || between b'a' b'f' c || between b'A' b'F' c

-- Pairs of digits with one separator between them.
mac_pairs : ℕ → ℕ → Text → Bool
unfolding is_hex
mac_pairs zero sep s = false
mac_pairs (suc zero) sep (a ∷ b ∷ []) = is_hex a && is_hex b
mac_pairs (suc (suc n)) sep (a ∷ b ∷ c ∷ s) =
    is_hex a && is_hex b && c == sep && mac_pairs (suc n) sep s
mac_pairs _ _ _ = false

-- Groups of four digits with dots between them.
mac_quads : ℕ → Text → Bool
unfolding is_hex
mac_quads zero s = false
mac_quads (suc zero) (a ∷ b ∷ c ∷ d ∷ []) = is_hex a && is_hex b && is_hex c && is_hex d
mac_quads (suc (suc n)) (a ∷ b ∷ c ∷ d ∷ e ∷ s) =
    is_hex a && is_hex b && is_hex c && is_hex d && e == b'.' && mac_quads (suc n) s
mac_quads _ _ = false

-- `net.ParseMAC` succeeds with six bytes.
unfoldable pub is_mac : Text → Bool
unfolding mac_pairs mac_quads
is_mac s = mac_pairs 6 b':' s || mac_pairs 6 b'-' s || mac_quads 3 s

pad_part : Text → Text
pad_part [] = []
pad_part (c ∷ []) = b'0' ∷ c ∷ []
pad_part (c ∷ d ∷ s) = c ∷ d ∷ s

-- `normalizeMAC`: small letters, and two digits in each part.
unfoldable pub normalize_mac : Text → Text
unfolding pad_part
normalize_mac value = join (map pad_part (split (to_lower value) b':')) b':'
