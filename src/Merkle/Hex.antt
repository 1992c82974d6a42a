-- ===== src/Merkle/Hex.antt =====
-- Hashes in hexadecimal: `hexToBytes`, `hexNibble` and `bytesToHex`.
use Prim.Native.Char.{code}
use Prim.Native.String.{len, slice, ◌++◌}
use magi_tokenomics.Common.{
  ℕ, ◌+◌, ◌-◌, ◌*◌, ◌/◌, ◌%◌, Bool, false, ◌&&◌, ◌||◌, String, List, [], ◌∷◌, Option, none, some,
  leb, nat_beq, if◌then◌else◌,
}

unfoldable pub hex_nibble : ℕ → Option ℕ
hex_nibble c =
    if leb 48 c && leb c 57
    then some (c - 48)
    else if leb 97 c && leb c 102
    then some (c - 97 + 10)
    else if leb 65 c && leb c 70
    then some (c - 65 + 10)
    else none

abbrev pub join_nibbles : Option ℕ → Option ℕ → Option (List ℕ) → Option (List ℕ)
join_nibbles (some hi) (some lo) (some bytes) = some ((hi * 16 + lo) ∷ bytes)
join_nibbles none _ _ = none
join_nibbles (some hi) none _ = none
join_nibbles (some hi) (some lo) none = none

unfoldable pub hex_pairs : String → Option (List ℕ)
unfolding hex_nibble
hex_pairs String.[] = some []
hex_pairs (String.◌∷◌ c String.[]) = none
hex_pairs (String.◌∷◌ c (String.◌∷◌ d s)) =
    join_nibbles (hex_nibble (code c)) (hex_nibble (code d)) (hex_pairs s)

-- 64 characters, 32 bytes.
unfoldable pub hex_to_bytes : String → Option (List ℕ)
unfolding hex_pairs
hex_to_bytes s = if nat_beq (len s) 64 then hex_pairs s else none

unfoldable pub hex_digit : ℕ → String
hex_digit n = slice "0123456789abcdef" n (n + 1)

unfoldable pub bytes_to_hex : List ℕ → String
unfolding hex_digit
bytes_to_hex [] = ""
bytes_to_hex (b ∷ bs) = hex_digit (b / 16) ++ (hex_digit (b % 16) ++ bytes_to_hex bs)

unfoldable pub has_upper_hex : String → Bool
has_upper_hex String.[] = false
has_upper_hex (String.◌∷◌ c s) = leb 65 (code c) && leb (code c) 70 || has_upper_hex s
