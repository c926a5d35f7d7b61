-- ===== src/Tests/Hex.antt =====
-- Hexadecimal text on concrete bytes.
use ipmitool.Common.{ℕ, List, ◌≡◌, refl, [], ◌∷◌, none, some, arith}
use ipmitool.Hex.{buf2str_extended, separator, sep_next, sep_overrun, hex_len, not_hex, parse_hex}
use ipmitool.Hex.Laws.{parse_hex-buf2str}

not_a_digit : parse_hex (0x34 ∷ 0x31 ∷ 0x34 ∷ 0x67 ∷ []) (some 9) ≡ (not_hex, 0x41 ∷ [])
unfolding parse_hex
not_a_digit = refl

parse_hex-buf2str_example :
    (text : List ℕ) × (buf2str_extended 0 (some (0x0A ∷ 0xF7 ∷ [])) none ≡ some text)
    × (parse_hex text (some 2) ≡ (hex_len 2, 0x0A ∷ 0xF7 ∷ []))
parse_hex-buf2str_example =
    parse_hex-buf2str 0 (0x0A ∷ 0xF7 ∷ []) 2 (omega arith, (omega arith, tt)) (omega arith)
      (omega arith)

-- A separator of one character behind a byte with two characters to go is not written, and an empty
-- one behind a byte with one to go is out of range.
separator_left_out : separator 0 (some (0x20 ∷ [])) (1 ∷ []) 2 ≡ sep_next [] 1
unfolding separator
separator_left_out = refl

separator_out_of_range : separator 0 (some []) (1 ∷ []) 1 ≡ sep_overrun
unfolding separator
separator_out_of_range = refl
