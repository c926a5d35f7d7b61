-- ===== src/Fru/Text.antt =====
-- lib/ipmi_fru.c: `get_fru_area_str`, the text of a field in its four encodings. `malloc` gives
-- a block.
use ipmitool.Common.{
  ℕ, ◌+◌, ◌*◌, ◌/◌, ◌%◌, List, [], ◌∷◌, ◌++◌, Option, none, some, ltb, ◌==◌, if◌then◌else◌, get_or,
  length, take,
}
use ipmitool.Hex.{buf2str}
use ipmitool.Fru.Slices.{slice}

-- `bcd_plus[]`: "0123456789 -.:,_".
abbrev pub bcd_plus : List ℕ
bcd_plus =
    0x30 ∷ 0x31 ∷ 0x32 ∷ 0x33 ∷ 0x34 ∷ 0x35 ∷ 0x36 ∷ 0x37 ∷ 0x38 ∷ 0x39 ∷ 0x20 ∷ 0x2D ∷ 0x2E ∷ 0x3A
    ∷ 0x2C ∷ 0x5F ∷ []

-- The loop of case 1: the upper half of each byte, then the lower one.
unfoldable pub bcd_text : List ℕ → List ℕ
bcd_text [] = []
bcd_text (b ∷ bytes) = get_or bcd_plus (b / 16 % 16) 0 ∷ get_or bcd_plus (b % 16) 0 ∷ bcd_text bytes

-- Four characters of `u.bits`.
unfoldable pub four_chars : ℕ → List ℕ
four_chars bits =
    (bits % 64 + 0x20)
    ∷ (bits / 64 % 64 + 0x20)
    ∷ (bits / 64 / 64 % 64 + 0x20)
    ∷ (bits / 64 / 64 / 64 % 64 + 0x20)
    ∷ []

-- The loop of case 2, on groups of up to three bytes.
unfoldable pub six_bit_text : List ℕ → List ℕ
unfolding four_chars
six_bit_text [] = []
six_bit_text (a ∷ []) = four_chars a
six_bit_text (a ∷ b ∷ []) = four_chars (a + 256 * b)
six_bit_text (a ∷ b ∷ c ∷ bytes) = four_chars (a + 256 * b + 65536 * c) ++ six_bit_text bytes

-- The number of characters that are allocated before the NUL.
unfoldable pub text_size : ℕ → ℕ → ℕ
text_size typecode len =
    if ltb typecode 2 then len * 2 else if typecode == 2 then (len / 3 + 1) * 4 else len

-- The characters that are stored.
unfoldable pub text_of : ℕ → List ℕ → List ℕ
unfolding bcd_text six_bit_text
text_of typecode bytes =
    if typecode == 0
    then take (length bytes * 2) (buf2str bytes)
    else if typecode == 1
    then bcd_text bytes
    else if typecode == 2
    then six_bit_text bytes
    else bytes

-- The field at `offset` from its type and length on.
unfoldable pub str_of : ℕ → ℕ → List ℕ → ℕ → Option (Option (List ℕ) × ℕ)
unfolding text_size text_of
str_of typecode len bytes offset =
    if ltb (length bytes) (offset + 1 + len)
    then none
    else (if ltb (text_size typecode len) 1
        then some (none, offset + 1)
        else some (some (text_of typecode (slice (offset + 1) len bytes)), offset + 1 + len))

-- The stored characters, or none for `NULL`, with the offset behind the field; none altogether
-- where the field ends outside the data.
unfoldable pub get_fru_area_str : List ℕ → ℕ → Option (Option (List ℕ) × ℕ)
unfolding str_of
get_fru_area_str bytes offset =
    let type_length = get_or bytes offset 0 in
    str_of (type_length / 64) (type_length % 64) bytes offset
