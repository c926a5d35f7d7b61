-- ===== src/Fru/TextLaws.antt =====
-- lib/ipmi_fru.c: the text of a field fits into its block, and is what an encoder wrote.
use ipmitool.Common.{
  ℕ, suc, ◌+◌, ◌-◌, ◌*◌, ◌/◌, ◌%◌, ◌≤◌, ◌<◌, ◌≡◌, refl, ap, ap₂, ◌∙◌, inl, inr, Bool-cases, ltb→lt,
  ltb-false_le, List, [], ◌∷◌, ◌++◌, Option, none, some, false, ltb, ltb-false, get_or, length,
  length-append, length-take_le, take, drop, take_middle, All, arith,
}
use ipmitool.Hex.{buf2str}
use ipmitool.Fru.Slices.{slice, length-slice}
use ipmitool.Fru.Text.{
  bcd_text, four_chars, six_bit_text, text_size, text_of, str_of, get_fru_area_str,
}

length-bcd_text : (bytes : List ℕ) → length (bcd_text bytes) ≡ length bytes * 2
unfolding bcd_text
length-bcd_text [] = refl
length-bcd_text (b ∷ bytes) = omega (arith, length-bcd_text bytes)

-- Four characters for every three bytes, rounded up.
length-six_bit_text : (bytes : List ℕ) → length (six_bit_text bytes) ≤ (length bytes / 3 + 1) * 4
unfolding six_bit_text four_chars
length-six_bit_text [] = omega arith
length-six_bit_text (a ∷ []) = omega arith
length-six_bit_text (a ∷ b ∷ []) = omega arith
length-six_bit_text (a ∷ b ∷ c ∷ bytes) = omega (arith, length-six_bit_text bytes)

length-text_of :
    (typecode len : ℕ) (bytes : List ℕ)
    → length bytes ≡ len
    → length (text_of typecode bytes) ≤ text_size typecode len
unfolding text_of text_size
length-text_of typecode len bytes e = ground (
  arith,
  length-take_le (length bytes * 2) (buf2str bytes),
  length-bcd_text bytes,
  length-six_bit_text bytes,
  e,
)

-- The inverse of `four_chars`: three bytes for four characters from 20h to 5Fh.
unfoldable pub pack_six : List ℕ → List ℕ
pack_six (a ∷ b ∷ c ∷ d ∷ chars) =
    (a - 32 + (b - 32) % 4 * 64)
    ∷ ((b - 32) / 4 + (c - 32) % 16 * 16)
    ∷ ((c - 32) / 16 + (d - 32) * 4)
    ∷ pack_six chars
pack_six chars = []

abbrev pub IsSixBit : ℕ → Type 0
IsSixBit c = (32 ≤ c) × (c < 96)

four_chars-pack_six :
    (a b c d : ℕ)
    → IsSixBit a
    → IsSixBit b
    → IsSixBit c
    → IsSixBit d
    → four_chars (
        a
        - 32
        + (b - 32) % 4 * 64
        + 256 * ((b - 32) / 4 + (c - 32) % 16 * 16)
        + 65536 * ((c - 32) / 16 + (d - 32) * 4))
      ≡ a ∷ b ∷ c ∷ d ∷ []
unfolding four_chars
four_chars-pack_six a b c d ha hb hc hd =
    let bits =
      a
      - 32
      + (b - 32) % 4 * 64
      + 256 * ((b - 32) / 4 + (c - 32) % 16 * 16)
      + 65536 * ((c - 32) / 16 + (d - 32) * 4) in
    let sum : bits ≡ (a - 32) + 64 * (b - 32) + 4096 * (c - 32) + 262144 * (d - 32) = omega arith in
    let e1 : bits % 64 + 0x20 ≡ a = omega (arith, sum, ha, hb, hc, hd) in
    let e2 : bits / 64 % 64 + 0x20 ≡ b = omega (arith, sum, ha, hb, hc, hd) in
    let e3 : bits / 64 / 64 % 64 + 0x20 ≡ c = omega (arith, sum, ha, hb, hc, hd) in
    let e4 : bits / 64 / 64 / 64 % 64 + 0x20 ≡ d = omega (arith, sum, ha, hb, hc, hd) in cc

six_bit_text-pack_six :
    (chars : List ℕ)
    → All IsSixBit chars
    → length chars % 4 ≡ 0
    → six_bit_text (pack_six chars) ≡ chars
unfolding six_bit_text pack_six
six_bit_text-pack_six [] h e = refl
six_bit_text-pack_six (a ∷ []) h e = absurd (omega (arith, e))
six_bit_text-pack_six (a ∷ b ∷ []) h e = absurd (omega (arith, e))
six_bit_text-pack_six (a ∷ b ∷ c ∷ []) h e = absurd (omega (arith, e))
six_bit_text-pack_six (a ∷ b ∷ c ∷ d ∷ chars) (ha, (hb, (hc, (hd, h)))) e =
    ap₂ (λ (xs ys : List ℕ). xs ++ ys) (four_chars-pack_six a b c d ha hb hc hd)
      (six_bit_text-pack_six chars h (omega (arith, e)))

length-pack_six : (chars : List ℕ) → length (pack_six chars) ≡ length chars / 4 * 3
unfolding pack_six
length-pack_six [] = omega arith
length-pack_six (a ∷ []) = omega arith
length-pack_six (a ∷ b ∷ []) = omega arith
length-pack_six (a ∷ b ∷ c ∷ []) = omega arith
length-pack_six (a ∷ b ∷ c ∷ d ∷ chars) = omega (arith, length-pack_six chars)

-- A field of type 10b.
abbrev pub six_bit_field : List ℕ → List ℕ
six_bit_field chars = (0x80 + length (pack_six chars)) ∷ pack_six chars

get_or-append :
    (before : List ℕ) (b : ℕ) (after : List ℕ) → get_or (before ++ b ∷ after) (length before) 0 ≡ b
get_or-append [] b after = refl
get_or-append (a ∷ before) b after = get_or-append before b after

suc_one_lem : (n : ℕ) → suc n + 1 ≡ suc (n + 1)
suc_one_lem n = omega arith

slice-append_field :
    (before : List ℕ) (b : ℕ) (bytes after : List ℕ)
    → slice (length before + 1) (length bytes) (before ++ b ∷ (bytes ++ after)) ≡ bytes
slice-append_field [] b bytes after = take_middle (length bytes) bytes after refl
slice-append_field (a ∷ before) b bytes after =
    ap (λ (m : ℕ). take (length bytes) (drop m (a ∷ (before ++ b ∷ (bytes ++ after)))))
      (suc_one_lem (length before))
    ∙ slice-append_field before b bytes after

str_of-six_bit :
    (bytes chars : List ℕ) (offset : ℕ)
    → offset + 1 + length (pack_six chars) ≤ length bytes
    → slice (offset + 1) (length (pack_six chars)) bytes ≡ pack_six chars
    → All IsSixBit chars
    → length chars % 4 ≡ 0
    → str_of 2 (length (pack_six chars)) bytes offset
      ≡ some (some chars, offset + 1 + length (pack_six chars))
unfolding str_of text_size text_of
str_of-six_bit bytes chars offset le field h e =
    let within : ltb (length bytes) (offset + 1 + length (pack_six chars)) ≡ false =
      ltb-false (length bytes) (offset + 1 + length (pack_six chars)) le in
    let some_size : ltb ((length (pack_six chars) / 3 + 1) * 4) 1 ≡ false =
      ltb-false ((length (pack_six chars) / 3 + 1) * 4) 1 (omega arith) in
    rw (within, some_size, field, six_bit_text-pack_six chars h e, str_of, text_of) refl

-- Up to 84 characters from 20h to 5Fh, in groups of four, that stand packed in a field of 6-bit
-- ASCII are what `get_fru_area_str` returns, wherever the field stands in the data, and the
-- offset is then that of the byte behind the field.
pub get_fru_area_str-six_bit :
    (before chars after : List ℕ)
    → All IsSixBit chars
    → length chars % 4 ≡ 0
    → length chars ≤ 84
    → get_fru_area_str (before ++ (six_bit_field chars ++ after)) (length before)
      ≡ some (some chars, length before + 1 + length (pack_six chars))
unfolding get_fru_area_str
get_fru_area_str-six_bit before chars after h e le =
    let bytes = before ++ (six_bit_field chars ++ after) in
    let packed = length-pack_six chars in
    let b = 0x80 + length (pack_six chars) in
    let type_two : b / 64 ≡ 2 = omega (arith, packed, le) in
    let its_length : b % 64 ≡ length (pack_six chars) = omega (arith, packed, le) in
    let room : length before + 1 + length (pack_six chars) ≤ length bytes = omega (
      arith,
      length-append before (six_bit_field chars ++ after),
      length-append (pack_six chars) after,
    ) in
    ap (λ (t : ℕ). str_of (t / 64) (t % 64) bytes (length before))
      (get_or-append before b (pack_six chars ++ after))
    ∙ ap₂ (λ (t n : ℕ). str_of t n bytes (length before)) type_two its_length
    ∙ str_of-six_bit bytes chars (length before) room
        (slice-append_field before b (pack_six chars) after) h e

-- What is asked of a field's text and of the offset behind it.
abbrev pub FieldFits : ℕ → ℕ → List ℕ → ℕ → Option (Option (List ℕ) × ℕ) → Type 0
FieldFits typecode len bytes offset none = length bytes < offset + 1 + len
FieldFits typecode len bytes offset (some (none, next)) =
    (text_size typecode len ≡ 0) × (next ≡ offset + 1) × (next ≤ length bytes)
FieldFits typecode len bytes offset (some (some text, next)) =
    (length text ≤ text_size typecode len) × (next ≡ offset + 1 + len) × (next ≤ length bytes)

str_of-FieldFits :
    (typecode len : ℕ) (bytes : List ℕ) (offset : ℕ)
    → FieldFits typecode len bytes offset (str_of typecode len bytes offset)
unfolding str_of
str_of-FieldFits typecode len bytes offset =
    let field = slice (offset + 1) len bytes in
    elim (Bool-cases (ltb (length bytes) (offset + 1 + len))) [
      | inl past ↦ rw (past, str_of) (ltb→lt (length bytes) (offset + 1 + len) past)
      | inr within ↦
          let le : offset + 1 + len ≤ length bytes =
            ltb-false_le (length bytes) (offset + 1 + len) within in
          elim (Bool-cases (ltb (text_size typecode len) 1)) [
            | inl empty ↦
                rw (within, empty, str_of)
                  (omega (arith, ltb→lt (text_size typecode len) 1 empty), refl, omega (arith, le))
            | inr text ↦
                let whole : length field ≡ len = length-slice (offset + 1) len bytes le in
                rw (within, text, str_of) (length-text_of typecode len field whole, refl, le)
          ]
    ]

-- `get_fru_area_str` stores at most as many characters as it allocates before the NUL, and leaves
-- the offset right behind the field, and not behind the data. Where nothing is to be
-- stored it returns NULL, with the offset behind the field's first byte; it reads outside the data
-- only where the field does not end within them.
pub get_fru_area_str-FieldFits :
    (bytes : List ℕ) (offset : ℕ)
    → FieldFits
        (get_or bytes offset 0 / 64)
        (get_or bytes offset 0 % 64)
        bytes
        offset
        (get_fru_area_str bytes offset)
unfolding get_fru_area_str
get_fru_area_str-FieldFits bytes offset =
    str_of-FieldFits (get_or bytes offset 0 / 64) (get_or bytes offset 0 % 64) bytes offset
