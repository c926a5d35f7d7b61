-- ===== src/Hex.antt =====
-- lib/helper.c: bytes as hexadecimal text, `buf2str_extended` and `ipmi_parse_hex`. Characters are
-- their codes.
pub mod Laws
use ipmitool.Common.{
  ℕ, ◌+◌, ◌-◌, ◌*◌, ◌/◌, ◌%◌, List, [], ◌∷◌, ◌++◌, Option, none, some, Bool, true, false, ◌==◌, ltb,
  leb, ◌&&◌, ◌||◌, if◌then◌else◌, length, take, bit_or, u8,
}

abbrev pub buf2str_maximum_output_size : ℕ
buf2str_maximum_output_size = 3 * 1024 + 1

-- A hexadecimal digit of `%2.2x`, and the two of a byte.
abbrev pub nibble : ℕ → ℕ
nibble n = if ltb n 10 then 48 + n else 87 + n

abbrev pub hex_byte : ℕ → List ℕ
hex_byte b = nibble (b / 16) ∷ nibble (b % 16) ∷ []

-- A separator: the loop is left, a write that is out of range, or the text that then stands
-- there and by how much the pointer moves.
pub data SepStep : Type 0 where
  sep_break sep_overrun : SepStep
  sep_next : List ℕ → ℕ → SepStep

-- The text where `strncpy` copies all of the separator but its last character: the place of that
-- holds the NUL of `snprintf` if it is the only one, and else what the static array held, `old`.
unfoldable pub cut_separator : ℕ → List ℕ → ℕ → List ℕ
cut_separator old sep n = take n sep ++ (if length sep == 1 || old == 0 then [] else old ∷ [])

-- With `left` characters to go behind the byte, `strncpy` is given `left - 2` as its size.
unfoldable pub separator : ℕ → Option (List ℕ) → List ℕ → ℕ → SepStep
unfolding cut_separator
separator old none bytes left = sep_next [] 0
separator old (some sep) [] left = sep_next [] 0
separator old (some sep) (b ∷ bytes) left =
    if leb left (length sep)
    then sep_break
    else if ltb left 2
    then sep_overrun
    else if leb (length sep) (left - 2)
    then sep_next sep (length sep)
    else sep_next (cut_separator old sep (left - 2)) (length sep)

abbrev pub behind : List ℕ → Option (List ℕ) → Option (List ℕ)
behind text none = none
behind text (some more) = some (text ++ more)

-- The loop, with `left` characters of the static array to go; `none` is the write out of range.
unfoldable pub hex_from : ℕ → Option (List ℕ) → List ℕ → ℕ → Option (List ℕ)
hex_from old sep [] left = some []
hex_from old sep (b ∷ bytes) left = elim (leb left 2) [
  | true ↦ some []
  | false ↦ elim (separator old sep bytes (left - 2)) [
    | sep_break ↦ some (hex_byte b)
    | sep_overrun ↦ none
    | sep_next s n ↦ behind (hex_byte b ++ s) (hex_from old sep bytes (left - 2 - n))
  ]
]

-- The text before its NUL. Without a buffer it is `<NULL>`. What the static array held matters only
-- at the place that `cut_separator` says, which is reached once at most.
unfoldable pub buf2str_extended : ℕ → Option (List ℕ) → Option (List ℕ) → Option (List ℕ)
unfolding hex_from separator
buf2str_extended old none sep = some (0x3C ∷ 0x4E ∷ 0x55 ∷ 0x4C ∷ 0x4C ∷ 0x3E ∷ [])
buf2str_extended old (some bytes) sep = hex_from old sep bytes buf2str_maximum_output_size

-- `buf2str`; without a separator nothing is written out of range and nothing old is kept.
unfoldable pub buf2str : List ℕ → List ℕ
unfolding buf2str_extended
buf2str bytes = elim (buf2str_extended 0 (some bytes) none) [ none ↦ [] | some text ↦ text ]

abbrev pub between : ℕ → ℕ → ℕ → Bool
between low c high = leb low c && leb c high

abbrev pub is_xdigit : ℕ → Bool
is_xdigit c = between 48 c 57 || between 65 c 70 || between 97 c 102

-- `d` is a uint8_t.
abbrev pub digit : ℕ → ℕ
digit c = if ltb c 65 then u8 (c + 256 - 48) else u8 (bit_or c 0x20 + 256 - 97 + 10)

-- The variables of the loop: the room behind `q`, whether `shift` is 4, `b`, and what the last
-- round stored.
pub record HexState : Type 0 where
  pub space : ℕ
  pub high : Bool
  pub b : ℕ
  pub stored : List ℕ

unfoldable pub store_digit : HexState → ℕ → HexState
store_digit s d =
    if s.space == 0
    then record s { stored = [] }
    else if s.high
    then record { space = s.space; high = false; b = u8 (s.b + d * 16); stored = [] }
    else record { space = s.space - 1; high = true; b = 0; stored = u8 (s.b + d) ∷ [] }

-- The bytes stored, and whether the text was read to its end.
pub record HexRun : Type 0 where
  pub complete : Bool
  pub out : List ℕ

unfoldable pub parse_digits : List ℕ → HexState → HexRun
parse_digits [] s = record { complete = true; out = [] }
parse_digits (c ∷ str) s =
    let s' = store_digit s (digit c) in
    let rest = parse_digits str s' in
    if is_xdigit c
    then record rest { out = s'.stored ++ rest.out }
    else record { complete = false; out = [] }

-- The results: a length, -1 for an odd length, -2 without a buffer, -3 for another character.
pub data HexResult : Type 0 where
  hex_len : ℕ → HexResult
  odd_length no_out not_hex : HexResult

-- `size` is `none` for a NULL `out`.
unfoldable pub parse_hex : List ℕ → Option ℕ → HexResult × List ℕ
unfolding parse_digits store_digit
parse_hex [] size = (hex_len 0, [])
parse_hex (c ∷ str) size =
    if length (c ∷ str) % 2 == 0
    then elim size [
      | none ↦ (no_out, [])
      | some n ↦
          let run =
            parse_digits (c ∷ str) (record { space = n; high = true; b = 0; stored = [] }) in
          (if run.complete then hex_len (length (c ∷ str) / 2) else not_hex, run.out)
    ]
    else (odd_length, [])
