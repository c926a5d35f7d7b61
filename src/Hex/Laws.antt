-- ===== src/Hex/Laws.antt =====
-- lib/helper.c: text that `buf2str_extended` writes and `ipmi_parse_hex` reads.
use mathlib.Core.Path.{subst}
use ipmitool.Common.{
  ℕ, suc, zero, ◌+◌, ◌-◌, ◌*◌, ◌/◌, ◌%◌, ◌≤◌, ◌<◌, ◌≡◌, refl, List, [], ◌∷◌, ◌++◌, Option, none,
  some, true, false, ◌==◌, leb, if◌then◌else◌, length, length-append, length-take_le, take, ltb,
  ◌||◌, arith, ◌∙◌, u8, inl, inr, Bool-cases, All, same_on_bytes_sound, holds_below_sound,
}
use ipmitool.Common.Bytes.{holds_below}
use ipmitool.Hex.{
  SepStep, sep_break, sep_overrun, sep_next, cut_separator, behind, hex_byte, nibble, separator,
  hex_from, buf2str_extended, buf2str_maximum_output_size, is_xdigit, digit, HexState, store_digit,
  parse_digits, hex_len, not_hex, parse_hex,
}

abbrev reading : ℕ → List ℕ → HexState
reading n before = record { space = n; high = true; b = 0; stored = before }

-- The two digits of a byte, read.
digits_read :
    (b : ℕ)
    → b < 256
    → (is_xdigit (nibble (b / 16)) ≡ true)
      × (is_xdigit (nibble (b % 16)) ≡ true)
      × (u8 (u8 (0 + digit (nibble (b / 16)) * 16) + digit (nibble (b % 16))) ≡ b)
unfolding holds_below
digits_read b h = (
  holds_below_sound 256 (λ b. is_xdigit (nibble (b / 16))) b refl h,
  holds_below_sound 256 (λ b. is_xdigit (nibble (b % 16))) b refl h,
  same_on_bytes_sound (λ b. u8 (u8 (0 + digit (nibble (b / 16)) * 16) + digit (nibble (b % 16))))
      (λ b. b) b refl h,
)

two_digits :
    (n d e : ℕ) (before : List ℕ)
    → ((store_digit (reading (suc n) before) d).stored ≡ [])
      × (store_digit (store_digit (reading (suc n) before) d) e
          ≡ reading n (u8 (u8 (0 + d * 16) + e) ∷ []))
unfolding store_digit
two_digits n d e before =
    let room : (suc n == 0) ≡ false = ground arith in
    let left : suc n - 1 ≡ n = omega arith in (rw room refl, rw room (rw room (rw left refl)))

parse_digits-byte :
    (b : ℕ) (str : List ℕ) (n : ℕ) (before : List ℕ)
    → b < 256
    → parse_digits (hex_byte b ++ str) (reading (suc n) before) ≡ record {
      complete = (parse_digits str (reading n (b ∷ []))).complete;
      out = b ∷ (parse_digits str (reading n (b ∷ []))).out;
    }
unfolding parse_digits store_digit
parse_digits-byte b str n before h =
    let d = digits_read b h in
    let two = two_digits n (digit (nibble (b / 16))) (digit (nibble (b % 16))) before in
    rw (d.0, d.1) (rw (two.0, two.1) (rw d.2 refl))

-- Without a separator, the digits of bytes that fit are all written.
abbrev digits_of : List ℕ → List ℕ
digits_of [] = []
digits_of (b ∷ bytes) = hex_byte b ++ digits_of bytes

length-digits_of : (bytes : List ℕ) → length (digits_of bytes) ≡ length bytes * 2
length-digits_of [] = refl
length-digits_of (b ∷ bytes) = omega (arith, length-digits_of bytes)

hex_from-whole :
    (old : ℕ) (bytes : List ℕ) (left : ℕ)
    → length bytes * 2 < left
    → hex_from old none bytes left ≡ some (digits_of bytes)
unfolding hex_from separator
hex_from-whole old [] left h = refl
hex_from-whole old (b ∷ bytes) left h =
    let room : leb left 2 ≡ false = ground (arith, h) in
    rw (room, hex_from) (rw (hex_from-whole old bytes (left - 2 - 0) (omega (arith, h))) refl)

parse-digits_of :
    (bytes : List ℕ) (n : ℕ) (before : List ℕ)
    → All (λ b. b < 256) bytes
    → length bytes ≤ n
    → parse_digits (digits_of bytes) (reading n before) ≡ record { complete = true; out = bytes }
parse-digits_of [] n before small room = unfold parse_digits in refl
parse-digits_of (b ∷ bytes) zero before small room = absurd (omega (arith, room))
parse-digits_of (b ∷ bytes) (suc n) before small room =
    parse_digits-byte b (digits_of bytes) n before small.0
    ∙ rw (parse-digits_of bytes n (b ∷ []) small.1 (omega (arith, room))) refl

parse_hex_lem :
    (str : List ℕ) (n : ℕ)
    → (length str % 2 == 0) ≡ true
    → parse_hex str (some n) ≡ (
      (if (parse_digits str (reading n [])).complete then hex_len (length str / 2) else not_hex),
      (parse_digits str (reading n [])).out,
    )
unfolding parse_hex
parse_hex_lem [] n e = unfold parse_digits in refl
parse_hex_lem (c ∷ str) n e = rw e refl

-- Up to 1536 bytes, written as hexadecimal text without a separator and read back into a buffer
-- of at least their number, give exactly themselves, and the result is their number.
pub parse_hex-buf2str :
    (old : ℕ) (bytes : List ℕ) (size : ℕ)
    → All (λ b. b < 256) bytes
    → length bytes ≤ 1536
    → length bytes ≤ size
    → (text : List ℕ) × (buf2str_extended old (some bytes) none ≡ some text)
      × (parse_hex text (some size) ≡ (hex_len (length bytes), bytes))
unfolding buf2str_extended
parse_hex-buf2str old bytes size small few room =
    let len = length-digits_of bytes in
    let even : (length (digits_of bytes) % 2 == 0) ≡ true = ground (arith, len) in
    let half : length (digits_of bytes) / 2 ≡ length bytes = omega (arith, len) in
    (
      digits_of bytes,
      hex_from-whole old bytes buf2str_maximum_output_size (omega (arith, few)),
      parse_hex_lem (digits_of bytes) size even
          ∙ rw (parse-digits_of bytes size [] small room) (rw half refl),
    )

-- Text that stands in `left` characters with its NUL, if no write was out of range.
abbrev TextFits : ℕ → Option (List ℕ) → Type 0
TextFits left none = Unit
TextFits left (some text) = length text + 1 ≤ left

cut_separator-le : (old : ℕ) (sep : List ℕ) (n : ℕ) → length (cut_separator old sep n) ≤ n + 1
unfolding cut_separator
cut_separator-le old sep n = elim (Bool-cases (length sep == 1 || old == 0)) [
  | inl ended ↦ rw ended (omega (arith, length-append (take n sep) [], length-take_le n sep))
  | inr kept ↦ rw kept (omega (arith, length-append (take n sep) (old ∷ []), length-take_le n sep))
]

-- A separator that is written is no longer than the pointer moves, which stays in the array.
abbrev StepFits : ℕ → SepStep → Type 0
StepFits left sep_break = Unit
StepFits left sep_overrun = Unit
StepFits left (sep_next s n) = (length s ≤ n) × (n < left)

separator-StepFits :
    (old : ℕ) (sep : Option (List ℕ)) (bytes : List ℕ) (left : ℕ)
    → 1 ≤ left
    → StepFits left (separator old sep bytes left)
unfolding separator
separator-StepFits old none bytes left h = (omega arith, h)
separator-StepFits old (some sep) [] left h = (omega arith, h)
separator-StepFits old (some sep) (b ∷ bytes) left h = elim (Bool-cases (leb left (length sep))) [
  | inl long ↦ rw long tt
  | inr short ↦ elim (Bool-cases (ltb left 2)) [
    | inl negative ↦ rw (short, negative) tt
    | inr fine ↦ elim (Bool-cases (leb (length sep) (left - 2))) [
      | inl whole ↦ rw (short, fine) (rw whole (omega arith, ground (arith, short)))
      | inr cut ↦
          let size : left - 2 + 1 ≤ length sep = ground (arith, cut) in
          rw (short, fine)
            (rw cut
              (omega (arith, cut_separator-le old sep (left - 2), size), ground (arith, short)))
    ]
  ]
]

behind-TextFits :
    (text : List ℕ) (n left : ℕ) (more : Option (List ℕ))
    → length text ≤ n
    → n < left
    → TextFits (left - n) more
    → TextFits left (behind text more)
behind-TextFits text n left none short room h = tt
behind-TextFits text n left (some more) short room h =
    omega (arith, length-append text more, short, room, h)

stepped :
    (old b : ℕ) (sep : Option (List ℕ)) (bytes : List ℕ) (left : ℕ) (step : SepStep)
    → 3 ≤ left
    → separator old sep bytes (left - 2) ≡ step
    → StepFits (left - 2) step
    → ((n : ℕ) → n < left - 2 → TextFits (left - 2 - n) (hex_from old sep bytes (left - 2 - n)))
    → TextFits left (hex_from old sep (b ∷ bytes) left)
unfolding hex_from
stepped old b sep bytes left sep_break room e fits rest =
    let more : leb left 2 ≡ false = ground (arith, room) in
    rw (more, hex_from) (rw (e, hex_from) (omega (arith, room)))
stepped old b sep bytes left sep_overrun room e fits rest =
    let more : leb left 2 ≡ false = ground (arith, room) in
    rw (more, hex_from) (rw (e, hex_from) tt)
stepped old b sep bytes left (sep_next s n) room e fits rest =
    let more : leb left 2 ≡ false = ground (arith, room) in
    let same : left - 2 - n ≡ left - (n + 2) = omega arith in
    rw (more, hex_from)
      (rw (e, hex_from)
        (behind-TextFits (hex_byte b ++ s) (n + 2) left (hex_from old sep bytes (left - 2 - n))
          (omega (arith, fits.0)) (omega (arith, fits.1))
          (subst (λ (k : ℕ). TextFits k (hex_from old sep bytes (left - 2 - n))) same
            (rest n fits.1))))

hex_from-TextFits :
    (old : ℕ) (sep : Option (List ℕ)) (bytes : List ℕ) (left : ℕ)
    → 1 ≤ left
    → TextFits left (hex_from old sep bytes left)
hex_from-TextFits old sep [] left h = unfold hex_from in omega (arith, h)
hex_from-TextFits old sep (b ∷ bytes) left h = elim (Bool-cases (leb left 2)) [
  | inl full ↦ unfold hex_from in rw (full, hex_from) (omega (arith, h))
  | inr more ↦
      let room : 3 ≤ left = ground (arith, more) in
      stepped old b sep bytes left (separator old sep bytes (left - 2)) room refl
        (separator-StepFits old sep bytes (left - 2) (omega (arith, room)))
        (λ n short. hex_from-TextFits old sep bytes (left - 2 - n) (omega (arith, short)))
]

-- Whatever the bytes, their number and the separator, if no write was out of range then the text
-- and its NUL fit into the static array of `buf2str_extended`.
buf2str_extended-fits :
    (old : ℕ) (bytes sep : Option (List ℕ))
    → TextFits buf2str_maximum_output_size (buf2str_extended old bytes sep)
unfolding buf2str_extended
buf2str_extended-fits old none sep = omega arith
buf2str_extended-fits old (some bytes) sep =
    hex_from-TextFits old sep bytes buf2str_maximum_output_size (omega arith)
