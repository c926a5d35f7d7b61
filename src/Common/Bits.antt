-- ===== src/Common/Bits.antt =====
-- Facts about `&` and `|` on bytes, checked value by value: a mask is a remainder or a multiple, and
-- disjoint fields are joined by a sum.
use Prim.Native.Nat.{ℕ, ◌+◌, ◌*◌, ◌/◌, ◌%◌, ◌<◌, bit_and, bit_or}
use mathlib.Core.Path.{◌≡◌, refl}
use native.Mathlib.Omega.{arith}
use ipmitool.Common.Bytes.{holds_below, same_on_bytes_sound}

pub set_four : (x : ℕ) → x < 256 → bit_and (bit_or x 4) 0xFC ≡ x / 8 * 8 + 4
unfolding holds_below
set_four x h = same_on_bytes_sound (λ x. bit_and (bit_or x 4) 0xFC) (λ x. x / 8 * 8 + 4) x refl h

pub clear_low_two : (x : ℕ) → x < 256 → bit_and x 0xFC ≡ x / 4 * 4
unfolding holds_below
clear_low_two x h = same_on_bytes_sound (λ x. bit_and x 0xFC) (λ x. x / 4 * 4) x refl h

pub keep_low_two : (x : ℕ) → x < 256 → bit_and x 3 ≡ x % 4
unfolding holds_below
keep_low_two x h = same_on_bytes_sound (λ x. bit_and x 3) (λ x. x % 4) x refl h

pub or_low_two : (x : ℕ) → x < 256 → bit_or (x / 4 * 4) (x % 4) ≡ x
unfolding holds_below
or_low_two x h = same_on_bytes_sound (λ x. bit_or (x / 4 * 4) (x % 4)) (λ x. x) x refl h

-- Six bits above two are joined by `|` as by a sum.
pub bit_or_lun : (a b : ℕ) → a < 64 → b < 4 → bit_or (a * 4) b ≡ a * 4 + b
bit_or_lun a b p q =
    let e = or_low_two (a * 4 + b) (omega arith) in
    let e1 : (a * 4 + b) / 4 * 4 ≡ a * 4 = omega arith in
    let e2 : (a * 4 + b) % 4 ≡ b = omega arith in rw (e1, e2) at e
