-- ===== src/Checksum.antt =====
-- lib/helper.c: `ipmi_csum`, the two's complement checksum of every IPMB message.
-- The pointer and the length are the list of the bytes that are read.
use ipmitool.Common.{
  ℕ, ◌+◌, ◌-◌, ◌%◌, ◌<◌, ◌≡◌, ◌↔◌, List, [], ◌∷◌, ◌++◌, arith, u8, total, total-append,
}

-- The loop `c += *d`, and `return -c`, both cut to a uint8_t.
unfoldable pub csum_from : ℕ → List ℕ → ℕ
csum_from c [] = u8 (256 - c)
csum_from c (x ∷ xs) = csum_from (u8 (c + x)) xs

unfoldable pub ipmi_csum : List ℕ → ℕ
unfolding csum_from
ipmi_csum d = csum_from 0 d

csum_from-total : (c : ℕ) (d : List ℕ) → c < 256 → csum_from c d ≡ (256 - (c + total d) % 256) % 256
unfolding csum_from
csum_from-total c [] h = omega arith
csum_from-total c (x ∷ xs) h = omega (arith, csum_from-total (u8 (c + x)) xs (omega arith))

-- The loop in closed form.
pub ipmi_csum-total : (d : List ℕ) → ipmi_csum d ≡ (256 - total d % 256) % 256
unfolding ipmi_csum
ipmi_csum-total d = omega (arith, csum_from-total 0 d (omega arith))

pub ipmi_csum-lt : (d : List ℕ) → ipmi_csum d < 256
ipmi_csum-lt d = omega (arith, ipmi_csum-total d)

-- Appending its checksum to a byte sequence gives one whose checksum is 0, and a sequence has
-- checksum 0 exactly when its bytes sum to a multiple of 256.
pub csum_closes :
    (d e : List ℕ)
    → (ipmi_csum (d ++ ipmi_csum d ∷ []) ≡ 0) × ((ipmi_csum e ≡ 0) ↔ (total e % 256 ≡ 0))
csum_closes d e = (
  omega (
    arith,
    ipmi_csum-total d,
    ipmi_csum-total (d ++ ipmi_csum d ∷ []),
    total-append d (ipmi_csum d ∷ []),
  ),
  ((λ h. omega (arith, ipmi_csum-total e)), (λ h. omega (arith, ipmi_csum-total e))),
)

pub total-ipmi_csum : (d : List ℕ) → (total d + ipmi_csum d) % 256 ≡ 0
total-ipmi_csum d = omega (arith, ipmi_csum-total d)

pub ipmi_csum_zero : (d : List ℕ) → total d % 256 ≡ 0 → ipmi_csum d ≡ 0
ipmi_csum_zero d h = omega (arith, ipmi_csum-total d)
