-- ===== src/Common/Bytes.antt =====
-- Bytes as numbers below 256: the casts of C, sums, and facts about bit operations over one byte,
-- checked value by value.
use Prim.Native.Nat.{ℕ, zero, suc, ◌+◌, ◌%◌, ◌<◌}
use mathlib.Core.Path.{◌≡◌}
use mathlib.Core.Bool.{Bool, true, ◌&&◌}
use mathlib.Core.List.{List, [], ◌∷◌, ◌++◌}
use native.Mathlib.Omega.{arith}
use ipmitool.Common.Tests.{◌==◌, ==→eq}

abbrev pub u8 : ℕ → ℕ
u8 n = n % 256

abbrev pub u16 : ℕ → ℕ
u16 n = n % 65536

abbrev pub u32 : ℕ → ℕ
u32 n = n % 4294967296

abbrev pub total : List ℕ → ℕ
total [] = 0
total (x ∷ xs) = x + total xs

pub total-append : (xs ys : List ℕ) → total (xs ++ ys) ≡ total xs + total ys
total-append [] ys = omega arith
total-append (x ∷ xs) ys = omega (arith, total-append xs ys)

-- Does the test hold of every number below the bound?
unfoldable pub holds_below : ℕ → (ℕ → Bool) → Bool
holds_below zero test = true
holds_below (suc n) test = test n && holds_below n test

pub holds_below_sound :
    (n : ℕ) (test : ℕ → Bool) (x : ℕ) → holds_below n test ≡ true → x < n → test x ≡ true
unfolding holds_below
holds_below_sound zero test x h lt = absurd (omega arith)
holds_below_sound (suc n) test x h lt = ground (arith, holds_below_sound n test x)

-- Two functions that agree on every byte by evaluation.
abbrev pub same_on_bytes : (f g : ℕ → ℕ) → Bool
same_on_bytes f g = holds_below 256 (λ x. f x == g x)

pub same_on_bytes_sound : (f g : ℕ → ℕ) (x : ℕ) → same_on_bytes f g ≡ true → x < 256 → f x ≡ g x
same_on_bytes_sound f g x h lt = ==→eq (f x) (g x) (holds_below_sound 256 (λ y. f y == g y) x h lt)
