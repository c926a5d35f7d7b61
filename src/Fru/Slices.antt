-- ===== src/Fru/Slices.antt =====
-- Parts of a memory that are read, and parts of a buffer that are overwritten.
use ipmitool.Common.{
  ℕ, zero, suc, ◌+◌, ◌≤◌, ◌≡◌, refl, sym, ap, ap₂, ◌∙◌, List, [], ◌∷◌, ◌++◌, length, length-append,
  length-take, length-drop, take, drop, take_middle, drop_middle, append_assoc, take-drop, arith,
}

abbrev pub slice : ℕ → ℕ → List ℕ → List ℕ
slice off n xs = take n (drop off xs)

-- `memcpy(buf + pos, bytes, ...)` into a buffer that has the room.
abbrev pub write_at : ℕ → List ℕ → List ℕ → List ℕ
write_at pos bytes buf = take pos buf ++ (bytes ++ drop (pos + length bytes) buf)

pub length-slice : (off n : ℕ) (xs : List ℕ) → off + n ≤ length xs → length (slice off n xs) ≡ n
length-slice off n xs h = length-take n (drop off xs) (omega (arith, length-drop off xs, h))

take_none : (k : ℕ) → take {A = ℕ} k [] ≡ []
take_none zero = refl
take_none (suc k) = refl

drop_none : (k : ℕ) → drop {A = ℕ} k [] ≡ []
drop_none zero = refl
drop_none (suc k) = refl

add_suc_lem : (n k : ℕ) → suc (n + k) ≡ suc n + k
add_suc_lem n k = omega arith

take_more : (n k : ℕ) (xs : List ℕ) → take n xs ++ take k (drop n xs) ≡ take (n + k) xs
take_more zero k xs = ap (λ (m : ℕ). take m xs) (omega arith)
take_more (suc n) k [] = take_none k ∙ sym (take_none (suc n + k))
take_more (suc n) k (x ∷ xs) =
    ap (λ (t : List ℕ). x ∷ t) (take_more n k xs)
    ∙ ap (λ (m : ℕ). take m (x ∷ xs)) (add_suc_lem n k)

drop_more : (n k : ℕ) (xs : List ℕ) → drop k (drop n xs) ≡ drop (n + k) xs
drop_more zero k xs = ap (λ (m : ℕ). drop m xs) (omega arith)
drop_more (suc n) k [] = drop_none k ∙ sym (drop_none (suc n + k))
drop_more (suc n) k (x ∷ xs) = drop_more n k xs ∙ ap (λ (m : ℕ). drop m (x ∷ xs)) (add_suc_lem n k)

-- Two slices that meet are one.
pub slice-append :
    (off n k : ℕ) (xs : List ℕ) → slice off n xs ++ slice (off + n) k xs ≡ slice off (n + k) xs
slice-append off n k xs =
    ap (λ (t : List ℕ). slice off n xs ++ take k t) (sym (drop_more off n xs))
    ∙ take_more n k (drop off xs)

pub length-write_at :
    (pos : ℕ) (bytes buf : List ℕ)
    → pos + length bytes ≤ length buf
    → length (write_at pos bytes buf) ≡ length buf
length-write_at pos bytes buf h = omega (
  arith,
  length-append (take pos buf) (bytes ++ drop (pos + length bytes) buf),
  length-append bytes (drop (pos + length bytes) buf),
  length-take pos buf (omega (arith, h)),
  length-drop (pos + length bytes) buf,
)

-- What stands before the end of the write.
pub take-write_at :
    (pos : ℕ) (bytes buf : List ℕ)
    → pos ≤ length buf
    → take (pos + length bytes) (write_at pos bytes buf) ≡ take pos buf ++ bytes
take-write_at pos bytes buf h =
    let before = take pos buf in
    ap (take (pos + length bytes)) (sym (append_assoc before bytes (drop (pos + length bytes) buf)))
    ∙ take_middle (pos + length bytes) (before ++ bytes) (drop (pos + length bytes) buf)
        (length-append before bytes ∙ omega (arith, length-take pos buf h))

pub drop-write_at :
    (pos n : ℕ) (bytes buf : List ℕ)
    → pos ≤ length buf
    → drop (pos + length bytes + n) (write_at pos bytes buf) ≡ drop (pos + length bytes + n) buf
drop-write_at pos n bytes buf h =
    let before = take pos buf in
    let after = drop (pos + length bytes) buf in
    sym (drop_more (pos + length bytes) n (write_at pos bytes buf))
    ∙ ap (drop n) (
        ap (drop (pos + length bytes)) (sym (append_assoc before bytes after))
        ∙ drop_middle (pos + length bytes) (before ++ bytes) after
            (length-append before bytes ∙ omega (arith, length-take pos buf h)))
    ∙ drop_more (pos + length bytes) n buf

-- Two writes that meet are one.
pub write_at-append :
    (pos : ℕ) (xs ys buf : List ℕ)
    → pos ≤ length buf
    → write_at (pos + length xs) ys (write_at pos xs buf) ≡ write_at pos (xs ++ ys) buf
write_at-append pos xs ys buf h =
    let before = take pos buf in
    let after = drop (pos + length (xs ++ ys)) buf in
    let same : pos + length xs + length ys ≡ pos + length (xs ++ ys) =
      omega (arith, length-append xs ys) in
    ap₂ (λ (s t : List ℕ). s ++ (ys ++ t)) (take-write_at pos xs buf h)
      (drop-write_at pos (length ys) xs buf h)
    ∙ ap (λ (m : ℕ). before ++ xs ++ (ys ++ drop m buf)) same
    ∙ append_assoc before xs (ys ++ after)
    ∙ ap (λ (t : List ℕ). before ++ t) (sym (append_assoc xs ys after))

pub write_at_none : (pos : ℕ) (buf : List ℕ) → buf ≡ write_at pos [] buf
write_at_none pos buf =
    sym (ap (λ (m : ℕ). take pos buf ++ drop m buf) (omega arith) ∙ take-drop pos buf)
