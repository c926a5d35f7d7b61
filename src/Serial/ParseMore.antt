-- ===== src/Serial/ParseMore.antt =====
-- More on `parse_buffer`: a completed message, an error, and the count, under what follows.
use ipmitool.Common.{
  sym, ℕ, ◌+◌, ◌≡◌, ◌≢◌, refl, List, [], ◌∷◌, ◌++◌, none, some, true, false, arith, length, ap, ◌∙◌,
  inl, inr,
}
use ipmitool.Serial.Parse.{
  ParseCtx, go_on, too_long, parse_escaped, parse_plain, parse_byte, Parsed, parse_from,
}
use ipmitool.Serial.Receive.{is_done}
use ipmitool.Serial.ParseLaws.{Turn-cases, parse_byte-stop}
use mathlib.Core.Bool.{false≢true}

-- A result with its count moved by the bytes that came before.
abbrev pub shift : ℕ → Parsed → Parsed
shift i p = record { count = elim p.count [ none ↦ none | some k ↦ some (i + k) ]; ctx = p.ctx }

pub parse_from-shift :
    (xs : List ℕ) (i j : ℕ) (c : ParseCtx) → parse_from xs (i + j) c ≡ shift i (parse_from xs j c)
unfolding parse_from
parse_from-shift [] i j c = refl
parse_from-shift (b ∷ xs) i j c = elim (Turn-cases (parse_byte b c)) [
  | inl (d, e) ↦
      rw (e, parse_from)
        (ap (λ (n : ℕ). parse_from xs n d) (omega arith) ∙ parse_from-shift xs i (j + 1) d)
  | inr (inl (d, e)) ↦ rw (e, parse_from) (ground arith)
  | inr (inr (d, e)) ↦ rw (e, parse_from) refl
]

parse_byte-go_on :
    (b : ℕ) (c d : ParseCtx)
    → parse_byte b c ≡ go_on d
    → is_done c.state ≡ false
    → is_done d.state ≡ false
unfolding parse_byte parse_escaped parse_plain
parse_byte-go_on b c d h n = ground arith

parse_byte-too_long :
    (b : ℕ) (c d : ParseCtx)
    → parse_byte b c ≡ too_long d
    → is_done c.state ≡ false
    → is_done d.state ≡ false
unfolding parse_byte parse_escaped parse_plain
parse_byte-too_long b c d h n = ground arith

-- Behind a completed message nothing is read.
pub parse_from-done :
    (xs ys : List ℕ) (i : ℕ) (c : ParseCtx)
    → is_done c.state ≡ false
    → is_done (parse_from xs i c).ctx.state ≡ true
    → parse_from (xs ++ ys) i c ≡ parse_from xs i c
unfolding parse_from
parse_from-done [] ys i c n h = absurd (false≢true (sym n ∙ h))
parse_from-done (b ∷ xs) ys i c n h = elim (Turn-cases (parse_byte b c)) [
  | inl (d, e) ↦
      rw (e, parse_from)
        (parse_from-done xs ys (i + 1) d (parse_byte-go_on b c d e n) (rw (e, parse_from) at h))
  | inr (inl (d, e)) ↦ rw (e, parse_from) refl
  | inr (inr (d, e)) ↦ rw (e, parse_from) refl
]

-- An error is not undone by what follows.
pub parse_from-none :
    (xs ys : List ℕ) (i : ℕ) (c : ParseCtx)
    → (parse_from xs i c).count ≡ none
    → (parse_from (xs ++ ys) i c).count ≡ none
unfolding parse_from
parse_from-none [] ys i c h = cc
parse_from-none (b ∷ xs) ys i c h = elim (Turn-cases (parse_byte b c)) [
  | inl (d, e) ↦ rw (e, parse_from) (parse_from-none xs ys (i + 1) d (rw (e, parse_from) at h))
  | inr (inl (d, e)) ↦ let h' = rw (e, parse_from) at h in cc
  | inr (inr (d, e)) ↦ rw (e, parse_from) refl
]

-- Without an error and without a completed message, every byte is counted.
pub parse_from-all :
    (xs : List ℕ) (i : ℕ) (c : ParseCtx)
    → (parse_from xs i c).count ≢ none
    → is_done (parse_from xs i c).ctx.state ≡ false
    → (parse_from xs i c).count ≡ some (i + length xs)
unfolding parse_from
parse_from-all [] i c h n = ap some (omega arith)
parse_from-all (b ∷ xs) i c h n = elim (Turn-cases (parse_byte b c)) [
  | inl (d, e) ↦
      rw (e, parse_from)
        (parse_from-all xs (i + 1) d (rw (e, parse_from) at h) (rw (e, parse_from) at n)
          ∙ ap some (omega arith))
  | inr (inl (d, e)) ↦
      let n' = rw (e, parse_from) at n in let s = parse_byte-stop b c d e in cc (ap is_done s)
  | inr (inr (d, e)) ↦ absurd ((rw (e, parse_from) at h) refl)
]
