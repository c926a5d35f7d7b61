-- ===== src/Serial/ParseLaws.antt =====
-- The receiving state machine: bounds of the message buffer, and parsing in several pieces.
use ipmitool.Common.{
  ℕ, suc, ◌+◌, ◌≤◌, ◌≡◌, ◌≢◌, refl, List, [], ◌∷◌, ◌++◌, Option, none, some, arith, length,
  length-append, ap, ◌⊎◌, inl, inr, ◌∙◌,
}
use ipmitool.Serial.Parse.{
  msg_done, ParseCtx, Turn, go_on, stop, too_long, parse_escaped, parse_plain, parse_byte, Parsed,
  parse_from, parse_buffer, Fits,
}

abbrev turn_ctx : Turn → ParseCtx
turn_ctx (go_on c) = c
turn_ctx (stop c) = c
turn_ctx (too_long c) = c

length-snoc : (xs : List ℕ) (x : ℕ) → length (xs ++ x ∷ []) ≡ length xs + 1
length-snoc xs x = omega (arith, length-append xs (x ∷ []))

parse_escaped-Fits :
    (b : ℕ) (c : ParseCtx)
    → Fits c
    → Fits (turn_ctx (parse_escaped b c)) × ((turn_ctx (parse_escaped b c)).max_len ≡ c.max_len)
unfolding parse_escaped
parse_escaped-Fits b c h = grind (arith, length-snoc)

parse_plain-Fits :
    (b : ℕ) (c : ParseCtx)
    → Fits c
    → Fits (turn_ctx (parse_plain b c)) × ((turn_ctx (parse_plain b c)).max_len ≡ c.max_len)
unfolding parse_plain
parse_plain-Fits b c h = ground (arith, length-snoc c.msg b)

parse_byte-Fits :
    (b : ℕ) (c : ParseCtx)
    → Fits c
    → Fits (turn_ctx (parse_byte b c)) × ((turn_ctx (parse_byte b c)).max_len ≡ c.max_len)
unfolding parse_byte
parse_byte-Fits b c h = ground (arith, parse_escaped-Fits b c, parse_plain-Fits b c)

pub Turn-cases :
    (t : Turn)
    → ((d : ParseCtx) × (t ≡ go_on d))
      ⊎ (((d : ParseCtx) × (t ≡ stop d)) ⊎ ((d : ParseCtx) × (t ≡ too_long d)))
Turn-cases (go_on d) = inl (d, refl)
Turn-cases (stop d) = inr (inl (d, refl))
Turn-cases (too_long d) = inr (inr (d, refl))

abbrev pub CountOk : ℕ → ℕ → Option ℕ → Type 0
CountOk i n none = Unit {0}
CountOk i n (some k) = (i ≤ k) × (k ≤ i + n)

abbrev InBounds : ParseCtx → ℕ → ℕ → Parsed → Type 0
InBounds c i n p = Fits p.ctx × (p.ctx.max_len ≡ c.max_len) × CountOk i n p.count

CountOk-suc : (i n : ℕ) (o : Option ℕ) → CountOk (i + 1) n o → CountOk i (suc n) o
CountOk-suc i n none h = h
CountOk-suc i n (some k) h = omega arith

parse_from-InBounds :
    (bytes : List ℕ) (i : ℕ) (c : ParseCtx)
    → Fits c
    → InBounds c i (length bytes) (parse_from bytes i c)
unfolding parse_from
parse_from-InBounds [] i c h = (h, refl, omega arith)
parse_from-InBounds (b ∷ rest) i c h =
    let fits = parse_byte-Fits b c h in
    elim (Turn-cases (parse_byte b c)) [
      | inl (d, e) ↦
          let fits' = rw e at fits in
          let ih = parse_from-InBounds rest (i + 1) d fits'.0 in
          rw (e, parse_from) (ih.0, ih.1 ∙ fits'.1, CountOk-suc i (length rest) _ ih.2)
      | inr (inl (d, e)) ↦
          let fits' = rw e at fits in rw (e, parse_from) (fits'.0, fits'.1, omega arith)
      | inr (inr (d, e)) ↦ let fits' = rw e at fits in rw (e, parse_from) (fits'.0, fits'.1, tt)
    ]

-- From a context whose message fits the caller's buffer, and whatever the bytes, the parser keeps
-- the message within that buffer and leaves the buffer's size alone; a count that it returns
-- (rather than -1) is at most the number of bytes that it was given.
pub parse_buffer-Fits :
    (bytes : List ℕ) (c : ParseCtx)
    → Fits c
    → Fits (parse_buffer bytes c).ctx
      × ((parse_buffer bytes c).ctx.max_len ≡ c.max_len)
      × CountOk 0 (length bytes) (parse_buffer bytes c).count
unfolding parse_buffer
parse_buffer-Fits bytes c h = parse_from-InBounds bytes 0 c h

pub parse_byte-stop : (b : ℕ) (c d : ParseCtx) → parse_byte b c ≡ stop d → d.state ≡ msg_done
unfolding parse_byte parse_escaped parse_plain
parse_byte-stop b c d h = ground arith

-- A piece of the stream that is parsed without an error and without completing a message can be
-- parsed on its own: what follows it is then parsed from the context that it left, and the count
-- goes on from its length.
pub parse_from-append :
    (xs ys : List ℕ) (i : ℕ) (c : ParseCtx)
    → (parse_from xs i c).count ≢ none
    → (parse_from xs i c).ctx.state ≢ msg_done
    → parse_from (xs ++ ys) i c ≡ parse_from ys (i + length xs) (parse_from xs i c).ctx
unfolding parse_from
parse_from-append [] ys i c ok more = ap (λ (n : ℕ). parse_from ys n c) (omega arith)
parse_from-append (b ∷ xs) ys i c ok more = elim (Turn-cases (parse_byte b c)) [
  | inl (d, e) ↦
      rw (e, parse_from)
        (parse_from-append xs ys (i + 1) d (rw (e, parse_from) at ok) (rw (e, parse_from) at more)
          ∙ ap (λ (n : ℕ). parse_from ys n (parse_from xs (i + 1) d).ctx) (omega arith))
  | inr (inl (d, e)) ↦ absurd ((rw (e, parse_from) at more) (parse_byte-stop b c d e))
  | inr (inr (d, e)) ↦ absurd ((rw (e, parse_from) at ok) refl)
]
