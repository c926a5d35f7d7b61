-- ===== src/Hpm/Rounds.antt =====
-- lib/ipmi_hpmfwupg.c: what a round of the upload keeps and how it comes nearer to the end, for each
-- answer of the target.
use ipmitool.Common.{
  ℕ, ◌+◌, ◌-◌, ◌*◌, ◌≤◌, ◌<◌, ◌≡◌, ◌⊎◌, inl, inr, refl, sym, ap, ap₂, ◌∙◌, Bool-cases, Bool, true,
  false, ltb, leb, ◌==◌, ◌&&◌, ltb-false, List, ◌++◌, length, u8, u16, u32, arith,
}
use ipmitool.Fru.Slices.{slice, slice-append}
use ipmitool.Hpm.{Rc, success, Run, done, Port, Target}
use ipmitool.Hpm.Upload.{Upload, count_of, reduced, taken, on_answer}
use ipmitool.Hpm.Accepting.{answer_of, Took, Left, TakesFirmware}

module _ {Device : Type 0} (t : Target Device) (fuel stale : ℕ) (received : Device → List ℕ)
    (expected : Device → ℕ) (limit : ℕ) (takes : TakesFirmware t fuel stale received expected limit)
    (some_limit : 1 ≤ limit) (is_lan : Bool) (image : List ℕ) (start firmware_length : ℕ)
    (word : firmware_length < 4294967296) where
  -- What holds before each round: the first `n` bytes of the firmware are received.
  pub record Progress (n : ℕ) (s : Upload Device) : Type 0 where
    pub at : s.data_at ≡ n
    pub temp : s.temp_at ≡ 0
    pub len : s.length_of_block ≡ firmware_length
    pub n_le : n ≤ firmware_length
    pub sent : s.total_sent ≡ n
    pub stored : received s.port.device ≡ slice start n image
    pub number : s.block_number ≡ expected s.port.device
    pub some_buf : 1 ≤ s.buf_length
    pub small_buf : s.buf_length < 65536
    pub settled : s.buf_length_is_set ≡ true → (s.buf_length ≤ limit) ⊎ (n ≡ firmware_length)

  abbrev pub to_do : ℕ → Upload Device → ℕ
  to_do n s = (firmware_length - n) * 4 + (3 - s.port.error_count) + s.buf_length

  -- One round, which receives up to `count` bytes.
  abbrev pub Advances : ℕ → ℕ → Upload Device → Run (Rc × Upload Device) → Type 0
  Advances n count s r =
      (n' : ℕ) × (s' : Upload Device) × ((r ≡ done (success, s'))
        × (Progress n' s' × ((to_do n' s' < to_do n s) × (n' ≤ n + count))))

  -- The block is the whole buffer or the rest.
  abbrev Counts : ℕ → ℕ → ℕ → Type 0
  Counts n buf count =
      (1 ≤ count)
      × (count ≤ buf)
      × (n + count ≤ firmware_length)
      × ((count ≡ buf) ⊎ (n + count ≡ firmware_length))

  pub count_of_lem :
      (n : ℕ) (s : Upload Device)
      → Progress n s
      → n < firmware_length
      → Counts n s.buf_length (count_of s)
  unfolding count_of
  count_of_lem n s p lt =
      elim (Bool-cases (leb (s.data_at + s.buf_length) (s.temp_at + s.length_of_block))) [
        | inl whole ↦
            rw whole (p.some_buf, omega arith, ground (arith, p.at, p.temp, p.len), inl refl)
        | inr part ↦
            let short : n + (firmware_length - n) ≡ firmware_length = omega (arith, lt) in
            let below : firmware_length - n < s.buf_length =
              ground (arith, p.at, p.temp, p.len, part) in
            let left : u16 (s.temp_at + s.length_of_block - s.data_at) ≡ firmware_length - n =
              omega (arith, p.at, p.temp, p.len, p.small_buf, below) in
            rw (part, left)
              (
                omega (arith, lt),
                omega (arith, below),
                omega (arith, short),
                inr (omega (arith, short)),
              )
      ]

  -- The block was taken.
  taken_lem :
      (count : ℕ) (s : Upload Device)
      → taken firmware_length count 0 0 s ≡ (
        success,
        record s {
          buf_length_is_set = true;
          data_at = s.data_at + count;
          total_sent = u32 (s.total_sent + count);
          block_number = u8 (s.block_number + 1);
        },
      )
  unfolding taken
  taken_lem count s =
      let in_firmware : ltb firmware_length 0 ≡ false = ltb-false firmware_length 0 (omega arith) in
      rw (in_firmware, taken) refl

  pub after_taken :
      (n count : ℕ) (s : Upload Device) (p' : Port Device) (r : Run (Rc × Upload Device))
      → Progress n s
      → Counts n s.buf_length count
      → start + n + count ≤ length image
      → count ≤ limit
      → Took t fuel stale received expected limit s.port
          (slice (start + s.data_at) count image)
          p'.device
      → r ≡ done (on_answer is_lan firmware_length count s (answer_of success p'))
      → Advances n count s r
  unfolding on_answer
  after_taken n count s p' r p sizes room fits took e =
      let s' : Upload Device = record s {
        port = p';
        buf_length_is_set = true;
        data_at = s.data_at + count;
        total_sent = u32 (s.total_sent + count);
        block_number = u8 (s.block_number + 1);
      } in
      let q : Progress (n + count) s' = record {
        at = ap (λ (k : ℕ). k + count) p.at;
        temp = p.temp;
        len = p.len;
        n_le = sizes.2;
        sent = omega (arith, p.sent, sizes.2, word);
        stored =
            took.stored
            ∙ ap₂ (λ (xs : List ℕ) (k : ℕ). xs ++ slice (start + k) count image) p.stored p.at
            ∙ slice-append start n count image;
        number = ap (λ (k : ℕ). u8 (k + 1)) p.number ∙ sym took.counted;
        some_buf = p.some_buf;
        small_buf = p.small_buf;
        settled = λ _. settles sizes.3;
      } in
      (
        n + count,
        s',
        (
          e ∙ ap done (taken_lem count (record s { port = p' })),
          (q, (omega (arith, sizes.0, sizes.2), omega arith)),
        ),
      )
    where
      settles :
          ((count ≡ s.buf_length) ⊎ (n + count ≡ firmware_length))
          → (s.buf_length ≤ limit) ⊎ (n + count ≡ firmware_length)
      settles (inl whole) = inl (omega (arith, whole, fits))
      settles (inr last) = inr last

  -- The block was refused as too long, which is only before the first one is taken.
  reduced_lem :
      (s : Upload Device)
      → s.buf_length_is_set ≡ false
      → 1 < s.buf_length
      → (b : ℕ) × ((reduced is_lan s ≡ (success, record s { buf_length = b }))
          × ((1 ≤ b) × (b < s.buf_length)))
  unfolding reduced
  reduced_lem s fresh more = elim (Bool-cases (is_lan && ltb 8 s.buf_length)) [
    | inl lan ↦ (
      s.buf_length - 8,
      (rw (fresh, lan, reduced) refl, (ground (arith, lan), ground (arith, lan))),
    )
    | inr other ↦
        let not_zero : (s.buf_length == 0) ≡ false = ground (arith, more) in
        (
          s.buf_length - 1,
          (rw (fresh, other, not_zero, reduced) refl, (omega (arith, more), omega (arith, more))),
        )
  ]

  pub after_reduced :
      (n count : ℕ) (s : Upload Device) (d : Device) (r : Run (Rc × Upload Device))
      → Progress n s
      → s.buf_length_is_set ≡ false
      → 1 < s.buf_length
      → Left t fuel stale received expected limit s.port d
      → r
        ≡ done (
            reduced is_lan
              (record s { port = record { error_count = s.port.error_count; device = d } }))
      → Advances n count s r
  after_reduced n count s d r p fresh more left e =
      let s0 : Upload Device = record s {
        port = record { error_count = s.port.error_count; device = d };
      } in
      let less = reduced_lem s0 fresh more in
      let s' : Upload Device = record s0 { buf_length = less.0 } in
      let q : Progress n s' = record {
        at = p.at;
        temp = p.temp;
        len = p.len;
        n_le = p.n_le;
        sent = p.sent;
        stored = left.stored ∙ p.stored;
        number = p.number ∙ sym left.counted;
        some_buf = less.1.1.0;
        small_buf = omega (arith, less.1.1.1, p.small_buf);
        settled = λ set. cc (fresh, set);
      } in
      (n, s', (e ∙ ap done less.1.0, (q, (omega (arith, less.1.1.1), omega arith))))

  -- The target was busy.
  pub after_busy :
      (n count : ℕ) (s : Upload Device) (d : Device) (r : Run (Rc × Upload Device))
      → Progress n s
      → s.port.error_count < 3
      → Left t fuel stale received expected limit s.port d
      → r
        ≡ done (
          success,
          record s { port = record { error_count = s.port.error_count + 1; device = d } },
        )
      → Advances n count s r
  after_busy n count s d r p few left e =
      let s' : Upload Device = record s {
        port = record { error_count = s.port.error_count + 1; device = d };
      } in
      let q : Progress n s' = record {
        at = p.at;
        temp = p.temp;
        len = p.len;
        n_le = p.n_le;
        sent = p.sent;
        stored = left.stored ∙ p.stored;
        number = p.number ∙ sym left.counted;
        some_buf = p.some_buf;
        small_buf = p.small_buf;
        settled = p.settled;
      } in
      (n, s', (e, (q, (omega (arith, few), omega arith))))
