-- ===== src/Fru/ReadLaws.antt =====
-- lib/ipmi_fru.c: the loop of `read_fru_area` and `read_fru_area_section` against a device that
-- answers.
use ipmitool.Common.{
  ltb-false_le, ℕ, zero, suc, ◌+◌, ◌-◌, ◌≤◌, ◌<◌, ◌≡◌, refl, sym, ap, ◌∙◌, List, ◌++◌, Option, true,
  false, ltb-false, ltb, length, take, arith, Bool-cases, inl, inr,
}
use ipmitool.Fru.{Rs, sub_u32}
use ipmitool.Fru.Slices.{
  slice, write_at, length-slice, slice-append, length-write_at, take-write_at,
}
use ipmitool.Fru.Area.{start}
use ipmitool.Fru.Read.{
  ReadState, ReadRet, read_ok, on_reply, Turn, again, smaller, Shrink, read_turn, read_loop,
}
use ipmitool.Fru.Serving.{
  retry_lem, taken, part_lem, too_much, part, Serves, Retries, sub_u32_exact,
}

-- Reading `len` bytes at `offset` of a device whose bytes are `mem`.
module _ (shrink : Shrink) (floor id : ℕ) (mem : List ℕ) (reply : ℕ → List ℕ → Option Rs)
    (retries : Retries floor shrink) (serves : Serves floor mem id reply) (offset len : ℕ)
    (within_mem : offset + len ≤ length mem) (word : offset + len < 4294967296) where
  -- What holds before each round: the first `pos` bytes of the buffer are those of the device.
  record Progress (s : ReadState) : Type 0 where
    off_at : s.off ≡ offset + s.pos
    left_is : s.left ≡ len - s.pos
    pos_le : s.pos ≤ len
    size_pos : 1 ≤ s.rqst_size
    size_le : s.rqst_size ≤ 255
    room : len ≤ length s.buffer
    read : take s.pos s.buffer ≡ slice offset s.pos mem

  -- What gets smaller in each round: the bytes that are left and the size of a request.
  abbrev to_do : ReadState → ℕ
  to_do s = len - s.pos + s.rqst_size

  abbrev Advances : ReadState → Turn → Type 0
  Advances s t = (s' : ReadState) × ((t ≡ again s') × (Progress s' × (to_do s' < to_do s)))

  count_lem : (s : ReadState) → Progress s → sub_u32 (offset + len) s.off ≡ len - s.pos
  count_lem s p =
      sub_u32_exact (offset + len) s.off (omega (arith, p.off_at, p.pos_le)) word
      ∙ omega (arith, p.off_at, p.pos_le)

  shrunk :
      (s : ReadState)
      → Progress s
      → floor < s.rqst_size
      → Progress (record s { rqst_size = (shrink s.rqst_size).0 })
  shrunk s p h =
      let r = retries s.rqst_size h p.size_le in
      record {
        off_at = p.off_at;
        left_is = p.left_is;
        pos_le = p.pos_le;
        size_pos = r.1.0;
        size_le = omega (arith, r.1.1, p.size_le);
        room = p.room;
        read = p.read;
      }

  filled :
      (s : ReadState) (k : ℕ)
      → Progress s
      → k ≤ len - s.pos
      → Progress (taken k (slice s.off k mem) s)
  filled s k p h =
      let chunk : length (slice s.off k mem) ≡ k =
        length-slice s.off k mem (omega (arith, within_mem, p.off_at, p.pos_le, h)) in
      record {
        off_at = omega (arith, p.off_at, p.pos_le, h, word);
        left_is = omega (arith, p.left_is);
        pos_le = omega (arith, p.pos_le, h);
        size_pos = p.size_pos;
        size_le = p.size_le;
        room = omega (
          arith,
          p.room,
          p.pos_le,
          h,
          chunk,
          length-write_at s.pos (slice s.off k mem) s.buffer
              (omega (arith, p.room, p.pos_le, h, chunk)),
        );
        read =
            ap (λ (m : ℕ). take (s.pos + m) (write_at s.pos (slice s.off k mem) s.buffer))
              (sym chunk)
            ∙ take-write_at s.pos (slice s.off k mem) s.buffer (omega (arith, p.room, p.pos_le))
            ∙ ap (λ (t : List ℕ). t ++ slice s.off k mem) p.read
            ∙ ap (λ (m : ℕ). slice offset s.pos mem ++ slice m k mem) p.off_at
            ∙ slice-append offset s.pos k mem;
      }

  advance :
      (s : ReadState) (n : ℕ)
      → Progress s
      → s.pos < len
      → Advances s (read_turn shrink false id (offset + len) reply n s)
  unfolding read_turn Serves
  advance s n p lt =
      let count = smaller s.rqst_size (sub_u32 (offset + len) s.off) in
      let left = count_lem s p in
      let in_mem : s.off + count ≤ length mem =
        ground (arith, left, p.off_at, p.pos_le, p.size_pos, p.size_le, within_mem, lt) in
      elim (serves n s.off count ground
        (arith, left, p.off_at, p.pos_le, p.size_pos, p.size_le, within_mem, lt) ground
        (arith, left, p.off_at, p.pos_le, p.size_pos, p.size_le, within_mem, lt) in_mem) [
          | too_much rsp e c big ↦
              let h : floor < s.rqst_size = ground arith in
              let r = retries s.rqst_size h p.size_le in
              (
                record s { rqst_size = (shrink s.rqst_size).0 },
                (
                  ap (λ (x : Option Rs). on_reply shrink false id (offset + len) reply x s) e
                      ∙ retry_lem shrink id (offset + len) reply rsp s c r.0,
                  (shrunk s p h, omega (arith, r.1.1)),
                ),
              )
          | part k e some_k le ↦
              let fits : k ≤ len - s.pos = ground arith in
              let chunk : length (slice s.off k mem) ≡ k =
                length-slice s.off k mem (omega (arith, in_mem, le)) in
              (
                taken k (slice s.off k mem) s,
                (
                  ap (λ (x : Option Rs). on_reply shrink false id (offset + len) reply x s) e
                      ∙ part_lem shrink id (offset + len) reply k (slice s.off k mem) s chunk some_k
                          (omega (arith, p.left_is, fits)),
                  (filled s k p fits, omega (arith, some_k, fits)),
                ),
              )
        ]

  -- The loop reads everything, however the device divides it up.
  serve_loop :
      (fuel n : ℕ) (s : ReadState)
      → Progress s
      → s.pos < len
      → to_do s ≤ fuel
      → (s' : ReadState) × ((read_loop shrink false id (offset + len) reply fuel n s
            ≡ (read_ok, s'))
          × (Progress s' × (s'.pos ≡ len)))
  unfolding read_loop
  serve_loop zero n s p lt h = absurd (omega (arith, lt, h))
  serve_loop (suc fuel) n s p lt h =
      let next = advance s n p lt in
      let s' : ReadState = next.0 in
      let p' : Progress s' = next.1.1.0 in
      elim (Bool-cases (ltb s'.pos len)) [
        | inl more ↦
            let rest =
              serve_loop fuel (n + 1) s' p' (ground (arith, more)) (omega (arith, next.1.1.1, h)) in
            let go : ltb s'.off (offset + len) ≡ true = ground (arith, more, p'.off_at) in
            (rest.0, (rw (next.1.0, go, read_loop) rest.1.0, rest.1.1))
        | inr done ↦
            let all_read : len ≤ s'.pos = ltb-false_le s'.pos len done in
            let stop : ltb s'.off (offset + len) ≡ false =
              ltb-false s'.off (offset + len) (omega (arith, all_read, p'.off_at)) in
            (s', (rw (next.1.0, stop, read_loop) refl, (p', omega (arith, all_read, p'.pos_le))))
      ]

  -- From the start of an area.
  pub serve_area :
      (size fuel : ℕ) (buffer : List ℕ)
      → 1 ≤ len
      → len ≤ length buffer
      → 1 ≤ size
      → size ≤ 255
      → len + size ≤ fuel
      → let done =
          read_loop shrink false id
            (offset + len)
            reply
            fuel
            0
            (start offset (offset + len) size buffer) in
        (done.0 ≡ read_ok) × (take len done.1.buffer ≡ slice offset len mem)
  serve_area size fuel buffer some_len room pos le h =
      let s : ReadState = start offset (offset + len) size buffer in
      let p : Progress s = record {
        off_at = omega arith;
        left_is = sub_u32_exact (offset + len) offset (omega arith) word ∙ omega arith;
        pos_le = omega arith;
        size_pos = pos;
        size_le = le;
        room = room;
        read = refl;
      } in
      let r = serve_loop fuel 0 s p some_len (omega (arith, h)) in
      (
        ap (λ (x : ReadRet × ReadState). x.0) r.1.0,
        ap (λ (x : ReadRet × ReadState). take len x.1.buffer) r.1.0
            ∙ ap (λ (m : ℕ). take m r.0.buffer) (sym r.1.1.1)
            ∙ r.1.1.0.read
            ∙ ap (λ (m : ℕ). slice offset m mem) r.1.1.1,
      )
