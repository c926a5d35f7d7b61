-- ===== src/Fru/WriteLaws.antt =====
-- lib/ipmi_fru.c: `write_fru_area` against a device that stores what it is sent.
use mathlib.Core.Path.{subst}
use ipmitool.Common.{
  ℕ, zero, suc, ◌+◌, ◌-◌, ◌≤◌, ◌<◌, ◌≡◌, refl, ap, ap₂, ◌∙◌, inl, inr, Bool-cases, ltb-false_le,
  ltb→lt, List, Option, some, false, ltb, length, u16, arith,
}
use ipmitool.Intf.{Intf}
use ipmitool.Fru.{FruInfo}
use ipmitool.Fru.Slices.{
  slice, slice-append, length-slice, write_at, length-write_at, write_at-append, write_at_none,
}
use ipmitool.Fru.Blocs.{Bloc}
use ipmitool.Fru.Write.{
  bloc_at, end_bloc, write_request, WriteState, WriteTurn, continues, on_write, write_length,
  write_turn, write_loop, known_write_size, write_done, write_result, write_blocs,
}
use ipmitool.Fru.Storing.{
  end_bloc_lem, known_write_size_lem, refused_lem, stored_lem, write_result_lem, refused, stored,
  Stores,
}

-- Writing `len` bytes of `bytes` to a device.
module _ {Device : Type 0} (send : Device → List ℕ → Option ℕ × Device) (memory : Device → List ℕ)
    (id : ℕ) (stores : Stores send memory id) (soffset doffset len : ℕ) (bytes mem : List ℕ)
    (within_bytes : soffset + len ≤ length bytes) (source_word : soffset + len < 65536)
    (within_mem : doffset + len ≤ length mem) (word : doffset + len < 65536) where
  -- What holds before each round: `n` bytes are stored, in their place.
  record Progress (n : ℕ) (s : WriteState Device) : Type 0 where
    soffset_at : s.soffset ≡ soffset + n
    doffset_at : s.doffset ≡ doffset + n
    n_le : n ≤ len
    size_pos : 1 ≤ s.max_write
    size_le : s.max_write ≤ 255
    memory_is : memory s.device ≡ write_at doffset (slice soffset n bytes) mem

  abbrev Advances : ℕ → WriteState Device → WriteTurn Device → Type 0
  Advances n s t =
      (n' : ℕ) × (s' : WriteState Device) × ((t ≡ continues s')
        × (Progress n' s' × (len - n' + s'.max_write < len - n + s.max_write)))

  written_lem :
      (last n : ℕ) (s : WriteState Device)
      → Progress n s
      → s.doffset < last
      → last ≤ doffset + len
      → (1 ≤ write_length send false id (doffset + len) bytes last s)
        × (n + write_length send false id (doffset + len) bytes last s ≤ len)
        × (write_length send false id (doffset + len) bytes last s ≤ s.max_write)
  unfolding write_length
  written_lem last n s p h le =
      let at = p.doffset_at in
      let left : u16 (last + 65536 - s.doffset) ≡ last - s.doffset = omega (arith, h, le, word) in
      let some_size = p.size_pos in rw left (ground (arith, at, some_size, h, le))

  length-stored :
      (n : ℕ) (s : WriteState Device) → Progress n s → length (memory s.device) ≡ length mem
  length-stored n s p =
      let chunk : length (slice soffset n bytes) ≡ n =
        length-slice soffset n bytes (omega (arith, within_bytes, p.n_le)) in
      ap length p.memory_is
      ∙ length-write_at doffset (slice soffset n bytes) mem
          (omega (arith, within_mem, chunk, p.n_le))

  grown :
      (n k : ℕ) (s : WriteState Device) (blocs : List Bloc) (device : Device)
      → Progress n s
      → n + k ≤ len
      → memory device ≡ write_at s.doffset (slice s.soffset k bytes) (memory s.device)
      → Progress (n + k) (record {
        soffset = u16 (s.soffset + k);
        doffset = u16 (s.doffset + k);
        max_write = s.max_write;
        blocs = blocs;
        device = device;
      })
  grown n k s blocs device p h e =
      let chunk : length (slice soffset n bytes) ≡ n =
        length-slice soffset n bytes (omega (arith, within_bytes, h)) in
      let here : s.doffset ≡ doffset + length (slice soffset n bytes) =
        omega (arith, p.doffset_at, chunk) in
      record {
        soffset_at = omega (arith, p.soffset_at, h, source_word);
        doffset_at = omega (arith, p.doffset_at, h, word);
        n_le = h;
        size_pos = p.size_pos;
        size_le = p.size_le;
        memory_is =
            e
            ∙ ap₂ (λ (m o : ℕ). write_at m (slice o k bytes) (memory s.device)) here p.soffset_at
            ∙ ap (write_at (doffset + length (slice soffset n bytes)) (slice (soffset + n) k bytes))
                p.memory_is
            ∙ write_at-append doffset (slice soffset n bytes) (slice (soffset + n) k bytes) mem
                (omega (arith, within_mem))
            ∙ ap (λ (t : List ℕ). write_at doffset t mem) (slice-append soffset n k bytes);
      }

  shrunk :
      (n : ℕ) (s : WriteState Device) (blocs : List Bloc) (device : Device)
      → Progress n s
      → 32 < s.max_write
      → memory device ≡ memory s.device
      → Progress n (record s { blocs = blocs; device = device; max_write = s.max_write - 8 })
  shrunk n s blocs device p above same = record {
    soffset_at = p.soffset_at;
    doffset_at = p.doffset_at;
    n_le = p.n_le;
    size_pos = omega (arith, above);
    size_le = omega (arith, p.size_le);
    memory_is = same ∙ p.memory_is;
  }

  advance :
      (n : ℕ) (s : WriteState Device)
      → Progress n s
      → n < len
      → Advances n s (write_turn send false id (doffset + len) bytes s)
  unfolding write_turn Stores
  advance n s p h =
      let blocs = bloc_at s.blocs s.doffset in
      let last = end_bloc blocs (doffset + len) in
      let k = write_length send false id (doffset + len) bytes last s in
      let at = p.doffset_at in
      let bloc = end_bloc_lem s.blocs s.doffset (doffset + len) (omega (arith, at, h)) in
      let fits = written_lem last n s p bloc.0 bloc.1 in
      let part = slice s.soffset k bytes in
      let chunk : length part ≡ k =
        length-slice s.soffset k bytes (omega (arith, within_bytes, p.soffset_at, fits.1)) in
      let sent = send s.device (write_request false id s.doffset part) in
      let s' : WriteState Device = record s { blocs = blocs; device = sent.1 } in
      let on : Option ℕ → WriteTurn Device = λ x. on_write last k x s' in
      let room : s.doffset + length part ≤ length (memory s.device) =
        omega (arith, chunk, fits.1, at, within_mem, length-stored n s p) in
      elim (stores s.device s.doffset part (omega (arith, chunk, fits.0))
        (omega (arith, chunk, fits.2, p.size_le)) room (omega (arith, chunk, fits.1, at, word))) [
          | refused ccode e c big same ↦
              let above : 32 < s.max_write = omega (arith, big, chunk, fits.2) in
              (
                n,
                record s' { max_write = s.max_write - 8 },
                (
                  ap on e ∙ refused_lem last k s' ccode c above,
                  (shrunk n s blocs sent.1 p above same, omega (arith, above)),
                ),
              )
          | stored e same ↦ (
            n + k,
            record s' { soffset = u16 (s.soffset + k); doffset = u16 (s.doffset + k) },
            (
              ap on e ∙ stored_lem last k s',
              (grown n k s blocs sent.1 p fits.1 same, omega (arith, fits.0, fits.1)),
            ),
          )
        ]

  store_loop :
      (fuel n : ℕ) (s : WriteState Device)
      → Progress n s
      → n < len
      → len - n + s.max_write ≤ fuel
      → (s' : WriteState Device) × ((write_loop send false id (doffset + len) bytes fuel s
            ≡ some s')
          × Progress len s')
  unfolding write_loop
  store_loop zero n s p lt h = absurd (omega (arith, lt, h))
  store_loop (suc fuel) n s p lt h =
      let next = advance n s p lt in
      let n' = next.0 in
      let s' : WriteState Device = next.1 in
      let p' : Progress n' s' = next.2.1.0 in
      elim (Bool-cases (ltb s'.doffset (doffset + len))) [
        | inl more ↦
            let left : n' < len =
              omega (arith, p'.doffset_at, ltb→lt s'.doffset (doffset + len) more) in
            let rest = store_loop fuel n' s' p' left (omega (arith, next.2.1.1, h)) in
            (rest.0, (rw (next.2.0, more, write_loop) rest.1.0, rest.1.1))
        | inr done ↦
            let all_written : n' ≡ len =
              omega (arith, p'.doffset_at, p'.n_le, ltb-false_le s'.doffset (doffset + len) done) in
            (
              s',
              (
                rw (next.2.0, done, write_loop) refl,
                subst (λ (m : ℕ). Progress m s') all_written p',
              ),
            )
      ]

  -- `write_fru_area`, from the list of blocs on, returns 1 and leaves in the device's memory exactly
  -- `len` bytes of the buffer from `soffset` on, at `doffset`, and every other byte as it was,
  -- whatever the blocs are: for a byte-access device that stores what it is sent and may refuse a
  -- request as too large, storing nothing, only above 32 bytes; for 1 byte or more within the
  -- buffer and the memory, with offsets in 16 bits; with rounds for the length and the first
  -- request size.
  pub write_blocs-stores :
      (fuel : ℕ) (intf : Intf) (fru : FruInfo) (blocs : List Bloc) (device : Device) (size : ℕ)
      → fru.access ≡ false
      → fru.max_write_size ≤ 255
      → known_write_size intf fru ≡ some size
      → memory device ≡ mem
      → 1 ≤ len
      → len + size ≤ fuel
      → let done = write_blocs send fuel intf id soffset doffset len bytes device fru blocs in
        (done.0 ≡ write_done) × (memory done.1.1 ≡ write_at doffset (slice soffset len bytes) mem)
  unfolding write_blocs write_result
  write_blocs-stores fuel intf fru blocs device size byte max known at some_len enough =
      let sized = known_write_size_lem intf fru size byte max known in
      let s : WriteState Device = record {
        soffset = soffset;
        doffset = doffset;
        max_write = size;
        blocs = blocs;
        device = device;
      } in
      let p : Progress 0 s = record {
        soffset_at = omega arith;
        doffset_at = omega arith;
        n_le = omega arith;
        size_pos = sized.0;
        size_le = sized.1;
        memory_is = at ∙ write_at_none doffset mem;
      } in
      let done = store_loop fuel 0 s p some_len (omega (arith, enough)) in
      let finish : u16 (doffset + len) ≡ doffset + len = omega (arith, word) in
      let ends : doffset + len ≤ done.0.doffset = omega (arith, done.1.1.doffset_at) in
      let result =
        write_result_lem (doffset + len) (record fru { access = false }) device
          (write_loop send false id (doffset + len) bytes fuel s) done.0 done.1.0 ends in
      rw (known, byte, finish, result, write_blocs) (refl, done.1.1.memory_is)
