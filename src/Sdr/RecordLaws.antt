-- ===== src/Sdr/RecordLaws.antt =====
-- lib/ipmi_sdr.c: `ipmi_sdr_get_record` against a controller that has the record.
use mathlib.Core.Path.{subst⁻¹}
use ipmitool.Common.{
  ℕ, zero, suc, ◌+◌, ◌-◌, ◌≤◌, ◌<◌, ◌≡◌, refl, ap, ap₂, ◌∙◌, inl, inr, Bool-cases, ltb-false,
  ltb-false_le, ltb→lt, List, [], ◌++◌, Option, some, Bool, true, false, ltb, if◌then◌else◌, length,
  take_all, arith,
}
use ipmitool.Common.Int.{ℤ, pos, is_zero}
use ipmitool.Intf.{Intf}
use ipmitool.Fru.{Rs}
use ipmitool.Fru.Slices.{slice, length-slice, slice-append}
use ipmitool.Sdr.{Header, Iterator, Send, sdr_request, get_reservation, record_length_valid}
use ipmitool.Sdr.Record.{
  RecordState, RecordTurn, goes_on, read_length, shorter, on_part, record_turn, record_loop,
  first_read_len, if_valid, get_record,
}
use ipmitool.Sdr.Controller.{
  shorter_lem, renewed_lem, stored_lem, valid_lem, silent, too_much, lost, given, HasRecord,
}

module _ {Device : Type 0} (send : Send Device) (use_built_in : Bool) (header : Header)
    (record_bytes : List ℕ) (patience : Device → ℕ)
    (has : HasRecord send use_built_in header.id record_bytes patience)
    (whole : length record_bytes ≡ header.len) (short : header.len ≤ 251) where
  -- What holds before each round: the bytes that are stored are the first of the record.
  record Progress (n : ℕ) (m : ℕ) (s : RecordState Device) : Type 0 where
    stored_is : s.body ≡ slice 0 n record_bytes
    n_le : n ≤ header.len
    max_is : s.max_read_len ≡ pos m
    size_pos : 1 ≤ m
    size_le : m ≤ 254

  abbrev to_do : ℕ → ℕ → RecordState Device → ℕ
  to_do n m s = header.len - n + m + patience s.device

  abbrev Advances : ℕ → ℕ → RecordState Device → RecordTurn Device → Type 0
  Advances n m s t =
      (n' : ℕ) × (m' : ℕ) × (s' : RecordState Device) × ((t ≡ goes_on s')
        × (Progress n' m' s' × (to_do n' m' s' < to_do n m s)))

  stored_length : (n m : ℕ) (s : RecordState Device) → Progress n m s → length s.body ≡ n
  stored_length n m s p =
      ap length p.stored_is ∙ length-slice 0 n record_bytes (omega (arith, whole, p.n_le))

  -- The round asks for less.
  after_less :
      (n m count : ℕ) (s : RecordState Device) (device : Device) (t : RecordTurn Device)
      → Progress n m s
      → 1 < count
      → count ≤ m
      → patience device ≤ patience s.device
      → t ≡ shorter count (record s { device = device })
      → Advances n m s t
  after_less n m count s device t p more le calm e =
      let s' : RecordState Device = record s { device = device; max_read_len = pos (count - 1) } in
      let p' : Progress n (count - 1) s' = record {
        stored_is = p.stored_is;
        n_le = p.n_le;
        max_is = refl;
        size_pos = omega (arith, more);
        size_le = omega (arith, le, p.size_le);
      } in
      (
        n,
        count - 1,
        s',
        (
          e ∙ shorter_lem (record s { device = device }) count more,
          (p', omega (arith, le, more, calm)),
        ),
      )

  -- The round has a new reservation.
  after_lost :
      (n m r : ℕ) (s : RecordState Device) (device : Device) (t : RecordTurn Device)
      → Progress n m s
      → patience device < patience s.device
      → t ≡ goes_on (record s { reservation = r; device = device })
      → Advances n m s t
  after_lost n m r s device t p calm e =
      let s' : RecordState Device = record s { reservation = r; device = device } in
      let p' : Progress n m s' = record {
        stored_is = p.stored_is;
        n_le = p.n_le;
        max_is = p.max_is;
        size_pos = p.size_pos;
        size_le = p.size_le;
      } in
      (n, m, s', (e, (p', omega (arith, calm))))

  -- The round stores a part.
  after_part :
      (n m count : ℕ) (s : RecordState Device) (device : Device) (t : RecordTurn Device)
      → Progress n m s
      → 1 ≤ count
      → n + count ≤ header.len
      → patience device ≤ patience s.device
      → t
        ≡ goes_on (record s {
          device = device;
          body = s.body ++ slice (length s.body) count record_bytes;
        })
      → Advances n m s t
  after_part n m count s device t p some_count le calm e =
      let s' : RecordState Device = record s {
        device = device;
        body = s.body ++ slice (length s.body) count record_bytes;
      } in
      let behind : length s.body ≡ 0 + n = stored_length n m s p ∙ omega arith in
      let p' : Progress (n + count) m s' = record {
        stored_is =
            ap₂ (λ (t : List ℕ) (o : ℕ). t ++ slice o count record_bytes) p.stored_is behind
            ∙ slice-append 0 n count record_bytes;
        n_le = le;
        max_is = p.max_is;
        size_pos = p.size_pos;
        size_le = p.size_le;
      } in
      (n + count, m, s', (e, (p', omega (arith, some_count, le, calm))))

  -- What is asked for is within what is missing and within the largest size.
  abbrev Sizes : ℕ → ℕ → ℤ → Type 0
  Sizes left m x = (1 ≤ read_length left x) × (read_length left x ≤ left) × (read_length left x ≤ m)

  read_length_lem : (left m : ℕ) → 1 ≤ left → 1 ≤ m → m ≤ 254 → Sizes left m (pos m)
  unfolding read_length
  read_length_lem left m h some_size le = ground arith

  advance :
      (n m : ℕ) (s : RecordState Device)
      → Progress n m s
      → n < header.len
      → Advances n m s (record_turn send use_built_in header s)
  unfolding record_turn on_part HasRecord
  advance n m s p lt =
      let i = stored_length n m s p in
      let left = header.len - length s.body in
      let count = read_length left s.max_read_len in
      let sent =
        send s.device
          (sdr_request use_built_in s.reservation header.id (length s.body + 5) count) in
      let s0 : RecordState Device = record s { device = sent.1 } in
      let on : Option Rs → RecordTurn Device = λ x. on_part send use_built_in header count x s0 in
      let size : (1 ≤ count) × (count ≤ left) × (count ≤ m) =
        subst⁻¹ (Sizes left m) p.max_is
          (read_length_lem left m (omega (arith, i, lt)) p.size_pos p.size_le) in
      let room : length s.body + count ≤ length record_bytes =
        omega (arith, i, size.1, whole, lt) in
      elim (has s.device s.reservation (length s.body) count size.0 room
        (omega (arith, i, lt, short))) [
          | silent e more calm ↦
              after_less n m count s sent.1 (on sent.0) p more size.2 calm (ap on e)
          | too_much rest e more calm ↦
              after_less n m count s sent.1 (on sent.0) p more size.2 calm (ap on e)
          | lost rest r e again calm ↦
              let reserved = get_reservation send use_built_in sent.1 in
              after_lost n m r s reserved.1 (on sent.0) p calm
                (ap on e ∙ renewed_lem s0 r reserved.0 reserved.1 again)
          | given low high rest e calm ↦
              let part = slice (length s.body) count record_bytes in
              let chunk : length part ≡ count =
                length-slice (length s.body) count record_bytes room in
              after_part n m count s sent.1 (on sent.0) p size.0 (omega (arith, i, room, whole))
                calm (ap on e ∙ stored_lem s0 count low high part rest chunk)
        ]

  store_loop :
      (fuel n m : ℕ) (s : RecordState Device)
      → Progress n m s
      → to_do n m s < fuel
      → (s' : RecordState Device) × ((record_loop send use_built_in header fuel s
            ≡ some (some s'.body, s'))
          × (s'.body ≡ record_bytes))
  unfolding record_loop
  store_loop zero n m s p h = absurd (omega (arith, h))
  store_loop (suc fuel) n m s p h =
      let i = stored_length n m s p in
      elim (Bool-cases (ltb (length s.body) header.len)) [
        | inl more ↦
            let next = advance n m s p (omega (arith, i, ltb→lt (length s.body) header.len more)) in
            let rest =
              store_loop fuel next.0 next.1 next.2 next.3.1.0 (omega (arith, next.3.1.1, h)) in
            (rest.0, (rw (more, next.3.0, record_loop) rest.1.0, rest.1.1))
        | inr done ↦
            let all_there : n ≡ length record_bytes =
              omega (arith, i, whole, p.n_le, ltb-false_le (length s.body) header.len done) in
            (
              s,
              (
                rw (done, record_loop) refl,
                p.stored_is
                    ∙ ap (λ (k : ℕ). slice 0 k record_bytes) all_there
                    ∙ take_all record_bytes,
              ),
            )
      ]

  -- `ipmi_sdr_get_record` returns exactly the bytes of the record, for a record of 1 to 251 bytes
  -- behind its header whose length is valid, and a first request size from 1 to 254: with a
  -- controller that answers requests with their bytes, but may stay silent or refuse a request of
  -- more than 1 byte, and may cancel the reservation a bounded number of times.
  pub get_record_exact :
      (fuel m : ℕ) (intf : Intf) (max_read_len : ℤ) (itr : Iterator) (device : Device)
      → itr.use_built_in ≡ use_built_in
      → (if is_zero max_read_len then first_read_len intf else max_read_len) ≡ pos m
      → 1 ≤ m
      → m ≤ 254
      → 1 ≤ header.len
      → record_length_valid header.record_type header.len record_bytes ≡ true
      → header.len + m + patience device < fuel
      → (s : RecordState Device) × (get_record send fuel intf max_read_len header itr device
          ≡ some (some record_bytes, s))
  unfolding get_record if_valid
  get_record_exact fuel m intf max_read_len itr device built first some_size small some_len valid
        enough =
      let s : RecordState Device = record {
        max_read_len = (if is_zero max_read_len then first_read_len intf else max_read_len);
        body = [];
        reservation = itr.reservation;
        device = device;
      } in
      let p : Progress 0 m s = record {
        stored_is = refl;
        n_le = omega arith;
        max_is = first;
        size_pos = some_size;
        size_le = small;
      } in
      let done = store_loop fuel 0 m s p (omega (arith, enough)) in
      let one : ltb header.len 1 ≡ false = ltb-false header.len 1 some_len in
      (
        done.0,
        rw (one, built, get_record)
            (ap (if_valid header) done.1.0
              ∙ ap (λ (b : List ℕ). if_valid header (some (some b, done.0))) done.1.1
              ∙ valid_lem header record_bytes done.0 valid),
      )
