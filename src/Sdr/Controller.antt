-- ===== src/Sdr/Controller.antt =====
-- lib/ipmi_sdr.c: a controller that has a record, and what `ipmi_sdr_get_record` does in one round.
use ipmitool.Common.{
  ℕ, suc, ◌+◌, ◌-◌, ◌≤◌, ◌<◌, ◌≡◌, refl, ap, ltb-false, lt→ltb, List, ◌∷◌, ◌++◌, Option, none, some,
  Bool, true, false, ltb, length, length-append, take_middle, arith,
}
use ipmitool.Common.Int.{ℤ, pos, sub_ℕ}
use ipmitool.Fru.Slices.{slice}
use ipmitool.Sdr.{Header, Send, sdr_request, get_reservation, record_length_valid}
use ipmitool.Sdr.Record.{RecordState, goes_on, shorter, renewed, store_part, if_valid}

-- A controller that has the record `record_bytes` behind its header. It answers a request for a
-- part of it with that part and any bytes behind it; or not, or that it was too much, unless one
-- byte is asked for; or that the reservation is lost, and then it gives a new one. It does the last
-- only as often as its `patience` allows.
module _ {Device : Type 0} (send : Send Device) (use_built_in : Bool) (id : ℕ)
    (record_bytes : List ℕ) (patience : Device → ℕ) where
  pub data Part (device : Device) (reservation off count : ℕ) : Type 0 where
    silent :
        (send device (sdr_request use_built_in reservation id (off + 5) count)).0 ≡ none
        → 1 < count
        → patience (send device (sdr_request use_built_in reservation id (off + 5) count)).1
          ≤ patience device
        → Part device reservation off count
    too_much :
        (rest : List ℕ)
        → (send device (sdr_request use_built_in reservation id (off + 5) count)).0
          ≡ some (record { ccode = 0xCA; bytes = rest })
        → 1 < count
        → patience (send device (sdr_request use_built_in reservation id (off + 5) count)).1
          ≤ patience device
        → Part device reservation off count
    lost :
        (rest : List ℕ) (r : ℕ)
        → (send device (sdr_request use_built_in reservation id (off + 5) count)).0
          ≡ some (record { ccode = 0xC5; bytes = rest })
        → (get_reservation send use_built_in
            (send device (sdr_request use_built_in reservation id (off + 5) count)).1).0
          ≡ some r
        → patience
            (get_reservation send use_built_in
              (send device (sdr_request use_built_in reservation id (off + 5) count)).1).1
          < patience device
        → Part device reservation off count
    given :
        (low high : ℕ) (rest : List ℕ)
        → (send device (sdr_request use_built_in reservation id (off + 5) count)).0
          ≡ some (record { ccode = 0; bytes = low ∷ high ∷ (slice off count record_bytes ++ rest) })
        → patience (send device (sdr_request use_built_in reservation id (off + 5) count)).1
          ≤ patience device
        → Part device reservation off count

  unfoldable pub HasRecord : Type 0
  HasRecord =
      (device : Device) (reservation off count : ℕ)
      → 1 ≤ count
      → off + count ≤ length record_bytes
      → off + 5 < 256
      → Part device reservation off count

module _ {Device : Type 0} (s : RecordState Device) where
  pub shorter_lem :
      (count : ℕ)
      → 1 < count
      → shorter count s ≡ goes_on (record s { max_read_len = pos (count - 1) })
  unfolding shorter
  shorter_lem count h =
      let more : ltb 1 count ≡ true = lt→ltb 1 count h in
      let one_less : sub_ℕ count 1 ≡ pos (count - 1) = ground arith in
      rw (more, shorter) (ap (λ (m : ℤ). goes_on (record s { max_read_len = m })) one_less)

  pub renewed_lem :
      (r : ℕ) (answer : Option ℕ) (device : Device)
      → answer ≡ some r
      → renewed (answer, device) s ≡ goes_on (record s { reservation = r; device = device })
  unfolding renewed
  renewed_lem r answer device e = ap (λ (x : Option ℕ). renewed (x, device) s) e

  pub stored_lem :
      (count low high : ℕ) (part rest : List ℕ)
      → length part ≡ count
      → store_part count (record { ccode = 0; bytes = low ∷ high ∷ (part ++ rest) }) s
        ≡ goes_on (record s { body = s.body ++ part })
  unfolding store_part
  stored_lem count low high part rest e =
      let enough : ltb (suc (suc (length (part ++ rest)))) (2 + count) ≡ false =
        ltb-false (suc (suc (length (part ++ rest)))) (2 + count)
          (omega (arith, e, length-append part rest)) in
      rw (enough, take_middle count part rest e, store_part) refl

pub valid_lem :
    {Device : Type 0} (header : Header) (body : List ℕ) (s : RecordState Device)
    → record_length_valid header.record_type header.len body ≡ true
    → if_valid header (some (some body, s)) ≡ some (some body, s)
unfolding if_valid
valid_lem header body s e = rw (e, if_valid) refl
