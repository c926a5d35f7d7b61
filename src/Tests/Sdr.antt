-- ===== src/Tests/Sdr.antt =====
-- Records of sensor data on concrete inputs.
use ipmitool.Common.{
  ℕ, ◌+◌, ◌-◌, ◌≡◌, refl, inl, inr, Bool-cases, ltb→lt, ltb, ◌==◌, if◌then◌else◌, get_or, List, [],
  ◌∷◌, ◌++◌, Option, some, false, u8, arith,
}
use ipmitool.Common.Int.{pos}
use ipmitool.Intf.{Intf}
use ipmitool.Fru.{Rs}
use ipmitool.Fru.Slices.{slice}
use ipmitool.Sdr.{
  Header, Iterator, Send, sdr_request, reserve_request, get_reservation, reservation_of,
  get_next_header, record_length_valid,
}
use ipmitool.Sdr.Record.{RecordState, get_record}
use ipmitool.Sdr.Controller.{too_much, lost, given, HasRecord}
use ipmitool.Sdr.RecordLaws.{get_record_exact}

abbrev five_bytes : List ℕ
five_bytes = 0x11 ∷ 0x22 ∷ 0x33 ∷ 0x44 ∷ 0x55 ∷ []

abbrev ok : List ℕ → Option Rs
ok bytes = some (record { ccode = 0; bytes = bytes })

abbrev refused_with : ℕ → Option Rs
refused_with code = some (record { ccode = code; bytes = [] })

-- A controller that cancels reservations as often as its number says, and then gives up to two
-- bytes at a time.
abbrev two_bytes : Send ℕ
two_bytes n req =
    if get_or req 1 0 == 0x22
    then (ok (7 ∷ 0 ∷ []), n - 1)
    else (if n == 0
        then (
          (if ltb 2 (get_or req 7 0)
              then refused_with 0xCA
              else ok
                  (0xFF ∷ 0xFF ∷ (slice (get_or req 6 0 - 5) (get_or req 7 0) five_bytes ++ []))),
          n,
        )
        else (refused_with 0xC5, n))

two_bytes-HasRecord : HasRecord two_bytes false 9 five_bytes (λ n. n)
unfolding HasRecord sdr_request get_reservation reservation_of reserve_request
two_bytes-HasRecord n reservation off count some_count within word =
    let at : u8 (off + 5) - 5 ≡ off = omega (arith, word) in
    let asked : u8 count ≡ count = omega (arith, within) in
    elim (Bool-cases (n == 0)) [
      | inl settled ↦ elim (Bool-cases (ltb 2 count)) [
        | inl large ↦
            too_much [] (rw (settled, asked, large) refl) (omega (arith, ltb→lt 2 count large))
              (rw settled (omega arith))
        | inr fits ↦
            given 0xFF 0xFF [] (rw (settled, asked, fits, at) refl) (rw settled (omega arith))
      ]
      | inr restless ↦ lost [] 7 (rw restless refl) refl (rw restless (ground (arith, restless)))
    ]

abbrev sdr_header : Header
sdr_header = record { next = 0xFFFF; id = 9; record_type = 0x20; len = 5 }

abbrev sdr_intf : Intf
sdr_intf = record {
  my_addr = 0x20;
  target_addr = 0x20;
  target_channel = 0;
  transit_addr = 0;
  transit_channel = 0;
  max_request_data_size = 40;
  max_response_data_size = 40;
}

abbrev iterator : Iterator
iterator = record { reservation = 1; next = 9; use_built_in = false }

get_record_exact_example :
    (s : RecordState ℕ) × (get_record two_bytes 30 sdr_intf (pos 20) sdr_header iterator 2
      ≡ some (some five_bytes, s))
get_record_exact_example =
    get_record_exact two_bytes false sdr_header five_bytes (λ n. n) two_bytes-HasRecord refl
      (omega arith) 30 20 sdr_intf (pos 20) iterator 2 refl refl (omega arith) (omega arith)
      (omega arith) (unfold record_length_valid in refl) (omega arith)

-- The record's own id is put back in its header.
abbrev other_id : Send ℕ
other_id n req = (ok (0x34 ∷ 0x12 ∷ 0xAA ∷ 0 ∷ 0x51 ∷ 1 ∷ 48 ∷ []), n)

id_kept : get_next_header other_id iterator 0 ≡ (
  some (record { next = 0x1234; id = 9; record_type = 1; len = 48 }),
  (record { reservation = 1; next = 0x1234; use_built_in = false }, 0),
)
unfolding get_next_header
id_kept = refl
