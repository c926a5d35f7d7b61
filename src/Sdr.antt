-- ===== src/Sdr.antt =====
-- lib/ipmi_sdr.c: the repository of sensor data records. Its requests, the header of a record, and
-- the test of a record's length. `Device` is what the controller and the channel to it remember.
pub mod Record
pub mod RecordLaws
pub mod Controller
use ipmitool.Common.{
  ℕ, zero, suc, ◌+◌, ◌-◌, ◌*◌, ◌%◌, List, [], ◌∷◌, ◌++◌, Option, none, some, Bool, true, false, ltb,
  leb, ◌==◌, ◌&&◌, ◌||◌, if◌then◌else◌, get_or, length, u8,
}
use ipmitool.Lanplus.Session.{le16, read16}
use ipmitool.Fru.{Rs}

-- `struct ipmi_sdr_iterator`, without its count.
pub record Iterator : Type 0 where
  pub reservation : ℕ
  pub next : ℕ
  pub use_built_in : Bool

-- `struct sdr_get_rs`, without the version.
pub record Header : Type 0 where
  pub next : ℕ
  pub id : ℕ
  pub record_type : ℕ
  pub len : ℕ

abbrev pub Send : Type 0 → Type 0
Send Device = Device → List ℕ → Option Rs × Device

-- The network function and the command, and the request for a part of a record.
unfoldable pub reserve_request : Bool → List ℕ
reserve_request use_built_in = (if use_built_in then 0x04 else 0x0A) ∷ 0x22 ∷ []

unfoldable pub sdr_request : Bool → ℕ → ℕ → ℕ → ℕ → List ℕ
sdr_request use_built_in reservation id offset count =
    (if use_built_in then 0x04 ∷ 0x21 ∷ [] else 0x0A ∷ 0x23 ∷ [])
    ++ (le16 reservation ++ (le16 id ++ (u8 offset ∷ u8 count ∷ [])))

-- `ipmi_sdr_get_reservation`; none is a return value of -1.
unfoldable pub reservation_of : Option Rs → Option ℕ
reservation_of none = none
reservation_of (some rsp) = if rsp.ccode == 0 then some (read16 rsp.bytes 0) else none

unfoldable pub get_reservation : {Device : Type 0} → Send Device → Bool → Device → Option ℕ × Device
unfolding reservation_of reserve_request
get_reservation send use_built_in device =
    let sent = send device (reserve_request use_built_in) in (reservation_of sent.0, sent.1)

-- What `ipmi_sdr_get_header` makes of a response: the header with the id that was asked for.
unfoldable pub header_of : ℕ → List ℕ → Option Header
header_of next bytes =
    if ltb (length bytes) 7 || get_or bytes 6 0 == 0
    then none
    else some (record {
      next = read16 bytes 0;
      id = (if next == 0 then read16 bytes 2 else next);
      record_type = get_or bytes 5 0;
      len = get_or bytes 6 0;
    })

-- Its loop, with `tries` left; none is NULL.
unfoldable pub header_tries :
    {Device : Type 0} → Send Device → ℕ → Iterator → Device → Option Header × (Iterator × Device)
unfolding header_of get_reservation sdr_request
header_tries send zero itr device = (none, (itr, device))
header_tries send (suc tries) itr device =
    let sent = send device (sdr_request itr.use_built_in itr.reservation itr.next 0 5) in
    elim sent.0 [
      | none ↦ header_tries send tries itr sent.1
      | some rsp ↦ elim (rsp.ccode == 0xC5) [
        | true ↦
            let reserved = get_reservation send itr.use_built_in sent.1 in
            elim reserved.0 [
              | none ↦ (none, (itr, reserved.1))
              | some r ↦ header_tries send tries (record itr { reservation = r }) reserved.1
            ]
        | false ↦ elim (rsp.ccode == 0) [
          | true ↦ (header_of itr.next rsp.bytes, (itr, sent.1))
          | false ↦ header_tries send tries itr sent.1
        ]
      ]
    ]

-- `ipmi_sdr_get_next_header`, with five tries.
unfoldable pub get_next_header :
    {Device : Type 0} → Send Device → Iterator → Device → Option Header × (Iterator × Device)
unfolding header_tries
get_next_header send itr device = elim (itr.next == 0xFFFF) [
  | true ↦ (none, (itr, device))
  | false ↦
      let got = header_tries send 5 itr device in
      elim got.0 [
        | none ↦ (none, got.1)
        | some header ↦ (some header, (record got.1.0 { next = header.next }, got.1.1))
      ]
]

-- The offset of `id_code` in a record of a type that has a name.
unfoldable pub code_offset : ℕ → Option ℕ
code_offset record_type =
    if record_type == 1
    then some 42
    else if record_type == 2
    then some 26
    else if record_type == 3
    then some 11
    else if record_type == 0x10 || record_type == 0x11 || record_type == 0x12
    then some 10
    else none

-- `ipmi_sdr_record_length_valid`: the name is behind its code, in an array of 16 bytes.
unfoldable pub record_length_valid : ℕ → ℕ → List ℕ → Bool
unfolding code_offset
record_length_valid record_type len bytes = elim (code_offset record_type) [
  | none ↦ if record_type == 8 then leb 11 len else true
  | some code ↦
      let name = get_or bytes code 0 % 32 in
      leb (code + 1) len && (leb name 16 && leb name (len - (code + 1)))
]
