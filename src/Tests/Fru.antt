-- ===== src/Tests/Fru.antt =====
-- The inventory of a device on concrete inputs.
use ipmitool.Common.{
  ℕ, u8, ◌+◌, ◌*◌, ◌/◌, ◌≡◌, refl, List, [], ◌∷◌, ◌++◌, Option, none, some, false, ltb, inl, inr,
  Bool-cases, ltb→lt, if◌then◌else◌, get_or, length, take, arith,
}
use ipmitool.Intf.{Intf}
use ipmitool.Checksum.{ipmi_csum}
use ipmitool.Fru.{FruInfo, Rs}
use ipmitool.Fru.Slices.{slice, write_at}
use ipmitool.Fru.Read.{read_ok, read_overrun, fru_request}
use ipmitool.Fru.Area.{known_read_size, read_fru_area, read_fru_area_section}
use ipmitool.Fru.Serving.{too_much, part, Serves}
use ipmitool.Fru.AreaLaws.{read_fru_area_exact, read_fru_area-overrun}
use ipmitool.Fru.Text.{get_fru_area_str}
use ipmitool.Fru.TextLaws.{
  FieldFits, get_fru_area_str-FieldFits, get_fru_area_str-six_bit, pack_six, six_bit_field,
}
use ipmitool.Fru.Blocs.{built, build_fru_bloc}
use ipmitool.Fru.BlocLaws.{BlocsFollow, build_fru_bloc-BlocsFollow}
use ipmitool.Fru.Write.{write_request, known_write_size, write_done, write_blocs}
use ipmitool.Fru.Storing.{refused, stored, Stores}
use ipmitool.Fru.WriteLaws.{write_blocs-stores}

abbrev fru_intf : Intf
fru_intf = record {
  my_addr = 0x20;
  target_addr = 0x20;
  target_channel = 0;
  transit_addr = 0;
  transit_channel = 0;
  max_request_data_size = 40;
  max_response_data_size = 40;
}

abbrev fru : FruInfo
fru = record { size = 12; access = false; max_read_size = 12; max_write_size = 40 }

abbrev memory : List ℕ
memory = 1 ∷ 2 ∷ 3 ∷ 4 ∷ 5 ∷ 6 ∷ 7 ∷ 8 ∷ 9 ∷ 10 ∷ 11 ∷ 12 ∷ []

-- A device that gives one byte at a time, and finds requests for more than `limit` bytes too large.
abbrev one_byte : ℕ → ℕ → List ℕ → Option Rs
one_byte limit n req =
    if ltb limit (get_or req 3 0)
    then some (record { ccode = 0xCA; bytes = [] })
    else some
        (record { ccode = 0; bytes = 1 ∷ slice (get_or req 1 0 + 256 * get_or req 2 0) 1 memory })

one_byte-Serves : (limit : ℕ) → Serves limit memory 0 (one_byte limit)
unfolding Serves fru_request
one_byte-Serves limit n off count some_count small within =
    let asked : u8 count ≡ count = omega (arith, small) in
    let at : u8 off + 256 * u8 (off / 256) ≡ off = omega (arith, within) in
    elim (Bool-cases (ltb limit count)) [
      | inl large ↦
          too_much (record { ccode = 0xCA; bytes = [] }) (rw (asked, large) refl) refl
            (ltb→lt limit count large)
      | inr fits ↦ part 1 (rw (asked, fits, at) refl) (omega arith) some_count
    ]

read_fru_area_exact_example :
    let done =
      read_fru_area 24 fru_intf fru 0 1 10
        (one_byte 8)
        (0 ∷ 0 ∷ 0 ∷ 0 ∷ 0 ∷ 0 ∷ 0 ∷ 0 ∷ 0 ∷ 0 ∷ []) in
    (done.0 ≡ read_ok) × (take 10 done.1.1 ≡ slice 1 10 memory)
read_fru_area_exact_example =
    read_fru_area_exact 24 fru_intf fru 0 1 10 (one_byte 8)
      (0 ∷ 0 ∷ 0 ∷ 0 ∷ 0 ∷ 0 ∷ 0 ∷ 0 ∷ 0 ∷ 0 ∷ []) memory 12 refl (omega arith) (omega arith)
      (omega arith) (one_byte-Serves 8) (unfold known_read_size in refl) (omega arith) (omega arith)
      (omega arith) (omega arith)

read_fru_area-overrun_example :
    ((read_fru_area 9 fru_intf fru 0 8 8 (one_byte 8) (0 ∷ [])).0 ≡ read_overrun)
    × ((read_fru_area_section 9 20 fru 0 8 8 (one_byte 8) (0 ∷ [])).0 ≡ read_overrun)
read_fru_area-overrun_example =
    read_fru_area-overrun 9 20 fru_intf fru 0 8 8 (one_byte 8) (0 ∷ []) (omega arith) (omega arith)
      (omega arith) (omega arith) (omega arith)

-- "IPMI", packed and unpacked.
get_fru_area_str-six_bit_example :
    get_fru_area_str (7 ∷ six_bit_field (0x49 ∷ 0x50 ∷ 0x4D ∷ 0x49 ∷ []) ++ (0xC1 ∷ [])) 1
    ≡ some (
      some (0x49 ∷ 0x50 ∷ 0x4D ∷ 0x49 ∷ []),
      1 + 1 + length (pack_six (0x49 ∷ 0x50 ∷ 0x4D ∷ 0x49 ∷ [])),
    )
get_fru_area_str-six_bit_example =
    get_fru_area_str-six_bit (7 ∷ []) (0x49 ∷ 0x50 ∷ 0x4D ∷ 0x49 ∷ []) (0xC1 ∷ [])
      (
        (omega arith, omega arith),
        (
          (omega arith, omega arith),
          ((omega arith, omega arith), ((omega arith, omega arith), tt)),
        ),
      )
      (omega arith) (omega arith)

get_fru_area_str-FieldFits_example :
    FieldFits 1 2 (0x42 ∷ 0x12 ∷ 0xA3 ∷ []) 0 (get_fru_area_str (0x42 ∷ 0x12 ∷ 0xA3 ∷ []) 0)
get_fru_area_str-FieldFits_example = get_fru_area_str-FieldFits (0x42 ∷ 0x12 ∷ 0xA3 ∷ []) 0

bcd_field :
    get_fru_area_str (0x42 ∷ 0x12 ∷ 0xA3 ∷ []) 0 ≡ some (some (0x31 ∷ 0x32 ∷ 0x20 ∷ 0x33 ∷ []), 3)
unfolding get_fru_area_str
bcd_field = refl

abbrev header_reply : Rs
header_reply = record { ccode = 0; bytes = 8 ∷ 1 ∷ 0 ∷ 0 ∷ 1 ∷ 0 ∷ 0 ∷ 0 ∷ 0xFE ∷ [] }

build_fru_bloc-BlocsFollow_example :
    BlocsFollow 12 (
      build_fru_bloc fru_intf fru 0 9
        (some header_reply)
        (λ k. one_byte 8)
        (0 ∷ 0 ∷ 0 ∷ 0 ∷ 0 ∷ []))
build_fru_bloc-BlocsFollow_example =
    build_fru_bloc-BlocsFollow fru_intf fru 0 9 (some header_reply) (λ k. one_byte 8)
      (0 ∷ 0 ∷ 0 ∷ 0 ∷ 0 ∷ []) (omega arith)

two_blocs :
    build_fru_bloc fru_intf fru 0 9 (some header_reply) (λ k. one_byte 8) []
    ≡ built fru (record { start = 8; size = 4 } ∷ record { start = 0; size = 8 } ∷ [])
unfolding build_fru_bloc ipmi_csum
two_blocs = refl

-- A device that stores up to 32 bytes, and refuses more.
abbrev store_up_to : List ℕ → List ℕ → Option ℕ × List ℕ
store_up_to stored_bytes [] = (none, stored_bytes)
store_up_to stored_bytes (id ∷ []) = (none, stored_bytes)
store_up_to stored_bytes (id ∷ low ∷ []) = (none, stored_bytes)
store_up_to stored_bytes (id ∷ low ∷ high ∷ bytes) =
    if ltb 32 (length bytes)
    then (some 0xC7, stored_bytes)
    else (some 0, write_at (low + 256 * high) bytes stored_bytes)

store_up_to-Stores : Stores store_up_to (λ m. m) 0
unfolding Stores write_request
store_up_to-Stores d off bytes some_bytes small within word =
    let at : u8 off + 256 * u8 (off / 256) ≡ off = omega (arith, word) in
    elim (Bool-cases (ltb 32 (length bytes))) [
      | inl large ↦
          refused 0xC7 (rw large refl) refl (ltb→lt 32 (length bytes) large) (rw large refl)
      | inr fits ↦ stored (rw fits refl) (rw (fits, at) refl)
    ]

write_blocs-stores_example :
    let done =
      write_blocs store_up_to 42 fru_intf 0 1 4 2
        (9 ∷ 8 ∷ 7 ∷ [])
        memory
        fru
        (record { start = 0; size = 5 } ∷ []) in
    (done.0 ≡ write_done) × (done.1.1 ≡ write_at 4 (slice 1 2 (9 ∷ 8 ∷ 7 ∷ [])) memory)
write_blocs-stores_example =
    write_blocs-stores store_up_to (λ m. m) 0 store_up_to-Stores 1 4 2 (9 ∷ 8 ∷ 7 ∷ []) memory
      (omega arith) (omega arith) (omega arith) (omega arith) 42 fru_intf fru
      (record { start = 0; size = 5 } ∷ []) memory 40 refl (omega arith)
      (unfold known_write_size in refl) refl (omega arith) (omega arith)
