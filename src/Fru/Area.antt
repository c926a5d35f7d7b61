-- ===== src/Fru/Area.antt =====
-- lib/ipmi_fru.c: what `read_fru_area` and `read_fru_area_section` do before their loop.
use ipmitool.Common.{
  ◌%◌, ℕ, zero, suc, ◌+◌, ◌-◌, List, [], ◌∷◌, ◌++◌, Option, none, some, Bool, true, false, ltb, leb,
  ◌==◌, ◌%◌, ◌&&◌, if◌then◌else◌, length, take, drop, u16, u32,
}
use ipmitool.Intf.{Intf}
use ipmitool.Intf.Sizes.{get_max_response_data_size}
use ipmitool.Fru.{FruInfo, Rs, sub_u32}
use ipmitool.Fru.Read.{
  ReadState, ReadRet, read_overrun, read_error, area_shrink, section_shrink, read_loop,
}

unfoldable pub zeros : ℕ → List ℕ
zeros zero = []
zeros (suc n) = 0 ∷ zeros n

-- `memset(frubuf + fru->size, 0, length - fru->size)` on the caller's buffer; none where the
-- buffer ends before.
unfoldable pub clear_rest : ℕ → ℕ → List ℕ → Option (List ℕ)
clear_rest size len buffer =
    let count = sub_u32 len size in
    elim (ltb (length buffer) (size + count)) [
      | true ↦ none
      | false ↦ some (take size buffer ++ (zeros count ++ drop (size + count) buffer))
    ]

-- The end of the area and the buffer the loop starts with; none where the `memset` leaves it.
unfoldable pub adjusted : FruInfo → ℕ → ℕ → List ℕ → Option (ℕ × List ℕ)
unfolding clear_rest
adjusted fru offset len buffer =
    let finish = u32 (offset + len) in
    elim (ltb fru.size finish) [
      | false ↦ some (finish, buffer)
      | true ↦ elim (clear_rest fru.size len buffer) [ none ↦ none | some b ↦ some (fru.size, b) ]
    ]

-- `max_read_size` where it is not known yet; none where no byte fits.
unfoldable pub first_read_size : Intf → Bool → Option ℕ
first_read_size intf access =
    let max_rs_size = u16 (get_max_response_data_size intf + 65535) in
    let most = if ltb 255 (max_rs_size - 1) then 255 else max_rs_size - 1 in
    if leb max_rs_size 1 then none else some (if access then most - most % 2 else most)

unfoldable pub known_read_size : Intf → FruInfo → Option ℕ
unfolding first_read_size
known_read_size intf fru =
    if fru.max_read_size == 0 then first_read_size intf fru.access else some fru.max_read_size

-- The state before the loop, which reads from `offset` to `finish`.
abbrev pub start : ℕ → ℕ → ℕ → List ℕ → ReadState
start offset finish size buffer = record {
  off = offset;
  left = sub_u32 finish offset;
  pos = 0;
  rqst_size = size;
  buffer = buffer;
}

-- `read_fru_area`: the value, the information on the device with the request size that was
-- found, and the buffer.
unfoldable pub read_fru_area :
    ℕ
    → Intf
    → FruInfo
    → ℕ
    → ℕ
    → ℕ
    → (ℕ → List ℕ → Option Rs)
    → List ℕ
    → ReadRet × (FruInfo × List ℕ)
unfolding adjusted known_read_size
read_fru_area fuel intf fru id offset len reply buffer =
    if ltb fru.size offset
    then (read_error, (fru, buffer))
    else (elim (adjusted fru offset len buffer) [
      | none ↦ (read_overrun, (fru, buffer))
      | some (finish, b) ↦ elim (known_read_size intf fru) [
        | none ↦ (read_error, (fru, b))
        | some size ↦
            let done =
              read_loop area_shrink fru.access id finish reply fuel 0
                (start offset finish size b) in
            (done.0, (record fru { max_read_size = done.1.rqst_size }, done.1.buffer))
      ]
    ])

-- `read_fru_area_section`, with `fru_data_rqst_size` before and after the call.
unfoldable pub read_fru_area_section :
    ℕ → ℕ → FruInfo → ℕ → ℕ → ℕ → (ℕ → List ℕ → Option Rs) → List ℕ → ReadRet × (ℕ × List ℕ)
unfolding adjusted
read_fru_area_section fuel fru_data_rqst_size fru id offset len reply buffer =
    if ltb fru.size offset
    then (read_error, (fru_data_rqst_size, buffer))
    else (elim (adjusted fru offset len buffer) [
      | none ↦ (read_overrun, (fru_data_rqst_size, buffer))
      | some (finish, b) ↦
          let size = if fru.access && ltb 16 fru_data_rqst_size then 16 else fru_data_rqst_size in
          let done =
            read_loop section_shrink fru.access id finish reply fuel 0
              (start offset finish size b) in
          (done.0, (done.1.rqst_size, done.1.buffer))
    ])
