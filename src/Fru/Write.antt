-- ===== src/Fru/Write.antt =====
-- lib/ipmi_fru.c: `write_fru_area`, which writes to a device in pieces that end with its blocs.
-- `Device` is what the device and the channel to it remember; `send` takes a request and gives the
-- completion code, or none where `sendrecv` gives no response.
use ipmitool.Common.{
  ℕ, zero, suc, ◌+◌, ◌-◌, ◌/◌, ◌%◌, List, [], ◌∷◌, Option, none, some, Bool, true, false, ltb, leb,
  ◌==◌, ◌&&◌, ◌||◌, if◌then◌else◌, u8, u16,
}
use ipmitool.Intf.{Intf}
use ipmitool.Intf.Sizes.{get_max_request_data_size}
use ipmitool.Fru.{FruInfo, Rs, fru_cc_rq2big, fru_block_sz, fru_area_maximum_block_sz}
use ipmitool.Fru.Slices.{slice}
use ipmitool.Fru.Blocs.{
  Bloc, Built, built, not_built, built_overrun, built_unfinished, build_fru_bloc,
}

-- `IPMI_CC_FRU_WRITE_PROTECTED_OFFSET`.
abbrev pub write_protected : ℕ
write_protected = 0x80

-- The blocs in their order in the list of the source.
unfoldable pub first_first : List Bloc → List Bloc → List Bloc
first_first [] blocs = blocs
first_first (last ∷ before) blocs = first_first before (last ∷ blocs)

-- The blocs from the one that ends behind `doffset` on.
unfoldable pub bloc_at : List Bloc → ℕ → List Bloc
bloc_at [] doffset = []
bloc_at (b ∷ blocs) doffset =
    if leb (b.start + b.size) doffset then bloc_at blocs doffset else b ∷ blocs

unfoldable pub end_bloc : List Bloc → ℕ → ℕ
end_bloc [] finish = finish
end_bloc (b ∷ blocs) finish = if ltb (b.start + b.size) finish then b.start + b.size else finish

-- The request, with its data behind the offset.
unfoldable pub write_request : Bool → ℕ → ℕ → List ℕ → List ℕ
write_request access id doffset bytes =
    let tmp = if access then doffset / 2 else doffset in id ∷ u8 tmp ∷ u8 (tmp / 256) ∷ bytes

-- The variables of the loop.
pub record WriteState (Device : Type 0) : Type 0 where
  pub soffset : ℕ
  pub doffset : ℕ
  pub max_write : ℕ
  pub blocs : List Bloc
  pub device : Device

pub data WriteTurn (Device : Type 0) : Type 0 where
  stops continues : WriteState Device → WriteTurn Device

-- What a completion code does: the bytes are written, the rest of the bloc is left out, the
-- request is made smaller, or the loop is left.
unfoldable pub on_write :
    {Device : Type 0} → ℕ → ℕ → Option ℕ → WriteState Device → WriteTurn Device
on_write last written none s = stops s
on_write last written (some ccode) s =
    if fru_cc_rq2big ccode
    then (if ltb fru_area_maximum_block_sz s.max_write
        then continues (record s { max_write = s.max_write - fru_block_sz })
        else stops s)
    else (if ccode == write_protected
        then continues
            (record s { soffset = u16 (s.soffset + (last + 65536 - s.doffset)); doffset = last })
        else (if ccode == 0
            then continues (record s {
              soffset = u16 (s.soffset + written);
              doffset = u16 (s.doffset + written);
            })
            else stops s))

module _ {Device : Type 0} (send : Device → List ℕ → Option ℕ × Device) (access : Bool)
    (id finish : ℕ) (bytes : List ℕ) where
  -- The number of bytes of a round.
  unfoldable pub write_length : ℕ → WriteState Device → ℕ
  write_length last s =
      let tmp = u16 (last + 65536 - s.doffset) in
      let most = if ltb s.max_write tmp then s.max_write else tmp in
      if access then most - most % 2 else most

  unfoldable pub write_turn : WriteState Device → WriteTurn Device
  unfolding write_length on_write
  write_turn s =
      let blocs = bloc_at s.blocs s.doffset in
      let last = end_bloc blocs finish in
      let written = write_length last s in
      let sent =
        send s.device (write_request access id s.doffset (slice s.soffset written bytes)) in
      on_write last written sent.0 (record s { blocs = blocs; device = sent.1 })

  -- The loop; none where it is out of fuel.
  unfoldable pub write_loop : ℕ → WriteState Device → Option (WriteState Device)
  unfolding write_turn
  write_loop zero s = none
  write_loop (suc fuel) s = elim (write_turn s) [
    | stops s' ↦ some s'
    | continues s' ↦ elim (ltb s'.doffset finish) [ true ↦ write_loop fuel s' | false ↦ some s' ]
  ]

-- `max_write_size` where it is not known yet; none where no byte fits.
unfoldable pub first_write_size : Intf → Bool → Option ℕ
first_write_size intf access =
    let max_rq_size = get_max_request_data_size intf in
    let most = if ltb 255 (max_rq_size - 3) then 255 else max_rq_size - 3 in
    if leb max_rq_size 3 then none else some (if access then most - most % 2 else most)

unfoldable pub known_write_size : Intf → FruInfo → Option ℕ
unfolding first_write_size
known_write_size intf fru =
    if fru.max_write_size == 0 then first_write_size intf fru.access else some fru.max_write_size

-- The value of `write_fru_area`: 1, 0 or -1, a `memset` outside the buffer while the blocs are
-- read, or no fuel left.
pub data Written : Type 0 where
  write_done write_incomplete write_error write_overrun write_unfinished : Written

unfoldable pub write_result :
    {Device : Type 0}
    → ℕ
    → FruInfo
    → Device
    → Option (WriteState Device)
    → Written × (FruInfo × Device)
write_result finish fru device none = (write_unfinished, (fru, device))
write_result finish fru device (some s) = (
  (if leb finish s.doffset then write_done else write_incomplete),
  (record fru { max_write_size = s.max_write }, s.device),
)

module _ {Device : Type 0} (send : Device → List ℕ → Option ℕ × Device) (fuel : ℕ) (intf : Intf)
    (id soffset doffset len : ℕ) (bytes : List ℕ) (device : Device) where
  -- What `write_fru_area` does when it has the blocs, first one first; none of them where
  -- `build_fru_bloc` returned NULL.
  unfoldable pub write_blocs : FruInfo → List Bloc → Written × (FruInfo × Device)
  unfolding known_write_size write_result
  write_blocs fru blocs = elim (known_write_size intf fru) [
    | none ↦ (write_error, (fru, device))
    | some size ↦ write_result (u16 (doffset + len)) fru device (
        write_loop send fru.access id (u16 (doffset + len)) bytes fuel (record {
          soffset = soffset;
          doffset = doffset;
          max_write = size;
          blocs = blocs;
          device = device;
        }))
  ]

  unfoldable pub with_blocs : FruInfo → Built → Written × (FruInfo × Device)
  unfolding write_blocs
  with_blocs fru (built fru' blocs) = write_blocs fru' (first_first blocs [])
  with_blocs fru not_built = write_blocs fru []
  with_blocs fru built_overrun = (write_overrun, (fru, device))
  with_blocs fru built_unfinished = (write_unfinished, (fru, device))

  -- `write_fru_area`: `header` and `replies` answer the requests of `build_fru_bloc`, and `device`
  -- is the device behind them.
  unfoldable pub write_fru_area :
      FruInfo → Option Rs → (ℕ → ℕ → List ℕ → Option Rs) → List ℕ → Written × (FruInfo × Device)
  unfolding with_blocs
  write_fru_area fru header replies rec_hdr =
      if ltb fru.size (u16 (doffset + len)) || fru.access && (doffset % 2 == 1 || len % 2 == 1)
      then (write_error, (fru, device))
      else with_blocs fru (build_fru_bloc intf fru id fuel header replies rec_hdr)
