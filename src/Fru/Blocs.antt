-- ===== src/Fru/Blocs.antt =====
-- lib/ipmi_fru.c: `build_fru_bloc`, the sections of a device in the order of its header. `malloc`
-- gives a block. The list is kept with its last bloc first while it is built.
use ipmitool.Common.{
  ℕ, zero, suc, ◌+◌, ◌-◌, ◌*◌, ◌%◌, List, [], ◌∷◌, Option, none, some, Bool, true, false, not, ltb,
  ◌==◌, ◌&&◌, ◌||◌, if◌then◌else◌, get_or, u16, u32,
}
use ipmitool.Intf.{Intf}
use ipmitool.Checksum.{ipmi_csum}
use ipmitool.Fru.{FruInfo, Rs}
use ipmitool.Fru.Read.{read_ok, read_error, read_overrun, read_unfinished}
use ipmitool.Fru.Area.{read_fru_area}

-- `t_ipmi_fru_bloc` without its name.
pub record Bloc : Type 0 where
  pub start : ℕ
  pub size : ℕ

-- A new last bloc, and the end of the one before it.
unfoldable pub add_bloc : ℕ → ℕ → List Bloc → List Bloc
add_bloc size start [] = record { start = u16 start; size = u16 (size + 65536 - u16 start) } ∷ []
add_bloc size start (last ∷ blocs) =
    record { start = u16 start; size = u16 (size + 65536 - u16 start) }
    ∷ record { start = last.start; size = u16 (u16 start + 65536 - last.start) }
    ∷ blocs

-- The areas of the common header.
unfoldable pub section_blocs : ℕ → List ℕ → List Bloc → List Bloc
unfolding add_bloc
section_blocs size [] blocs = blocs
section_blocs size (offset ∷ offsets) blocs =
    section_blocs size offsets (if offset == 0 then blocs else add_bloc size (offset * 8) blocs)

-- The end of the loop over the records: the offset behind them, or what became of a read.
pub data Multi : Type 0 where
  multi_end : ℕ → FruInfo → List Bloc → Multi
  multi_overrun multi_unfinished : Multi

-- `replies k` answers the requests of the k-th call of `read_fru_area`; `rec_hdr` is the header
-- that was read last.
module _ (intf : Intf) (id fuel : ℕ) (replies : ℕ → ℕ → List ℕ → Option Rs) where
  -- Behind a header that was read.
  unfoldable pub record_end : ℕ → List ℕ → ℕ
  record_end off rec_hdr = u32 (off + get_or rec_hdr 2 0 + 5)

  unfoldable pub last_record : ℕ → List ℕ → ℕ → Bool
  last_record size rec_hdr off =
      not (ipmi_csum rec_hdr == 0) || not (ltb (get_or rec_hdr 1 0) 0x80) || not (ltb off size)

  unfoldable pub multi_blocs : ℕ → ℕ → ℕ → FruInfo → List ℕ → List Bloc → Multi
  unfolding record_end last_record add_bloc
  multi_blocs zero k off fru rec_hdr blocs = multi_unfinished
  multi_blocs (suc records) k off fru rec_hdr blocs = elim (fru.access && (off % 2 == 1)) [
    | true ↦ multi_end (u32 (off + 1)) fru blocs
    | false ↦
        let done = read_fru_area fuel intf fru id off 5 (replies k) rec_hdr in
        elim done.0 [
          | read_overrun ↦ multi_overrun
          | read_unfinished ↦ multi_unfinished
          | read_error ↦ multi_end off done.1.0 blocs
          | read_ok ↦
              let off' = record_end off done.1.1 in
              let blocs' = add_bloc fru.size off blocs in
              elim (last_record fru.size done.1.1 off') [
                | true ↦ multi_end off' done.1.0 blocs'
                | false ↦ multi_blocs records (k + 1) off' done.1.0 done.1.1 blocs'
              ]
        ]
  ]

-- The blocs, last one first, and the information on the device after the reads; no blocs where
-- the function returns NULL.
pub data Built : Type 0 where
  built : FruInfo → List Bloc → Built
  not_built built_overrun built_unfinished : Built

-- The bloc for the remaining space.
unfoldable pub with_rest : Multi → Built
unfolding add_bloc
with_rest multi_overrun = built_overrun
with_rest multi_unfinished = built_unfinished
with_rest (multi_end off fru blocs) =
    built fru (if ltb off fru.size then add_bloc fru.size off blocs else blocs)

-- `header` answers the request for the common header. What stands behind the data of a shorter
-- response counts as 0.
unfoldable pub build_fru_bloc :
    Intf → FruInfo → ℕ → ℕ → Option Rs → (ℕ → ℕ → List ℕ → Option Rs) → List ℕ → Built
unfolding section_blocs with_rest multi_blocs
build_fru_bloc intf fru id fuel none replies rec_hdr = not_built
build_fru_bloc intf fru id fuel (some rsp) replies rec_hdr =
    let byte : ℕ → ℕ = λ i. get_or rsp.bytes (1 + i) 0 in
    let header = byte 0 ∷ byte 1 ∷ byte 2 ∷ byte 3 ∷ byte 4 ∷ byte 5 ∷ byte 6 ∷ byte 7 ∷ [] in
    let blocs =
      section_blocs fru.size (byte 1 ∷ byte 2 ∷ byte 3 ∷ byte 4 ∷ [])
        (record { start = 0; size = u16 fru.size } ∷ []) in
    if not (rsp.ccode == 0) || not (ipmi_csum header == 0) || not (byte 0 == 1)
    then not_built
    else elim (byte 5 == 0) [
      | true ↦ built fru blocs
      | false ↦ with_rest (multi_blocs intf id fuel replies fuel 0 (byte 5 * 8) fru rec_hdr blocs)
    ]
