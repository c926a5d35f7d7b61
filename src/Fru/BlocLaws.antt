-- ===== src/Fru/BlocLaws.antt =====
-- lib/ipmi_fru.c: the blocs of `build_fru_bloc` follow each other.
use ipmitool.Common.{
  ℕ, zero, suc, ◌+◌, ◌*◌, ◌%◌, ◌<◌, ◌≡◌, refl, ◌∙◌, ◌⊎◌, inl, inr, Bool-cases, Option-cases, List,
  [], ◌∷◌, Option, none, some, not, ltb, ◌==◌, ◌&&◌, ◌||◌, if◌then◌else◌, get_or, u16, arith,
}
use ipmitool.Intf.{Intf}
use ipmitool.Checksum.{ipmi_csum}
use ipmitool.Fru.{FruInfo, Rs}
use ipmitool.Fru.Read.{ReadRet, read_ok, read_error, read_overrun, read_unfinished}
use ipmitool.Fru.Area.{adjusted, known_read_size, read_fru_area}
use ipmitool.Fru.Blocs.{
  Bloc, add_bloc, section_blocs, Multi, multi_end, multi_overrun, multi_unfinished, record_end,
  last_record, multi_blocs, Built, built, not_built, built_overrun, built_unfinished, with_rest,
  build_fru_bloc,
}

-- Blocs, last one first, that begin at 0, follow each other and end at `end`, in uint16_t.
abbrev pub ChainTo : ℕ → List Bloc → Type 0
ChainTo end [] = end ≡ 0
ChainTo end (b ∷ blocs) =
    (u16 (b.start + b.size) ≡ u16 end) × (b.start < 65536) × ChainTo b.start blocs

abbrev Chain : ℕ → List Bloc → Type 0
Chain size [] = ⊥
Chain size (b ∷ blocs) = ChainTo size (b ∷ blocs)

add_bloc-Chain :
    (size s start : ℕ) (blocs : List Bloc)
    → s ≡ size
    → size < 65536
    → Chain size blocs
    → Chain size (add_bloc s start blocs)
unfolding add_bloc
add_bloc-Chain size s start [] e h c = absurd c
add_bloc-Chain size s start (b ∷ blocs) e h c =
    (omega (arith, e, h), omega arith, (omega (arith, c.1), c.1, c.2))

section_blocs-Chain :
    (size : ℕ) (offsets : List ℕ) (blocs : List Bloc)
    → size < 65536
    → Chain size blocs
    → Chain size (section_blocs size offsets blocs)
unfolding section_blocs
section_blocs-Chain size [] blocs h c = c
section_blocs-Chain size (offset ∷ offsets) blocs h c =
    section_blocs-Chain size offsets
      (if offset == 0 then blocs else add_bloc size (offset * 8) blocs) h
      (elim (Bool-cases (offset == 0)) [
        | inl none_there ↦ rw none_there c
        | inr there ↦ rw there (add_bloc-Chain size size (offset * 8) blocs refl h c)
      ])

read_fru_area-size :
    (fuel : ℕ) (intf : Intf) (fru : FruInfo) (id offset len : ℕ) (reply : ℕ → List ℕ → Option Rs)
    (buffer : List ℕ)
    → (read_fru_area fuel intf fru id offset len reply buffer).1.0.size ≡ fru.size
unfolding read_fru_area
read_fru_area-size fuel intf fru id offset len reply buffer =
    elim (Bool-cases (ltb fru.size offset)) [
      | inl past ↦ rw (past, read_fru_area) refl
      | inr within ↦ elim (Option-cases (adjusted fru offset len buffer)) [
        | inl out ↦ rw (within, out, read_fru_area) refl
        | inr found ↦ elim (Option-cases (known_read_size intf fru)) [
          | inl unknown ↦ rw (within, found.1, unknown, read_fru_area) refl
          | inr known ↦ rw (within, found.1, known.1, read_fru_area) refl
        ]
      ]
    ]

-- What is asked of the loop's end and of the blocs.
abbrev MultiIs : ℕ → Multi → Type 0
MultiIs size (multi_end off fru blocs) = (fru.size ≡ size) × Chain size blocs
MultiIs size multi_overrun = Unit
MultiIs size multi_unfinished = Unit

abbrev pub BlocsFollow : ℕ → Built → Type 0
BlocsFollow size (built fru blocs) = (fru.size ≡ size) × ChainTo size blocs
BlocsFollow size not_built = Unit
BlocsFollow size built_overrun = Unit
BlocsFollow size built_unfinished = Unit

Chain-ChainTo : (size : ℕ) (blocs : List Bloc) → Chain size blocs → ChainTo size blocs
Chain-ChainTo size [] c = absurd c
Chain-ChainTo size (b ∷ blocs) c = c

with_rest-BlocsFollow :
    (size : ℕ) (m : Multi) → size < 65536 → MultiIs size m → BlocsFollow size (with_rest m)
unfolding with_rest
with_rest-BlocsFollow size multi_overrun h c = tt
with_rest-BlocsFollow size multi_unfinished h c = tt
with_rest-BlocsFollow size (multi_end off fru blocs) h (same, c) = (
  same,
  elim (Bool-cases (ltb off fru.size)) [
    | inl more ↦ rw more (
        Chain-ChainTo size (add_bloc fru.size off blocs)
          (add_bloc-Chain size fru.size off blocs same h c))
    | inr full ↦ rw full (Chain-ChainTo size blocs c)
  ],
)

ReadRet_cases :
    (r : ReadRet)
    → ((r ≡ read_ok) ⊎ (r ≡ read_error)) ⊎ ((r ≡ read_overrun) ⊎ (r ≡ read_unfinished))
ReadRet_cases read_ok = inl (inl refl)
ReadRet_cases read_error = inl (inr refl)
ReadRet_cases read_overrun = inr (inl refl)
ReadRet_cases read_unfinished = inr (inr refl)

module _ (intf : Intf) (id fuel size : ℕ) (replies : ℕ → ℕ → List ℕ → Option Rs)
    (word : size < 65536) where
  multi_blocs-MultiIs :
      (records k off : ℕ) (fru : FruInfo) (rec_hdr : List ℕ) (blocs : List Bloc)
      → fru.size ≡ size
      → Chain size blocs
      → MultiIs size (multi_blocs intf id fuel replies records k off fru rec_hdr blocs)
  unfolding multi_blocs
  multi_blocs-MultiIs zero k off fru rec_hdr blocs same c = tt
  multi_blocs-MultiIs (suc records) k off fru rec_hdr blocs same c =
      elim (Bool-cases (fru.access && (off % 2 == 1))) [
        | inl odd ↦ rw (odd, multi_blocs) (same, c)
        | inr even ↦
            let done = read_fru_area fuel intf fru id off 5 (replies k) rec_hdr in
            let kept : done.1.0.size ≡ size =
              read_fru_area-size fuel intf fru id off 5 (replies k) rec_hdr ∙ same in
            let off' = record_end intf id fuel replies off done.1.1 in
            let more = add_bloc-Chain size fru.size off blocs same word c in
            let rest =
              multi_blocs-MultiIs records (k + 1) off' done.1.0 done.1.1
                (add_bloc fru.size off blocs) kept more in
            elim (ReadRet_cases done.0) [
              | inl (inl ok) ↦
                  elim (Bool-cases (last_record intf id fuel replies fru.size done.1.1 off')) [
                    | inl last ↦ rw (even, ok, last, multi_blocs) (kept, more)
                    | inr go ↦ rw (even, ok, go, multi_blocs) rest
                  ]
              | inl (inr failed) ↦ rw (even, failed, multi_blocs) (kept, c)
              | inr (inl out) ↦ rw (even, out, multi_blocs) tt
              | inr (inr cut) ↦ rw (even, cut, multi_blocs) tt
            ]
      ]

-- The blocs that `build_fru_bloc` returns, whatever the header and the records of the device say
-- and whichever reads fail, begin at 0, each ends where the next one begins, and the last one ends
-- at the end of the device, in the uint16_t that their starts and sizes have.
pub build_fru_bloc-BlocsFollow :
    (intf : Intf) (fru : FruInfo) (id fuel : ℕ) (header : Option Rs)
    (replies : ℕ → ℕ → List ℕ → Option Rs) (rec_hdr : List ℕ)
    → fru.size < 65536
    → BlocsFollow fru.size (build_fru_bloc intf fru id fuel header replies rec_hdr)
unfolding build_fru_bloc
build_fru_bloc-BlocsFollow intf fru id fuel none replies rec_hdr h = tt
build_fru_bloc-BlocsFollow intf fru id fuel (some rsp) replies rec_hdr h =
    let byte : ℕ → ℕ = λ i. get_or rsp.bytes (1 + i) 0 in
    let header = byte 0 ∷ byte 1 ∷ byte 2 ∷ byte 3 ∷ byte 4 ∷ byte 5 ∷ byte 6 ∷ byte 7 ∷ [] in
    let common : List Bloc = record { start = 0; size = u16 fru.size } ∷ [] in
    let blocs = section_blocs fru.size (byte 1 ∷ byte 2 ∷ byte 3 ∷ byte 4 ∷ []) common in
    let c : Chain fru.size blocs =
      section_blocs-Chain fru.size (byte 1 ∷ byte 2 ∷ byte 3 ∷ byte 4 ∷ []) common h
        (omega (arith, h), omega arith, refl) in
    let multi =
      multi_blocs-MultiIs intf id fuel fru.size replies h fuel 0 (byte 5 * 8) fru rec_hdr blocs refl
        c in
    elim (Bool-cases (not (rsp.ccode == 0) || not (ipmi_csum header == 0) || not (byte 0 == 1))) [
      | inl bad ↦ rw (bad, build_fru_bloc) tt
      | inr good ↦ elim (Bool-cases (byte 5 == 0)) [
        | inl without ↦ rw (good, without, build_fru_bloc) (refl, Chain-ChainTo fru.size blocs c)
        | inr records ↦
            rw (good, records, build_fru_bloc)
              (with_rest-BlocsFollow fru.size
                (multi_blocs intf id fuel replies fuel 0 (byte 5 * 8) fru rec_hdr blocs) h multi)
      ]
    ]
