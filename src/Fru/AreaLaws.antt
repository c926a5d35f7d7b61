-- ===== src/Fru/AreaLaws.antt =====
-- lib/ipmi_fru.c: the calls of `read_fru_area` and `read_fru_area_section` within the size of a
-- device, and the `memset` of a call that goes beyond it.
use ipmitool.Common.{
  lt→ltb, ℕ, ◌+◌, ◌≤◌, ◌<◌, ◌≡◌, refl, ap, List, Option, none, some, true, false, ltb-false, ltb,
  length, take, u32, arith,
}
use ipmitool.Intf.{Intf}
use ipmitool.Fru.{FruInfo, Rs, sub_u32}
use ipmitool.Fru.Slices.{slice}
use ipmitool.Fru.Read.{read_ok, read_overrun, area_shrink, section_shrink}
use ipmitool.Fru.Area.{
  clear_rest, adjusted, first_read_size, known_read_size, read_fru_area, read_fru_area_section,
}
use ipmitool.Fru.Serving.{Serves, area_shrink-Retries, section_shrink-Retries}
use ipmitool.Fru.ReadLaws.{serve_area}

adjusted-within :
    (fru : FruInfo) (offset len : ℕ) (buffer : List ℕ)
    → offset + len ≤ fru.size
    → fru.size < 65536
    → adjusted fru offset len buffer ≡ some (offset + len, buffer)
unfolding adjusted
adjusted-within fru offset len buffer h lt =
    let word : u32 (offset + len) ≡ offset + len = omega (arith, h, lt) in
    let fits : ltb fru.size (u32 (offset + len)) ≡ false =
      ltb-false fru.size (u32 (offset + len)) (omega (arith, h, word)) in
    rw (fits, adjusted) (ap (λ (m : ℕ). some (m, buffer)) word)

known_read_size_lem :
    (intf : Intf) (fru : FruInfo) (size : ℕ)
    → fru.access ≡ false
    → fru.max_read_size ≤ 255
    → known_read_size intf fru ≡ some size
    → (1 ≤ size) × (size ≤ 255)
unfolding known_read_size first_read_size
known_read_size_lem intf fru size word le e = ground arith

-- `read_fru_area` returns 0 and fills the caller's buffer with exactly the device's bytes, however
-- the device splits them up and however often it asks for less: for a byte-access device that
-- answers every request within its memory with some of the bytes asked for, and may refuse a
-- request as too large only above 8 bytes; for an area of 1 byte or more within the size of the
-- device and a buffer with room for it; and with rounds for the length and the first request size.
pub read_fru_area_exact :
    (fuel : ℕ) (intf : Intf) (fru : FruInfo) (id offset len : ℕ) (reply : ℕ → List ℕ → Option Rs)
    (buffer mem : List ℕ) (size : ℕ)
    → fru.access ≡ false
    → fru.max_read_size ≤ 255
    → fru.size < 65536
    → fru.size ≤ length mem
    → Serves 8 mem id reply
    → known_read_size intf fru ≡ some size
    → 1 ≤ len
    → offset + len ≤ fru.size
    → len ≤ length buffer
    → len + size ≤ fuel
    → let done = read_fru_area fuel intf fru id offset len reply buffer in
      (done.0 ≡ read_ok) × (take len done.1.1 ≡ slice offset len mem)
unfolding read_fru_area
read_fru_area_exact fuel intf fru id offset len reply buffer mem size bytes max word mem_le serves
      known some_len within room enough =
    let sized = known_read_size_lem intf fru size bytes max known in
    let r =
      serve_area area_shrink 8 id mem reply area_shrink-Retries serves offset len
        (omega (arith, within, mem_le)) (omega (arith, within, word)) size fuel buffer some_len room
        sized.0 sized.1 enough in
    rw
      (
        ltb-false fru.size offset (omega (arith, within)),
        adjusted-within fru offset len buffer within word,
        known,
        bytes,
        read_fru_area,
      )
      r

-- The same of `read_fru_area_section`, whose request size is kept between calls: it gives up on a
-- request of 9 bytes, so the device must answer requests of 9 bytes or fewer; the size it starts
-- with is from 1 to 255.
pub read_fru_area_section_exact :
    (fuel rqst_size : ℕ) (fru : FruInfo) (id offset len : ℕ) (reply : ℕ → List ℕ → Option Rs)
    (buffer mem : List ℕ)
    → fru.access ≡ false
    → fru.size < 65536
    → fru.size ≤ length mem
    → Serves 9 mem id reply
    → 1 ≤ rqst_size
    → rqst_size ≤ 255
    → 1 ≤ len
    → offset + len ≤ fru.size
    → len ≤ length buffer
    → len + rqst_size ≤ fuel
    → let done = read_fru_area_section fuel rqst_size fru id offset len reply buffer in
      (done.0 ≡ read_ok) × (take len done.1.1 ≡ slice offset len mem)
unfolding read_fru_area_section
read_fru_area_section_exact fuel rqst_size fru id offset len reply buffer mem bytes word mem_le
      serves some_size small some_len within room enough =
    let r =
      serve_area section_shrink 9 id mem reply section_shrink-Retries serves offset len
        (omega (arith, within, mem_le)) (omega (arith, within, word)) rqst_size fuel buffer some_len
        room some_size small enough in
    rw
      (
        ltb-false fru.size offset (omega (arith, within)),
        adjusted-within fru offset len buffer within word,
        bytes,
        read_fru_area_section,
      )
      r

clear_rest-none :
    (size len : ℕ) (buffer : List ℕ)
    → len < size
    → size < 65536
    → length buffer < 4294967296
    → clear_rest size len buffer ≡ none
unfolding clear_rest
clear_rest-none size len buffer h word small =
    let past : ltb (length buffer) (size + sub_u32 len size) ≡ true =
      lt→ltb (length buffer) (size + sub_u32 len size) (omega (arith, h, word, small)) in
    rw (past, clear_rest) refl

adjusted-none :
    (fru : FruInfo) (offset len : ℕ) (buffer : List ℕ)
    → fru.size < offset + len
    → offset + len < 4294967296
    → len < fru.size
    → fru.size < 65536
    → length buffer < 4294967296
    → adjusted fru offset len buffer ≡ none
unfolding adjusted
adjusted-none fru offset len buffer beyond sum h word small =
    let adjusts : ltb fru.size (u32 (offset + len)) ≡ true =
      lt→ltb fru.size (u32 (offset + len)) (omega (arith, beyond, sum)) in
    rw (adjusts, clear_rest-none fru.size len buffer h word small, adjusted) refl

-- Asked for an area that begins within the device and ends beyond it, and is shorter than the
-- device, both functions clear memory outside the caller's buffer, whatever its size is: the
-- length that `memset` is given is `length - fru->size` below 0, close to 4 GiB.
pub read_fru_area-overrun :
    (fuel rqst_size : ℕ) (intf : Intf) (fru : FruInfo) (id offset len : ℕ)
    (reply : ℕ → List ℕ → Option Rs) (buffer : List ℕ)
    → offset ≤ fru.size
    → fru.size < offset + len
    → len < fru.size
    → fru.size < 65536
    → length buffer < 4294967296
    → ((read_fru_area fuel intf fru id offset len reply buffer).0 ≡ read_overrun)
      × ((read_fru_area_section fuel rqst_size fru id offset len reply buffer).0 ≡ read_overrun)
unfolding read_fru_area read_fru_area_section
read_fru_area-overrun fuel rqst_size intf fru id offset len reply buffer begins beyond h word
      small =
    let begin : ltb fru.size offset ≡ false = ltb-false fru.size offset begins in
    let out : adjusted fru offset len buffer ≡ none =
      adjusted-none fru offset len buffer beyond (omega (arith, begins, h, word)) h word small in
    (rw (begin, out, read_fru_area) refl, rw (begin, out, read_fru_area_section) refl)
