-- ===== src/Fru/Serving.antt =====
-- lib/ipmi_fru.c: a device that answers, and what the loop of `read_fru_area` does in one round.
use ipmitool.Common.{
  ℕ, suc, ◌+◌, ◌-◌, ◌≤◌, ◌<◌, ◌≡◌, refl, List, ◌∷◌, Option, some, true, false, ltb-false, take_long,
  ◌==◌, ltb, length, take, u32, arith,
}
use ipmitool.Fru.{Rs, sub_u32, fru_cc_rq2big}
use ipmitool.Fru.Slices.{slice, write_at}
use ipmitool.Fru.Read.{
  ReadState, on_reply, again, fru_request, Shrink, area_shrink, section_shrink, take_bytes,
}

-- What a device with the bytes `mem` may answer to a request for `count` bytes at `off`: that it
-- was too much, unless `count` is at most `floor`, or some of the bytes.
pub data Answer (floor : ℕ) (mem : List ℕ) (off count : ℕ) (r : Option Rs) : Type 0 where
  too_much :
      (rsp : Rs)
      → r ≡ some rsp
      → fru_cc_rq2big rsp.ccode ≡ true
      → floor < count
      → Answer floor mem off count r
  part :
      (k : ℕ)
      → r ≡ some (record { ccode = 0; bytes = k ∷ slice off k mem })
      → 1 ≤ k
      → k ≤ count
      → Answer floor mem off count r

-- Every request within the memory is answered, whenever it comes.
unfoldable pub Serves : ℕ → List ℕ → ℕ → (ℕ → List ℕ → Option Rs) → Type 0
Serves floor mem id reply =
    (n off count : ℕ)
    → 1 ≤ count
    → count ≤ 255
    → off + count ≤ length mem
    → Answer floor mem off count (reply n (fru_request false id off count))

-- A size above `floor` is made smaller and tried again.
abbrev pub Retries : ℕ → Shrink → Type 0
Retries floor shrink =
    (size : ℕ)
    → floor < size
    → size ≤ 255
    → ((shrink size).1 ≡ true) × ((1 ≤ (shrink size).0) × ((shrink size).0 < size))

pub area_shrink-Retries : Retries 8 area_shrink
unfolding area_shrink
area_shrink-Retries size h le = ground arith

pub section_shrink-Retries : Retries 9 section_shrink
unfolding section_shrink
section_shrink-Retries size h le = ground arith

rq2big_nonzero : (c : ℕ) → fru_cc_rq2big c ≡ true → (c == 0) ≡ false
rq2big_nonzero c h = ground arith

pub sub_u32_exact : (a b : ℕ) → b ≤ a → a < 4294967296 → sub_u32 a b ≡ a - b
sub_u32_exact a b h lt = omega (arith, h, lt)

pub retry_lem :
    (shrink : Shrink) (id finish : ℕ) (reply : ℕ → List ℕ → Option Rs) (rsp : Rs) (s : ReadState)
    → fru_cc_rq2big rsp.ccode ≡ true
    → (shrink s.rqst_size).1 ≡ true
    → on_reply shrink false id finish reply (some rsp) s
      ≡ again (record s { rqst_size = (shrink s.rqst_size).0 })
unfolding on_reply
retry_lem shrink id finish reply rsp s c r = rw (rq2big_nonzero rsp.ccode c, c, r, on_reply) refl

-- The state after `k` bytes came.
abbrev pub taken : ℕ → List ℕ → ReadState → ReadState
taken k bytes s = record s {
  off = u32 (s.off + k);
  left = s.left - k;
  pos = s.pos + k;
  buffer = write_at s.pos bytes s.buffer;
}

take_bytes_lem :
    (finish k : ℕ) (bytes : List ℕ) (s : ReadState)
    → length bytes ≡ k
    → 1 ≤ k
    → k ≤ s.left
    → take_bytes false finish (k ∷ bytes) s ≡ again (taken k bytes s)
unfolding take_bytes
take_bytes_lem finish k bytes s e pos le =
    let one : ltb (suc (length bytes)) 1 ≡ false = ltb-false (suc (length bytes)) 1 (omega arith) in
    let there : ltb (suc (length bytes) - 1) k ≡ false =
      ltb-false (suc (length bytes) - 1) k (omega (arith, e)) in
    let fits : ltb s.left k ≡ false = ltb-false s.left k le in
    let some_bytes : (k == 0) ≡ false = ground arith in
    let whole : take k bytes ≡ bytes = take_long k bytes (omega (arith, e)) in
    rw (one, there, fits, some_bytes, whole, take_bytes) refl

pub part_lem :
    (shrink : Shrink) (id finish : ℕ) (reply : ℕ → List ℕ → Option Rs) (k : ℕ) (bytes : List ℕ)
    (s : ReadState)
    → length bytes ≡ k
    → 1 ≤ k
    → k ≤ s.left
    → on_reply shrink false id finish reply (some (record { ccode = 0; bytes = k ∷ bytes })) s
      ≡ again (taken k bytes s)
unfolding on_reply
part_lem shrink id finish reply k bytes s e pos le = take_bytes_lem finish k bytes s e pos le
