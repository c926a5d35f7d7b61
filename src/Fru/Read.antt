-- ===== src/Fru/Read.antt =====
-- lib/ipmi_fru.c: `read_fru_area` and `read_fru_area_section`, which read a device in pieces. `reply`
-- is what `sendrecv` gives for the n-th request of the call.
use ipmitool.Common.{
  ℕ, zero, suc, ◌+◌, ◌-◌, ◌*◌, ◌/◌, List, [], ◌∷◌, Option, none, some, Bool, true, false, ◌==◌, ltb,
  ◌&&◌, ◌||◌, if◌then◌else◌, get_or, length, take, drop, u8, u32,
}
use ipmitool.Fru.{sub_u32, Rs, fru_cc_rq2big, fru_block_sz, fru_area_maximum_block_sz}
use ipmitool.Fru.Slices.{write_at}

-- The variables of the loop; `left` is `size_left_in_buffer`, `pos` where `frubuf` points to in
-- the buffer, `rqst_size` the largest count that is asked for.
pub record ReadState : Type 0 where
  pub off : ℕ
  pub left : ℕ
  pub pos : ℕ
  pub rqst_size : ℕ
  pub buffer : List ℕ

-- A return value of 0, of -1, a `memset` outside the buffer, or no fuel left.
pub data ReadRet : Type 0 where
  read_ok read_error read_overrun read_unfinished : ReadRet

-- The end of a round: a return, a `break`, or the test at the end of the loop.
pub data Turn : Type 0 where
  returns : ReadRet → ReadState → Turn
  breaks again : ReadState → Turn

-- The request for `count` bytes at `off`.
unfoldable pub fru_request : Bool → ℕ → ℕ → ℕ → List ℕ
fru_request access id off count =
    let tmp = if access then off / 2 else off in id ∷ u8 tmp ∷ u8 (tmp / 256) ∷ u8 count ∷ []

abbrev pub smaller : ℕ → ℕ → ℕ
smaller limit n = if ltb limit n then limit else n

-- How a request that was too large is made smaller: the new size, and whether to try again.
abbrev pub Shrink : Type 0
Shrink = ℕ → ℕ × Bool

unfoldable pub area_shrink : Shrink
area_shrink size =
    if ltb fru_block_sz size
    then ((if ltb fru_area_maximum_block_sz size then size - fru_block_sz else size - 1), true)
    else (size, false)

-- `--fru_data_rqst_size > FRU_BLOCK_SZ` on a uint32_t.
unfoldable pub section_shrink : Shrink
section_shrink size = let size' = sub_u32 size 1 in (size', ltb fru_block_sz size')

-- A response with data: the count in its first byte, then the bytes.
unfoldable pub take_bytes : Bool → ℕ → List ℕ → ReadState → Turn
take_bytes access finish bytes s =
    let tmp = if access then get_or bytes 0 0 * 2 else get_or bytes 0 0 in
    if ltb (length bytes) 1 || ltb (length bytes - 1) tmp || ltb s.left tmp
    then returns read_error s
    else (let s' = record s {
      off = u32 (s.off + tmp);
      left = s.left - tmp;
      pos = s.pos + tmp;
      buffer = write_at s.pos (take tmp (drop 1 bytes)) s.buffer;
    } in
        if tmp == 0 && ltb s'.off finish then returns read_ok s' else again s')

module _ (shrink : Shrink) (access : Bool) (id finish : ℕ) (reply : ℕ → List ℕ → Option Rs) where
  -- What is done with an answer.
  unfoldable pub on_reply : Option Rs → ReadState → Turn
  unfolding take_bytes
  on_reply none s = breaks s
  on_reply (some rsp) s =
      if rsp.ccode == 0
      then take_bytes access finish rsp.bytes s
      else (if fru_cc_rq2big rsp.ccode
          then (let size' = shrink s.rqst_size in
              let s' = record s { rqst_size = size'.0 } in if size'.1 then again s' else breaks s')
          else breaks s)

  -- One round: the n-th request and its answer.
  unfoldable pub read_turn : ℕ → ReadState → Turn
  unfolding on_reply
  read_turn n s =
      let count = smaller s.rqst_size (sub_u32 finish s.off) in
      on_reply (reply n (fru_request access id s.off count)) s

  -- The value after the loop.
  abbrev pub loop_ret : ReadState → ReadRet
  loop_ret s = if ltb s.off finish then read_error else read_ok

  -- The loop, from the n-th request on.
  unfoldable pub read_loop : ℕ → ℕ → ReadState → ReadRet × ReadState
  unfolding read_turn
  read_loop zero n s = (read_unfinished, s)
  read_loop (suc fuel) n s = elim (read_turn n s) [
    | returns r s' ↦ (r, s')
    | breaks s' ↦ (loop_ret s', s')
    | again s' ↦ elim (ltb s'.off finish) [
      | true ↦ read_loop fuel (n + 1) s'
      | false ↦ (read_ok, s')
    ]
  ]
