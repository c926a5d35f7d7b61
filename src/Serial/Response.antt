-- ===== src/Serial/Response.antt =====
-- serial_basic.c: how `serial_bm_wait_response` tests one received message and takes the
-- completion code and the data out of it.
use ipmitool.Common.{
  ℕ, ◌-◌, List, Option, none, some, not, ◌==◌, ltb, ◌&&◌, ◌||◌, if◌then◌else◌, length, get_or, take,
  drop, bit_and, bit_or, Bool,
}
use ipmitool.Checksum.{ipmi_csum}
use ipmitool.Serial.Message.{RequestCtx}

-- The LUNs of requester and responder are swapped. `& ~3` on a byte is `& 0xFC`.
unfoldable pub response_net_fn : RequestCtx → ℕ
response_net_fn ctx = bit_or (bit_and (bit_or ctx.net_fn 4) 0xFC) (bit_and ctx.rq_seq 3)

unfoldable pub response_rq_seq : RequestCtx → ℕ
response_rq_seq ctx = bit_or (bit_and ctx.rq_seq 0xFC) (bit_and ctx.net_fn 3)

unfoldable pub is_waited : RequestCtx → List ℕ → Bool
is_waited ctx msg =
    get_or msg 0 0 == ctx.rq_sa
    && get_or msg 1 0 == response_net_fn ctx
    && get_or msg 3 0 == ctx.rs_sa
    && get_or msg 4 0 == response_rq_seq ctx
    && get_or msg 5 0 == ctx.cmd

-- One turn of the loop: `none` is `continue`, and `some` the completion code with the data.
unfoldable pub check_response : RequestCtx → List ℕ → Option (List ℕ)
check_response ctx msg =
    if ltb (length msg) 8
    then none
    else if not (ipmi_csum (take 3 msg) == 0) || not (ipmi_csum (drop 3 msg) == 0)
    then none
    else if is_waited ctx msg
    then some (take (length msg - 7) (drop 6 msg))
    else none
