-- ===== src/Tests/Receive.antt =====
-- Receiving on the serial interface: messages in pieces, responses, and the end of the buffer.
use ipmitool.Common.{
  none, ℕ, ◌-◌, ◌≤◌, ◌≡◌, ◌↔◌, refl, List, [], ◌∷◌, ◌++◌, false, some, length, arith,
}
use ipmitool.Intf.{Intf}
use ipmitool.Intf.Sizes.{get_max_request_data_size}
use ipmitool.Serial.Frame.{frame, stuff, stuff_byte, get_escaped_char}
use ipmitool.Serial.Parse.{msg_none, ParseCtx, parse_buffer}
use ipmitool.Serial.Message.{IpmiRq, Built, build_msg, RequestCtx, max_msg_size}
use ipmitool.Serial.Response.{check_response}
use ipmitool.Serial.ResponseLaws.{IsRequest, ipmb_response, check_response_exact}
use ipmitool.Serial.Receive.{
  ready, RecvCtx, received, bad_count, read_count, consume, size_mod, recv_loop, recv_msg,
}
use ipmitool.Serial.ReceiveLaws.{IsEmpty, flat, ready_all, recv_msg-frame}
use ipmitool.Serial.Overrun.{recv_loop-bad_count}
use ipmitool.Serial.Setup.{setup, setup-build_msg}

abbrev device_id : RequestCtx
device_id = record { rs_sa = 0x82; net_fn = 0x18; rq_sa = 0x20; rq_seq = 0x15; cmd = 0x01 }

device_id_is : IsRequest device_id 3 0 5 1
device_id_is = record {
  net_fn_is = refl;
  rq_seq_is = refl;
  netfn_lt = omega arith;
  rs_lun_lt = omega arith;
  seq_lt = omega arith;
  rq_lun_lt = omega arith;
}

check_response_exact_example :
    (check_response device_id (0x20 ∷ 0x1D ∷ 0xC3 ∷ 0x82 ∷ 0x14 ∷ 0x01 ∷ 0x00 ∷ 0x69 ∷ [])
      ≡ some (0x00 ∷ []))
    ↔ (0x20 ∷ 0x1D ∷ 0xC3 ∷ 0x82 ∷ 0x14 ∷ 0x01 ∷ 0x00 ∷ 0x69 ∷ []
        ≡ ipmb_response device_id 3 0 5 1 (0x00 ∷ []))
check_response_exact_example =
    check_response_exact device_id_is (0x20 ∷ 0x1D ∷ 0xC3 ∷ 0x82 ∷ 0x14 ∷ 0x01 ∷ 0x00 ∷ 0x69 ∷ [])
      (0x00 ∷ [])
      (
        omega arith,
        (
          omega arith,
          (
            omega arith,
            (omega arith, (omega arith, (omega arith, (omega arith, (omega arith, tt))))),
          ),
        ),
      )
      (omega arith)

-- A buffer of twelve bytes; the message 20 B0 comes in two reads.
abbrev twelve : RecvCtx
twelve = record {
  buffer = 0 ∷ 0 ∷ 0 ∷ 0 ∷ 0 ∷ 0 ∷ 0 ∷ 0 ∷ 0 ∷ 0 ∷ 0 ∷ 0 ∷ [];
  buffer_size = 0;
  max_buffer_size = 12;
}

twelve_is : IsEmpty twelve
twelve_is = record { size_zero = refl; whole = refl; fits_word = omega arith }

abbrev reads : List (List ℕ)
reads = (0x11 ∷ 0xA0 ∷ 0x20 ∷ 0xAA ∷ []) ∷ (0xB0 ∷ 0xA5 ∷ 0x77 ∷ []) ∷ []

reads_are : flat reads ≡ (0x11 ∷ []) ++ (frame (0x20 ∷ 0xA0 ∷ []) ++ 0x77 ∷ [])
unfolding frame stuff stuff_byte get_escaped_char
reads_are = refl

recv_msg-frame_example : (recv_msg (ready_all reads) twelve 40).result ≡ received (0x20 ∷ 0xA0 ∷ [])
recv_msg-frame_example =
    recv_msg-frame reads (0x11 ∷ []) (0x20 ∷ 0xA0 ∷ []) (0x77 ∷ []) twelve 40 twelve_is
      (omega arith, (omega arith, tt)) reads_are ((λ e. cc e), tt) (omega arith)

-- The message buffer is full with one byte, the receive buffer with three.
abbrev one_byte : ParseCtx
one_byte = record { state = msg_none; msg = []; max_len = 1; escape = false }

abbrev three : RecvCtx
three = record { buffer = 0 ∷ 0 ∷ 0 ∷ []; buffer_size = 0; max_buffer_size = 3 }

three_is : IsEmpty three
three_is = record { size_zero = refl; whole = refl; fits_word = omega arith }

recv_loop-bad_count_example :
    (read_count (consume none (record three { buffer = 0xA0 ∷ 1 ∷ 2 ∷ []; buffer_size = 3 }))
      ≡ size_mod - 1)
    × ((recv_loop (ready (0xA0 ∷ 1 ∷ 2 ∷ []) ∷ ready (0xA5 ∷ []) ∷ []) one_byte three).result
        ≡ bad_count)
unfolding parse_buffer
recv_loop-bad_count_example =
    recv_loop-bad_count (0xA0 ∷ 1 ∷ 2 ∷ []) (0xA5 ∷ []) [] one_byte three three_is refl refl refl

abbrev direct : Intf
direct = record {
  my_addr = 0x20;
  target_addr = 0x20;
  target_channel = 0;
  transit_addr = 0;
  transit_channel = 0;
  max_request_data_size = 0;
  max_response_data_size = 0;
}

abbrev get_sel_info : IpmiRq
get_sel_info = record { netfn = 0x0A; lun = 0; cmd = 0x40; bytes = 1 ∷ 2 ∷ [] }

setup-build_msg_example :
    (b : Built) × (build_msg false (setup direct) get_sel_info max_msg_size 9 ≡ some b)
    × (length b.msg ≤ max_msg_size)
unfolding get_max_request_data_size setup
setup-build_msg_example =
    setup-build_msg false direct get_sel_info 9 (omega arith) (omega arith) (omega arith)
