-- ===== src/Tests/Terminal.antt =====
-- Runs of the terminal mode of the serial interface.
use ipmitool.Common.{ℕ, suc, ◌≡◌, refl, List, [], ◌∷◌, ◌++◌, true, false, arith, zero}
use ipmitool.Intf.{Intf, get_bridging_level}
use ipmitool.Serial.Message.{IpmiRq, IpmbHdr, hdr_bytes, net_fn_lun}
use ipmitool.Serial.Terminal.{
  TermEvent, got, silent, msg_text, is_answer, read_line, read_message, ends_message, parse_bytes,
  parse_response, same_text, recv_response, term_received, term_failed, term_overrun, is_space,
}
use ipmitool.Serial.Terminal.TextLaws.{arrive}
use ipmitool.Serial.Terminal.WaitLaws.{left_eol, all_text, Fits}
use ipmitool.Serial.Terminal.Message.{term_alloc_seq}
use ipmitool.Serial.Terminal.Command.{answered, negative_copy, send_cmd, enclosed, checked, respond}
use ipmitool.Serial.Terminal.CommandLaws.{Foreign, answer_to, script}
use ipmitool.Serial.Terminal.SendLaws.{
  nth_seq, after_silence, outer_awaited, awaited, send_cmd-answered,
}
use ipmitool.Serial.Terminal.EnclosedLaws.{enclosed_response, send_cmd-enclosed}

-- `[1c08]` and its end of line.
foreign_rsp_text : msg_text (0x1C ∷ 8 ∷ []) ≡ 91 ∷ 49 ∷ 99 ∷ 48 ∷ 56 ∷ 93 ∷ 13 ∷ 10 ∷ []
unfolding msg_text
foreign_rsp_text = refl

-- Get Device ID behind one bridge, the first try lost: the next sequence number is 4.
abbrev bridge : Intf
bridge = record {
  my_addr = 0x20;
  target_addr = 0x72;
  target_channel = 7;
  transit_addr = 0;
  transit_channel = 0;
  max_request_data_size = 0;
  max_response_data_size = 0;
}

abbrev get_device_id : IpmiRq
get_device_id = record { netfn = 6; lun = 0; cmd = 1; bytes = [] }

abbrev foreign_rsp : List ℕ
foreign_rsp = 0x1C ∷ 8 ∷ 1 ∷ 0 ∷ []

foreign_rsp-Fits : Fits 256 foreign_rsp
foreign_rsp-Fits = omega arith

foreign_rsp_outer : Foreign (outer_awaited (nth_seq 1 2)) (foreign_rsp ∷ [])
unfolding is_answer term_alloc_seq
foreign_rsp_outer = ((foreign_rsp-Fits, refl), tt)

foreign_rsp_inner : Foreign (awaited 1 bridge get_device_id (nth_seq 1 2)) (foreign_rsp ∷ [])
unfolding is_answer term_alloc_seq net_fn_lun
foreign_rsp_inner = ((foreign_rsp-Fits, refl), tt)

send_cmd-answered_example :
    send_cmd false false 5 bridge get_device_id 3 2 [] (
      after_silence 1 (
        arrive
          (left_eol true
            ++ script 1
                (foreign_rsp ∷ [])
                (answer_to 0x18 (nth_seq 1 2) 0x34 (0 ∷ []))
                (foreign_rsp ∷ [])
                (answer_to (net_fn_lun get_device_id) (nth_seq 1 2) 1 (0 ∷ 0xAB ∷ [])))
          (silent ∷ [])))
    ≡ record { result = answered 0 (0xAB ∷ []); seq = nth_seq 1 2; events = got 10 ∷ silent ∷ [] }
unfolding get_bridging_level
send_cmd-answered_example =
    send_cmd-answered false true 5 1 1 3 2 0 bridge get_device_id (0xAB ∷ []) [] (foreign_rsp ∷ [])
      (foreign_rsp ∷ []) (silent ∷ []) refl (omega arith) (omega arith) (omega arith) (omega arith)
      (omega arith) foreign_rsp_outer foreign_rsp_inner (omega arith)

-- The same request behind two bridges, answered in one response.
abbrev two_bridges : Intf
two_bridges = record bridge { transit_addr = 0x82; transit_channel = 0 }

abbrev hdr_at : ℕ → IpmbHdr
hdr_at addr = record {
  rs_sa = 0x20;
  net_fn = 0x1C;
  csum1 = 0xC4;
  rq_sa = addr;
  rq_seq = 16;
  cmd = 1;
}

send_cmd-enclosed_example :
    send_cmd false false 5 two_bridges get_device_id 3 2 [] (
      after_silence 1 (
        arrive
          (left_eol false
            ++ all_text
                (foreign_rsp ∷ [])
                (enclosed_response 2 (nth_seq 1 2) (hdr_at 0x82) (hdr_at 0x72) 5 6 (0 ∷ 0xAB ∷ [])))
          (silent ∷ [])))
    ≡ record { result = answered 0 (0xAB ∷ []); seq = nth_seq 1 2; events = got 10 ∷ silent ∷ [] }
unfolding get_bridging_level
send_cmd-enclosed_example =
    send_cmd-enclosed false false 5 2 1 3 2 0 5 6 two_bridges get_device_id (hdr_at 0x82)
      (hdr_at 0x72) (0xAB ∷ []) [] (foreign_rsp ∷ []) (silent ∷ []) refl (omega arith) (omega arith)
      (omega arith) (omega arith) (omega arith) foreign_rsp_outer (omega arith)

-- A response through one bridge that ends with its headers leaves a length of -1.
headers_alone : enclosed 1 (0 ∷ (hdr_bytes (hdr_at 0x72) ++ 5 ∷ [])) ≡ negative_copy
unfolding enclosed checked respond
headers_alone = refl

-- `ERR ` alone is the text of an error; `ERR D4` is refused.
err_alone : parse_response false 256 (69 ∷ 82 ∷ 82 ∷ 32 ∷ []) ≡ term_received []
unfolding parse_response same_text
err_alone = refl

err_with_code : parse_response false 256 (69 ∷ 82 ∷ 82 ∷ 32 ∷ 68 ∷ 52 ∷ []) ≡ term_failed
unfolding parse_response same_text parse_bytes
err_with_code = refl

-- A digit without a partner is dropped.
odd_digits : parse_response false 256 (49 ∷ 99 ∷ 32 ∷ 56 ∷ []) ≡ term_received (0x1C ∷ [])
unfolding parse_response same_text parse_bytes is_space
odd_digits = refl

-- A line that fills the array, and is no message, makes the next one begin behind it.
abbrev filled : ℕ → List TermEvent → List TermEvent
filled zero events = events
filled (suc n) events = got 65 ∷ filled n events

line_behind_array :
    (recv_response false 256 (filled 767 (got 10 ∷ silent ∷ []))).result ≡ term_overrun
unfolding recv_response read_message read_line ends_message
line_behind_array = refl
