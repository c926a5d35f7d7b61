-- ===== src/Tests/Serial.antt =====
-- The serial interface in basic mode on concrete bytes.
use ipmitool.Common.{
  ℕ, ◌+◌, ◌*◌, ◌≤◌, ◌≡◌, refl, List, [], ◌∷◌, ◌++◌, false, some, length, take, drop, arith,
}
use ipmitool.Checksum.{ipmi_csum}
use ipmitool.Intf.{Intf, get_bridging_level}
use ipmitool.Serial.Frame.{frame, send_msg, sent}
use ipmitool.Serial.Parse.{msg_none, msg_done, ParseCtx, Fits, parse_buffer}
use ipmitool.Serial.ParseLaws.{parse_buffer-Fits, CountOk}
use ipmitool.Serial.RoundTrip.{parse-frame}
use ipmitool.Serial.Message.{IpmiRq, Built, build_msg}
use ipmitool.Serial.MessageLaws.{build_msg-IsClosed}

abbrev idle : ParseCtx
idle = record { state = msg_none; msg = []; max_len = 47; escape = false }

abbrev raw : List ℕ
raw = 0x20 ∷ 0xA0 ∷ 0xB0 ∷ 0x1B ∷ 0xAA ∷ []

send_raw :
    send_msg (λ bytes. some (length bytes)) raw
    ≡ sent (0xA0 ∷ 0x20 ∷ 0xAA ∷ 0xB0 ∷ 0xB0 ∷ 0xAA ∷ 0x3B ∷ 0xAA ∷ 0xBA ∷ 0xA5 ∷ [])
unfolding send_msg
send_raw = refl

parse-frame_example : parse_buffer (frame raw ++ 0x55 ∷ []) idle ≡ record {
  count = some (length (frame raw));
  ctx = record { state = msg_done; msg = raw; max_len = 47; escape = false };
}
parse-frame_example = parse-frame raw (0x55 ∷ []) idle (omega arith)

parse_buffer-Fits_example :
    Fits (parse_buffer raw idle).ctx
    × ((parse_buffer raw idle).ctx.max_len ≡ 47)
    × CountOk 0 5 (parse_buffer raw idle).count
parse_buffer-Fits_example = parse_buffer-Fits raw idle (omega arith)

abbrev bridged : Intf
bridged = record {
  my_addr = 0x20;
  target_addr = 0x82;
  target_channel = 0;
  transit_addr = 0x72;
  transit_channel = 7;
  max_request_data_size = 33;
  max_response_data_size = 32;
}

abbrev get_device_id : IpmiRq
get_device_id = record { netfn = 6; lun = 0; cmd = 1; bytes = [] }

build_msg-IsClosed_example :
    (b : Built) × (build_msg false bridged get_device_id 47 5 ≡ some b)
    × (length b.msg ≡ length (get_device_id.bytes) + 7 + get_bridging_level bridged * 8)
    × (length b.msg ≤ 47)
    × (ipmi_csum (take 3 b.msg) ≡ 0)
    × (ipmi_csum (drop 3 b.msg) ≡ 0)
build_msg-IsClosed_example =
    build_msg-IsClosed false bridged get_device_id 47 5 (omega arith) (omega arith)
      (unfold get_bridging_level in omega arith)
