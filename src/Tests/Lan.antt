-- ===== src/Tests/Lan.antt =====
-- The v1.5 interface on concrete inputs.
use ipmitool.Common.{ℕ, ◌≤◌, ◌≡◌, refl, length, List, [], ◌∷◌, ◌++◌, true, false, arith}
use ipmitool.Intf.{Intf}
use ipmitool.Serial.Message.{IpmiRq}
use ipmitool.Lan.{
  bridged_entry, Session, Entry, Digests, Lan, build_cmd, allocated, new_bridging_level,
  next_curr_seq,
}
use ipmitool.Lan.Nested.{nested}
use ipmitool.Lan.BuildLaws.{Sixteen, read_packet, expected_code, build_cmd-read}
use ipmitool.Lan.EntryLaws.{copies, tries, tries-entries}
use ipmitool.Lan.Receive.{response, overrun, bridges, message_at, poll}
use ipmitool.Lan.ReceiveLaws.{IsHeader}
use ipmitool.Lan.Hops.{Hop}
use ipmitool.Lan.Unwrap.{poll-unwraps, poll-overruns}

abbrev sixteen_of : ℕ → List ℕ
sixteen_of x = x ∷ x ∷ x ∷ x ∷ x ∷ x ∷ x ∷ x ∷ x ∷ x ∷ x ∷ x ∷ x ∷ x ∷ x ∷ x ∷ []

abbrev lan_intf : Intf
lan_intf = record {
  my_addr = 0x20;
  target_addr = 0x82;
  target_channel = 7;
  transit_addr = 0x24;
  transit_channel = 0;
  max_request_data_size = 40;
  max_response_data_size = 40;
}

abbrev md5_session : Session
md5_session = record {
  active = true;
  authtype = 2;
  in_seq = 5;
  session_id = 0x1234;
  authcode = sixteen_of 0x61;
}

-- Digests that take the length of what they hash.
abbrev counting : Digests
counting = record { md2 = λ bytes. sixteen_of 2; md5 = λ bytes. sixteen_of (length bytes) }

abbrev get_device_id : IpmiRq
get_device_id = record { netfn = 6; lun = 0; cmd = 1; bytes = [] }

abbrev lan_state : Lan
lan_state = record { session = md5_session; curr_seq = 8; entries = [] }

counting-Sixteen : Sixteen counting md5_session
counting-Sixteen = record {
  md5_length = λ bytes. refl;
  md2_length = λ bytes. refl;
  code_length = refl;
}

build_cmd-read_example :
    let bytes = (build_cmd counting lan_intf true get_device_id false lan_state).0 in
    let msg =
      nested lan_intf (new_bridging_level lan_intf true) get_device_id (next_curr_seq false 8) in
    ((read_packet bytes).msg ≡ msg)
    × ((read_packet bytes).msg_len ≡ length msg)
    × ((read_packet bytes).code ≡ expected_code counting (sixteen_of 0x61) (read_packet bytes))
    × (length bytes ≤ allocated lan_intf md5_session get_device_id)
unfolding new_bridging_level
build_cmd-read_example =
    build_cmd-read counting lan_intf true get_device_id false lan_state counting-Sixteen
      (omega arith)

-- Three tries of a bridged request leave three entries.
tries-entries_example :
    (tries counting lan_intf true get_device_id 2 lan_state).entries
    ≡ copies 3 (record { rq_seq = 9; cmd = 0x34; target_cmd = 1; bridging_level = 2 })
unfolding new_bridging_level next_curr_seq bridged_entry
tries-entries_example =
    tries-entries counting lan_intf true get_device_id lan_state 2 refl (λ e. cc e)

-- The session header of a response, with its authcode.
abbrev lan_header : List ℕ
lan_header = 6 ∷ 0 ∷ 0xFF ∷ 7 ∷ 2 ∷ 1 ∷ 0 ∷ 0 ∷ 0 ∷ 0x34 ∷ 0x12 ∷ 0 ∷ 0 ∷ sixteen_of 9

lan_header-IsHeader : IsHeader md5_session lan_header
unfolding message_at
lan_header-IsHeader = record {
  long = omega arith;
  class_ipmi = refl;
  no_sol = refl;
  code_length = refl;
}

abbrev first_hop : Hop
first_hop = record {
  rq_addr = 0x81;
  net_fn = 0x1C;
  csum = 0x63;
  rs_addr = 0x20;
  seq = 0x24;
  ccode = 0;
  check = 0x77;
}

abbrev second_hop : Hop
second_hop = record first_hop { seq = 0x28 }

abbrev waiting_entry : Entry
waiting_entry = record { rq_seq = 9; cmd = 0x34; target_cmd = 1; bridging_level = 2 }

poll-unwraps_example :
    poll lan_intf md5_session true 3
      (record {
        bytes =
            lan_header
            ++ 30 ∷ 0x81 ∷ 0x1C ∷ 0x63 ∷ 0x20 ∷ 0x24 ∷ 0x34 ∷ 0 ∷ 0x81 ∷ 0x1C ∷ 0x63 ∷ 0x20 ∷ 0x28
              ∷ 0x34 ∷ 0 ∷ 0x81 ∷ 0x1C ∷ 0x63 ∷ 0x82 ∷ 0x2C ∷ 1 ∷ 0 ∷ 0xAB ∷ 0xCD ∷ 0x11 ∷ 0x77
              ∷ 0x77 ∷ 5 ∷ 6 ∷ [];
        data_len = 56;
      })
      []
      (waiting_entry ∷ [])
    ≡ record {
      polled = response (record {
        rq_addr = 0x81;
        netfn = 7;
        rq_lun = 0;
        rs_addr = 0x82;
        rq_seq = 11;
        rs_lun = 0;
        cmd = 1;
        ccode = 0;
        bytes = 0xAB ∷ 0xCD ∷ [];
      });
      packets = [];
      entries = [];
    }
poll-unwraps_example =
    poll-unwraps lan_intf md5_session true lan_header lan_header-IsHeader (unfold bridges in refl)
      0x81 0x1C 0x63 0x82 0x2C 1 0 0x11 (0xAB ∷ 0xCD ∷ []) 3 (first_hop ∷ second_hop ∷ []) 30
      (5 ∷ 6 ∷ []) [] waiting_entry (refl, (refl, tt))
      (record { level = refl; seq = refl; target = refl; cmd = refl }) (omega arith)

poll-overruns_example :
    (poll lan_intf md5_session true 1
      (record {
        bytes = lan_header ++ 30 ∷ 0x81 ∷ 0x1C ∷ 0x63 ∷ 0x20 ∷ 0x24 ∷ 0x34 ∷ 0 ∷ 0 ∷ 0 ∷ [];
        data_len = 37;
      })
      []
      (waiting_entry ∷ [])).polled
    ≡ overrun
poll-overruns_example =
    poll-overruns lan_intf md5_session true lan_header first_hop 30 37 0 (0 ∷ 0 ∷ []) []
      waiting_entry lan_header-IsHeader (unfold bridges in refl) refl refl refl refl (omega arith)
