-- ===== src/Lan/Receive.antt =====
-- src/plugins/lan/lan.c: `ipmi_lan_poll_recv`, which waits for the response to a pending request and
-- takes it out of the responses to the Send Message requests around it.
use ipmitool.Common.{
  ℕ, zero, suc, ◌+◌, ◌-◌, ◌/◌, ◌%◌, List, [], ◌∷◌, ◌++◌, Option, none, some, Bool, not, ◌==◌, ltb,
  ◌&&◌, ◌||◌, if◌then◌else◌, get_or, take, drop, u8, u32,
}
use ipmitool.Intf.{Intf}
use ipmitool.Lanplus.Session.{read32}
use ipmitool.Lanplus.Request.{bmc_slave_addr}
use ipmitool.Fru.Slices.{slice, write_at}
use ipmitool.Lan.{Session, Entry}

-- What `ipmi_lan_recv_packet` gives: the array with the packet, whose bytes behind the packet are
-- those of earlier ones, and the length of the packet.
pub record Packet : Type 0 where
  pub bytes : List ℕ
  pub data_len : ℕ

-- The fields of a response, its completion code and its data.
pub record Response : Type 0 where
  pub rq_addr : ℕ
  pub netfn : ℕ
  pub rq_lun : ℕ
  pub rs_addr : ℕ
  pub rq_seq : ℕ
  pub rs_lun : ℕ
  pub cmd : ℕ
  pub ccode : ℕ
  pub bytes : List ℕ

-- NULL; a response; a packet of the ping or of serial over LAN, which is returned as well; or a
-- `memmove` of a length below 0. The last is without fuel.
pub data Polled : Type 0 where
  nothing pong sol overrun out_of_fuel : Polled
  response : Response → Polled

-- The state after it: the packets still to come, and the pending requests.
pub record After : Type 0 where
  pub polled : Polled
  pub packets : List Packet
  pub entries : List Entry

unfoldable pub is_entry : ℕ → ℕ → Entry → Bool
is_entry seq cmd e = e.rq_seq == seq && e.cmd == cmd

unfoldable pub lookup_entry : ℕ → ℕ → List Entry → Option Entry
unfolding is_entry
lookup_entry seq cmd [] = none
lookup_entry seq cmd (e ∷ es) = if is_entry seq cmd e then some e else lookup_entry seq cmd es

unfoldable pub change_entry : ℕ → ℕ → Entry → List Entry → List Entry
unfolding is_entry
change_entry seq cmd e' [] = []
change_entry seq cmd e' (e ∷ es) =
    let rest = change_entry seq cmd e' es in if is_entry seq cmd e then e' ∷ es else e ∷ rest

unfoldable pub remove_entry : ℕ → ℕ → List Entry → List Entry
unfolding is_entry
remove_entry seq cmd [] = []
remove_entry seq cmd (e ∷ es) =
    let rest = remove_entry seq cmd es in if is_entry seq cmd e then es else e ∷ rest

-- The fields from the length of the message at `x` on; the data are filled in at the end.
unfoldable pub read_response : List ℕ → ℕ → Response
read_response bytes x = record {
  rq_addr = get_or bytes (x + 1) 0;
  netfn = get_or bytes (x + 2) 0 / 4;
  rq_lun = get_or bytes (x + 2) 0 % 4;
  rs_addr = get_or bytes (x + 4) 0;
  rq_seq = get_or bytes (x + 5) 0 / 4;
  rs_lun = get_or bytes (x + 5) 0 % 4;
  cmd = get_or bytes (x + 6) 0;
  ccode = get_or bytes (x + 7) 0;
  bytes = [];
}

-- The data behind the fields, without the checksum; a packet that ends before them stays as it is.
unfoldable pub response_data : Packet → ℕ → List ℕ
response_data p x =
    if ltb (x + 8) p.data_len
    then slice (x + 8) (p.data_len - (x + 8) - 1) p.bytes
    else take p.data_len p.bytes

-- The offset of the length of the message.
unfoldable pub message_at : Session → List ℕ → ℕ
message_at s bytes =
    if s.active && (not (get_or bytes 4 0 == 0) || not (s.authtype == 0)) then 29 else 13

-- The inner response is moved over the outer one, whose checksum is not moved.
unfoldable pub unwrapped : Packet → ℕ → Packet
unwrapped p x =
    let moved = write_at (x + 1) (slice (x + 8) (p.data_len - (x + 8) - 1) p.bytes) p.bytes in
    record {
      bytes = take x moved ++ u8 (get_or p.bytes x 0 + 248) ∷ drop (x + 1) moved;
      data_len = p.data_len - 8;
    }

-- The entry when one Send Message request of it is answered; `cmd` is that of its request when it
-- was the last.
unfoldable pub one_less : Entry → Entry
one_less e =
    let level = e.bridging_level - 1 in
    record e { bridging_level = level; cmd = (if level == 0 then e.target_cmd else e.cmd) }

-- What a packet comes to: the end; waiting for the next packet, with the entries if it comes and if
-- it does not; or the same loop with the packet that was inside.
pub data Step : Type 0 where
  ends : Polled → List Entry → Step
  waits : List Entry → List Entry → Step
  again : Packet → List Entry → Step

module _ (intf : Intf) (s : Session) (bridge_possible : Bool) where
  unfoldable pub bridges : Bool
  bridges =
      let our_address = if intf.my_addr == 0 then bmc_slave_addr else intf.my_addr in
      not (intf.target_addr == our_address) && bridge_possible

  -- The response to a Send Message request.
  unfoldable pub on_send_message : Packet → ℕ → Response → Entry → List Entry → Step
  unfolding one_less unwrapped
  on_send_message p x r e entries =
      let e' = one_less e in
      let changed = change_entry r.rq_seq r.cmd e' entries in
      let removed = remove_entry e'.rq_seq e'.cmd changed in
      if p.data_len == x + 9
      then (if r.ccode == 0 then waits changed removed else ends nothing removed)
      else if ltb p.data_len (x + 9)
      then ends overrun changed
      else (let p' = unwrapped p x in
          again p' (
            change_entry r.rq_seq r.cmd (record e' { rq_seq = get_or p'.bytes (x + 5) 0 / 4 })
              entries))

  unfoldable pub on_found : Packet → ℕ → Response → List Entry → Option Entry → Step
  unfolding bridges on_send_message
  on_found p x r entries none = waits entries entries
  on_found p x r entries (some e) =
      if bridges && (not (e.bridging_level == 0) && (r.netfn == 7 && r.cmd == 0x34))
      then on_send_message p x r e entries
      else ends (response (record r { bytes = response_data p x }))
          (remove_entry r.rq_seq r.cmd entries)

  unfoldable pub on_packet : Packet → List Entry → Step
  unfolding on_found message_at read_response response_data
  on_packet p entries =
      let class = get_or p.bytes 3 0 in
      let x = message_at s p.bytes in
      let r = read_response p.bytes x in
      if class == 6
      then ends (if ltb 127 (get_or p.bytes 20 0) then pong else nothing) entries
      else if not (class == 7)
      then waits entries entries
      else if read32 p.bytes 9 == u32 (s.session_id + 0x10000000)
      then ends sol entries
      else on_found p x r entries (lookup_entry r.rq_seq r.cmd entries)

  -- The loop, from a packet on, over the packets to come.
  unfoldable pub poll : ℕ → Packet → List Packet → List Entry → After
  unfolding on_packet
  poll zero p packets entries = record {
    polled = out_of_fuel;
    packets = packets;
    entries = entries;
  }
  poll (suc fuel) p packets entries = elim (on_packet p entries) [
    | ends polled entries' ↦ record { polled = polled; packets = packets; entries = entries' }
    | again p' entries' ↦ poll fuel p' packets entries'
    | waits entries' given_up ↦ elim packets [
      | [] ↦ record { polled = nothing; packets = []; entries = given_up }
      | next ∷ rest ↦ poll fuel next rest entries'
    ]
  ]
