-- ===== src/Lan.antt =====
-- src/plugins/lan/lan.c and auth.c: the interface of IPMI v1.5. The session, the pending requests, and
-- `ipmi_lan_build_cmd`, which builds the packet of a request.
pub mod Nested
pub mod BuildLaws
pub mod EntryLaws
pub mod Receive
pub mod ReceiveLaws
pub mod Hops
pub mod Unwrap
use ipmitool.Common.{
  ℕ, ◌+◌, ◌*◌, List, [], ◌∷◌, ◌++◌, Bool, true, false, not, ◌==◌, ltb, ◌&&◌, ◌||◌, if◌then◌else◌,
  length, take, u8, u32, bit_and, bit_or,
}
use ipmitool.Intf.{Intf}
use ipmitool.Serial.Message.{IpmiRq}
use ipmitool.Lanplus.Session.{le32}
use ipmitool.Lanplus.Request.{bmc_slave_addr, remote_swid, netfn_app, add_csum}

-- The fields of `struct ipmi_session` that a packet depends on; the authcode has 16 bytes, the
-- sequence number and the id are uint32_t.
pub record Session : Type 0 where
  pub active : Bool
  pub authtype : ℕ
  pub in_seq : ℕ
  pub session_id : ℕ
  pub authcode : List ℕ

-- `struct ipmi_rq_entry`, without its copy of the request and its message. The list of the entries
-- is that of lanplus.c, whose links are modelled there; here it is the queue that they represent.
pub record Entry : Type 0 where
  pub rq_seq : ℕ
  pub cmd : ℕ
  pub target_cmd : ℕ
  pub bridging_level : ℕ

-- The two digests over a byte sequence, of OpenSSL or of a copied library.
pub record Digests : Type 0 where
  pub md2 : List ℕ → List ℕ
  pub md5 : List ℕ → List ℕ

-- `ipmi_auth_md5` and `ipmi_auth_md2`, of lan/auth.c, hash the same bytes.
unfoldable pub auth_input : Session → List ℕ → List ℕ
auth_input s msg = s.authcode ++ (le32 s.session_id ++ (msg ++ (le32 s.in_seq ++ s.authcode)))

-- The authcode of an active session: the copied one, unless the type is MD5 (2) or MD2 (1).
unfoldable pub authcode_of : Digests → Session → List ℕ → List ℕ
unfolding auth_input
authcode_of digests s msg =
    if s.authtype == 2
    then digests.md5 (auth_input s msg)
    else if s.authtype == 1
    then digests.md2 (auth_input s msg)
    else s.authcode

-- The bridging level of a new entry; a transit address that is the own one is none.
unfoldable pub new_bridging_level : Intf → Bool → ℕ
new_bridging_level intf bridge_possible =
    let our_address = if intf.my_addr == 0 then bmc_slave_addr else intf.my_addr in
    if intf.target_addr == our_address || not bridge_possible
    then 0
    else if intf.transit_addr == intf.my_addr || intf.transit_addr == 0
    then 1
    else 2

-- The header of a Send Message request at the end of `msg`.
unfoldable pub send_message : List ℕ → ℕ → ℕ → ℕ → ℕ → List ℕ
unfolding add_csum
send_message msg addr rq_addr curr_seq channel =
    add_csum (length msg) (msg ++ addr ∷ netfn_app * 4 ∷ [])
    ++ rq_addr ∷ u8 (curr_seq * 4) ∷ 0x34 ∷ bit_or 0x40 channel ∷ []

-- The message inside, with both its checksums.
unfoldable pub inner_message : List ℕ → Intf → ℕ → IpmiRq → ℕ → List ℕ
unfolding add_csum
inner_message msg intf level req curr_seq =
    let head = add_csum (length msg) (
      msg
      ++ (if level == 0 then bmc_slave_addr else intf.target_addr)
        ∷ bit_or (req.netfn * 4) (bit_and req.lun 3)
        ∷ []) in
    add_csum (length head) (
      head
      ++ (if level == 0 then remote_swid else intf.my_addr)
        ∷ u8 (curr_seq * 4)
        ∷ req.cmd
        ∷ req.bytes)

-- What stands from `msg + mp` on: the checksums of the requests around the message are added last.
unfoldable pub message : Intf → ℕ → IpmiRq → ℕ → List ℕ
unfolding send_message inner_message add_csum
message intf level req curr_seq =
    let outer =
      if level == 0
      then []
      else send_message [] bmc_slave_addr remote_swid curr_seq
          (if level == 1 then intf.target_channel else intf.transit_channel) in
    let middle =
      if level == 2
      then send_message outer intf.transit_addr intf.my_addr curr_seq intf.target_channel
      else outer in
    let inner = inner_message middle intf level req curr_seq in
    let inner' = if level == 2 then add_csum (length outer + 3) inner else inner in
    if level == 0 then inner' else add_csum 3 inner'

-- The RMCP header, the session header, the authcode, the length of the message and the message. The
-- digests are given as many bytes of the message as its length says.
unfoldable pub packet : Digests → Session → ℕ → List ℕ → List ℕ
unfolding authcode_of
packet digests s msg_len msg =
    (6 ∷ 0 ∷ 0xFF ∷ 7 ∷ (if s.active then s.authtype else 0) ∷ [])
    ++ (le32 s.in_seq
        ++ (le32 s.session_id
            ++ ((if s.active && not (s.authtype == 0)
                  then authcode_of digests s (take msg_len msg)
                  else [])
                ++ msg_len ∷ msg)))

-- The size that is allocated for it.
unfoldable pub allocated : Intf → Session → IpmiRq → ℕ
allocated intf s req =
    length req.bytes
    + 29
    + (if s.active && not (s.authtype == 0) then 16 else 0)
    + (if not (intf.transit_addr == intf.my_addr) && not (intf.transit_addr == 0) then 8 else 0)

-- The sequence number of the session, which is 0 for good or never again.
unfoldable pub next_in_seq : ℕ → ℕ
next_in_seq n = if n == 0 then 0 else (let m = u32 (n + 1) in if m == 0 then 1 else m)

unfoldable pub next_curr_seq : Bool → ℕ → ℕ
next_curr_seq is_retry n = let m = if is_retry then n else n + 1 in if ltb m 64 then m else 0

-- The first entry with the two numbers, or else a new one at the end, is changed.
unfoldable pub with_entry : ℕ → ℕ → (Entry → Entry) → List Entry → List Entry
with_entry seq cmd change [] =
    change (record { rq_seq = seq; cmd = cmd; target_cmd = 0; bridging_level = 0 }) ∷ []
with_entry seq cmd change (e ∷ es) =
    let rest = with_entry seq cmd change es in
    if e.rq_seq == seq && e.cmd == cmd then change e ∷ es else e ∷ rest

unfoldable pub bridged_entry : ℕ → ℕ → Entry → Entry
bridged_entry level seq e =
    if level == 0
    then record e { bridging_level = 0; rq_seq = seq }
    else record e { bridging_level = level; rq_seq = seq; target_cmd = e.cmd; cmd = 0x34 }

-- The session, `curr_seq` and the pending requests.
pub record Lan : Type 0 where
  pub session : Session
  pub curr_seq : ℕ
  pub entries : List Entry

-- `ipmi_lan_build_cmd`: the packet and the state after it. `malloc` gives a block.
unfoldable pub build_cmd : Digests → Intf → Bool → IpmiRq → Bool → Lan → List ℕ × Lan
unfolding new_bridging_level message packet next_in_seq next_curr_seq with_entry bridged_entry
build_cmd digests intf bridge_possible req is_retry l =
    let seq = next_curr_seq is_retry l.curr_seq in
    let level = new_bridging_level intf bridge_possible in
    let msg_len = u8 (length req.bytes + 7 + level * 8) in
    (
      packet digests l.session msg_len (message intf level req seq),
      record {
        session = record l.session { in_seq = next_in_seq l.session.in_seq };
        curr_seq = seq;
        entries = with_entry seq req.cmd (bridged_entry level seq) l.entries;
      },
    )
