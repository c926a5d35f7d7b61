-- ===== src/Lan/BuildLaws.antt =====
-- src/plugins/lan/lan.c: the packet and the state that `ipmi_lan_build_cmd` leaves.
use ipmitool.Common.{
  ℕ, ◌+◌, ◌*◌, ◌≤◌, ◌<◌, ◌≡◌, inl, inr, refl, Bool-cases, List, [], ◌∷◌, ◌++◌, get_or, take, drop,
  take_middle, drop_middle, take_all, Bool, true, false, not, ◌==◌, ◌&&◌, if◌then◌else◌, length,
  length-append, u8, arith,
}
use ipmitool.Intf.{Intf}
use ipmitool.Serial.Message.{IpmiRq}
use ipmitool.Lan.{
  Session, Digests, auth_input, authcode_of, new_bridging_level, packet, allocated, next_curr_seq,
  Lan, build_cmd,
}
use ipmitool.Lan.Nested.{nested, message_lem, length-nested}

-- A packet as a controller reads it, by its fields.
pub record Read : Type 0 where
  pub authtype : ℕ
  pub seq : List ℕ
  pub id : List ℕ
  pub code : List ℕ
  pub msg_len : ℕ
  pub msg : List ℕ

abbrev pub read_packet : List ℕ → Read
read_packet bytes =
    let authtype = get_or bytes 4 0 in
    let behind = if authtype == 0 then drop 13 bytes else drop 29 bytes in
    record {
      authtype = authtype;
      seq = take 4 (drop 5 bytes);
      id = take 4 (drop 9 bytes);
      code = (if authtype == 0 then [] else take 16 (drop 13 bytes));
      msg_len = get_or behind 0 0;
      msg = drop 1 behind;
    }

-- The authcode that the controller expects, under the password of 16 bytes.
abbrev pub expected_code : Digests → List ℕ → Read → List ℕ
expected_code digests password r =
    let hashed = password ++ (r.id ++ (r.msg ++ (r.seq ++ password))) in
    if r.authtype == 0
    then []
    else if r.authtype == 2
    then digests.md5 hashed
    else if r.authtype == 1
    then digests.md2 hashed
    else password

-- Digests and passwords of 16 bytes.
pub record Sixteen (digests : Digests) (s : Session) : Type 0 where
  pub md5_length : (bytes : List ℕ) → length (digests.md5 bytes) ≡ 16
  pub md2_length : (bytes : List ℕ) → length (digests.md2 bytes) ≡ 16
  pub code_length : length s.authcode ≡ 16

length-authcode_of :
    (digests : Digests) (s : Session) (msg : List ℕ)
    → Sixteen digests s
    → length (authcode_of digests s msg) ≡ 16
unfolding authcode_of
length-authcode_of digests s msg h =
    ground (arith, h.md5_length (auth_input s msg), h.md2_length (auth_input s msg), h.code_length)

both_true : (a b : Bool) → (a && b) ≡ true → (a ≡ true) × (b ≡ true)
both_true true true h = (refl, refl)
both_true true false h = cc
both_true false b h = cc

not-true : (b : Bool) → not b ≡ true → b ≡ false
not-true true h = cc
not-true false h = refl

module _ (digests : Digests) (s : Session) (msg : List ℕ) (sixteen : Sixteen digests s) where
  abbrev Reads : List ℕ → Type 0
  Reads bytes =
      ((read_packet bytes).msg ≡ msg)
      × ((read_packet bytes).msg_len ≡ length msg)
      × ((read_packet bytes).code ≡ expected_code digests s.authcode (read_packet bytes))

  packet-Reads : Reads (packet digests s (length msg) msg)
  unfolding packet authcode_of auth_input
  packet-Reads = elim (Bool-cases (s.active && not (s.authtype == 0))) [
    | inr plain ↦
        let none_sent : ((if s.active then s.authtype else 0) == 0) ≡ true =
          ground (arith, plain) in
        rw (plain, none_sent) (refl, refl, refl)
    | inl with_code ↦
        let parts = both_true s.active (not (s.authtype == 0)) with_code in
        let typed : (s.authtype == 0) ≡ false = not-true (s.authtype == 0) parts.1 in
        let code = authcode_of digests s msg in
        let long = length-authcode_of digests s msg sixteen in
        rw (take_all msg) (
          rw
            (
              with_code,
              parts.0,
              typed,
              take_middle 16 code (length msg ∷ msg) long,
              drop_middle 16 code (length msg ∷ msg) long,
            )
            (refl, refl, refl))
  ]

length-packet :
    (digests : Digests) (s : Session) (msg_len : ℕ) (msg : List ℕ)
    → Sixteen digests s
    → length (packet digests s msg_len msg)
      ≡ length msg + 14 + (if s.active && not (s.authtype == 0) then 16 else 0)
unfolding packet
length-packet digests s msg_len msg sixteen =
    elim (Bool-cases (s.active && not (s.authtype == 0))) [
      | inr plain ↦ rw plain (omega arith)
      | inl with_code ↦
          let code = authcode_of digests s (take msg_len msg) in
          rw with_code (
            omega (
              arith,
              length-append code (msg_len ∷ msg),
              length-authcode_of digests s (take msg_len msg) sixteen,
            ))
    ]

allocated_room :
    (intf : Intf) (bridge_possible : Bool) (s : Session) (req : IpmiRq)
    → length req.bytes
        + 21
        + new_bridging_level intf bridge_possible * 8
        + (if s.active && not (s.authtype == 0) then 16 else 0)
      ≤ allocated intf s req
unfolding allocated new_bridging_level
allocated_room intf bridge_possible s req = ground arith

-- At every bridging level, for a request whose message is shorter than 256 bytes, a controller that
-- reads the packet of `ipmi_lan_build_cmd` finds the request, nested in its Send Message requests
-- with all their checksums; the length before it is its own; and the authcode is the one that the
-- controller computes from what it read, for each type of authentication. The packet fits the
-- block that is allocated for it.
pub build_cmd-read :
    (digests : Digests) (intf : Intf) (bridge_possible : Bool) (req : IpmiRq) (is_retry : Bool)
    (l : Lan)
    → Sixteen digests l.session
    → length req.bytes + 7 + new_bridging_level intf bridge_possible * 8 < 256
    → let bytes = (build_cmd digests intf bridge_possible req is_retry l).0 in
      let level = new_bridging_level intf bridge_possible in
      let msg = nested intf level req (next_curr_seq is_retry l.curr_seq) in
      ((read_packet bytes).msg ≡ msg)
      × ((read_packet bytes).msg_len ≡ length msg)
      × ((read_packet bytes).code ≡ expected_code digests l.session.authcode (read_packet bytes))
      × (length bytes ≤ allocated intf l.session req)
unfolding build_cmd
build_cmd-read digests intf bridge_possible req is_retry l sixteen short =
    let seq = next_curr_seq is_retry l.curr_seq in
    let level = new_bridging_level intf bridge_possible in
    let msg = nested intf level req seq in
    let len = length-nested intf bridge_possible req seq in
    let exact : u8 (length req.bytes + 7 + level * 8) ≡ length msg = omega (arith, len, short) in
    let reads = packet-Reads digests l.session msg sixteen in
    let size = length-packet digests l.session (length msg) msg sixteen in
    rw (exact, message_lem intf bridge_possible req seq)
      (
        reads.0,
        reads.1,
        reads.2,
        omega (arith, size, len, allocated_room intf bridge_possible l.session req),
      )
