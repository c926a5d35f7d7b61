-- ===== src/Lan/ReceiveLaws.antt =====
-- src/plugins/lan/lan.c: the responses that `ipmi_lan_poll_recv` takes out of those around them.
use ipmitool.Common.{
  get_or-before, get_or-behind, ℕ, ◌+◌, ◌-◌, ◌/◌, ◌%◌, ◌≤◌, ◌<◌, ◌≡◌, refl, sym, ap, ◌∙◌, List, [],
  ◌∷◌, ◌++◌, Bool, false, ◌==◌, length, length-append, get_or, take, drop, take_middle, drop_middle,
  append_assoc, u8, u32, arith,
}
use ipmitool.Intf.{Intf}
use ipmitool.Lanplus.Session.{read32}
use ipmitool.Fru.Slices.{slice, write_at}
use ipmitool.Lan.{Session, Entry}
use ipmitool.Lan.Receive.{
  Packet, Response, lookup_entry, read_response, message_at, unwrapped, on_found, on_packet,
}

-- The parts of a packet: what stands before the length of the message, the length, seven bytes of
-- an outer response, the inner one, and the rest.
module _ (x len : ℕ) (pre outer inner rest : List ℕ) (at : length pre ≡ x)
    (seven : length outer ≡ 7) where
  abbrev pub array : List ℕ
  array = pre ++ len ∷ (outer ++ (inner ++ rest))

  abbrev pub around : Packet
  around = record { bytes = array; data_len = x + 9 + length inner }

  pub slice-inner : slice (x + 8) (length inner) array ≡ inner
  slice-inner =
      let head = pre ++ len ∷ outer in
      let size : length head ≡ x + 8 = omega (arith, length-append pre (len ∷ outer), at, seven) in
      let whole : array ≡ head ++ (inner ++ rest) = sym (append_assoc pre (len ∷ outer) _) in
      ap (λ (t : List ℕ). take (length inner) (drop (x + 8) t)) whole
      ∙ ap (take (length inner)) (drop_middle (x + 8) head (inner ++ rest) size)
      ∙ take_middle (length inner) inner rest refl

  abbrev pub left_over : List ℕ
  left_over = drop (x + 1 + length inner) array

  moved_lem : write_at (x + 1) inner array ≡ pre ++ len ∷ (inner ++ left_over)
  moved_lem =
      let head = pre ++ len ∷ [] in
      let size : length head ≡ x + 1 = omega (arith, length-append pre (len ∷ []), at) in
      let whole : array ≡ head ++ (outer ++ (inner ++ rest)) =
        sym (append_assoc pre (len ∷ []) (outer ++ (inner ++ rest))) in
      ap (λ (t : List ℕ). take (x + 1) t ++ (inner ++ left_over)) whole
      ∙ ap (λ (t : List ℕ). t ++ (inner ++ left_over)) (take_middle (x + 1) head _ size)
      ∙ append_assoc pre (len ∷ []) (inner ++ left_over)

  pub unwrapped_lem : unwrapped around x ≡ record {
    bytes = pre ++ u8 (len + 248) ∷ (inner ++ left_over);
    data_len = x + 1 + length inner;
  }
  unfolding unwrapped
  unwrapped_lem =
      let count : x + 9 + length inner - (x + 8) - 1 ≡ length inner = omega arith in
      let less : x + 9 + length inner - 8 ≡ x + 1 + length inner = omega arith in
      let head = pre ++ len ∷ [] in
      let size : length head ≡ x + 1 = omega (arith, length-append pre (len ∷ []), at) in
      let zero_more : x + 0 ≡ x = omega arith in
      let length_at : get_or array x 0 ≡ len =
        ap (λ (k : ℕ). get_or array k 0) (sym zero_more)
        ∙ get_or-behind x 0 0 pre (len ∷ (outer ++ (inner ++ rest))) at in
      let before : take x (pre ++ len ∷ (inner ++ left_over)) ≡ pre =
        take_middle x pre (len ∷ (inner ++ left_over)) at in
      let behind : drop (x + 1) (pre ++ len ∷ (inner ++ left_over)) ≡ inner ++ left_over =
        ap (drop (x + 1)) (sym (append_assoc pre (len ∷ []) (inner ++ left_over)))
        ∙ drop_middle (x + 1) head (inner ++ left_over) size in
      rw (count, slice-inner, moved_lem, length_at, before, behind, less) refl

-- The packet up to the length of its message: of class IPMI, not of serial over LAN, and with an
-- authcode where the session has one.
pub record IsHeader (s : Session) (pre : List ℕ) : Type 0 where
  pub long : 13 ≤ length pre
  pub class_ipmi : get_or pre 3 0 ≡ 7
  pub no_sol : (read32 pre 9 == u32 (s.session_id + 0x10000000)) ≡ false
  pub code_length : message_at s pre ≡ length pre

abbrev pub fields : ℕ → ℕ → ℕ → ℕ → ℕ → ℕ → Response
fields rq_addr netfn rs_addr seq cmd ccode = record {
  rq_addr = rq_addr;
  netfn = netfn / 4;
  rq_lun = netfn % 4;
  rs_addr = rs_addr;
  rq_seq = seq / 4;
  rs_lun = seq % 4;
  cmd = cmd;
  ccode = ccode;
  bytes = [];
}

module _ (a n c b q m cc len : ℕ) (pre rest : List ℕ) where
  abbrev pub message_array : List ℕ
  message_array = pre ++ len ∷ a ∷ n ∷ c ∷ b ∷ q ∷ m ∷ cc ∷ rest

  pub read_response_lem : read_response message_array (length pre) ≡ fields a n b q m cc
  unfolding read_response
  read_response_lem =
      let ys = len ∷ a ∷ n ∷ c ∷ b ∷ q ∷ m ∷ cc ∷ rest in
      let x = length pre in
      let e1 : get_or message_array (x + 1) 0 ≡ a = get_or-behind x 1 0 pre ys refl in
      let e2 : get_or message_array (x + 2) 0 ≡ n = get_or-behind x 2 0 pre ys refl in
      let e4 : get_or message_array (x + 4) 0 ≡ b = get_or-behind x 4 0 pre ys refl in
      let e5 : get_or message_array (x + 5) 0 ≡ q = get_or-behind x 5 0 pre ys refl in
      let e6 : get_or message_array (x + 6) 0 ≡ m = get_or-behind x 6 0 pre ys refl in
      let e7 : get_or message_array (x + 7) 0 ≡ cc = get_or-behind x 7 0 pre ys refl in
      rw (e1, e2, e4, e5, e6, e7) refl

module _ (intf : Intf) (s : Session) (bridge_possible : Bool) (pre : List ℕ)
    (header : IsHeader s pre) where
  pub on_packet_lem :
      (ys : List ℕ) (data_len : ℕ) (entries : List Entry)
      → let p : Packet = record { bytes = pre ++ ys; data_len = data_len } in
        let r = read_response (pre ++ ys) (length pre) in
        on_packet intf s bridge_possible p entries
        ≡ on_found intf s bridge_possible p
            (length pre)
            r
            entries
            (lookup_entry r.rq_seq r.cmd entries)
  unfolding on_packet message_at
  on_packet_lem ys data_len entries =
      let same : (i : ℕ) → i < 13 → get_or (pre ++ ys) i 0 ≡ get_or pre i 0 =
        λ i h. get_or-before i 0 pre ys (omega (arith, h, header.long)) in
      let e3 : get_or (pre ++ ys) 3 0 ≡ 7 = same 3 (omega arith) ∙ header.class_ipmi in
      let e4 = same 4 (omega arith) in
      let e9 = same 9 (omega arith) in
      let e10 = same 10 (omega arith) in
      let e11 = same 11 (omega arith) in
      let e12 = same 12 (omega arith) in
      rw (e3, e4, e9, e10, e11, e12, header.no_sol, header.code_length) refl
