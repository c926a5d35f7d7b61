-- ===== src/Lan/Unwrap.antt =====
-- src/plugins/lan/lan.c: the response to a bridged request, which comes within the responses to the
-- Send Message requests around it, as `ipmi_lan_poll_recv` reads it.
use ipmitool.Common.{
  get_or-before, get_or-behind, ℕ, zero, suc, ◌+◌, ◌-◌, ◌/◌, ◌≤◌, ◌<◌, ◌≡◌, refl, sym, ap, ap₂, ◌∙◌,
  List, [], ◌∷◌, ◌++◌, All, Bool, true, false, ◌==◌, ltb, lt→ltb, length, length-append, get_or,
  take, drop_middle, take_middle, append_assoc, u8, arith,
}
use ipmitool.Intf.{Intf}
use ipmitool.Fru.Slices.{slice}
use ipmitool.Lan.{Session, Entry}
use ipmitool.Lan.Receive.{
  Packet, Response, overrun, response, lookup_entry, response_data, unwrapped, one_less, ends,
  again, bridges, on_found, on_packet, poll,
}
use ipmitool.Lan.ReceiveLaws.{
  left_over, unwrapped_lem, around, IsHeader, fields, read_response_lem, on_packet_lem,
}
use ipmitool.Lan.Hops.{
  found_direct, found_hop, found_short, Hop, hop_bytes, wrap, waited_cmd, IsAppResponse,
  is_entry_lem,
}

module _ (intf : Intf) (s : Session) (bridge_possible : Bool) (pre : List ℕ)
    (header : IsHeader s pre) (bridged : bridges intf s bridge_possible ≡ true)
    (a n c b q m cc ck : ℕ) (content : List ℕ) where
  abbrev inner : List ℕ
  inner = a ∷ n ∷ c ∷ b ∷ q ∷ m ∷ cc ∷ (content ++ ck ∷ [])

  abbrev pub packet_of : List Hop → ℕ → List ℕ → Packet
  packet_of hops len stale = record {
    bytes = pre ++ len ∷ (wrap hops inner ++ stale);
    data_len = length pre + 1 + length (wrap hops inner);
  }

  -- The entry of a request that is still in these Send Message requests.
  pub record Awaits (hops : List Hop) (e : Entry) : Type 0 where
    pub level : e.bridging_level ≡ length hops
    pub seq : e.rq_seq ≡ get_or (wrap hops inner) 4 0 / 4
    pub target : e.target_cmd ≡ m
    pub cmd : e.cmd ≡ waited_cmd m hops

  abbrev found_response : Response
  found_response = record (fields a n b q m cc) { bytes = content }

  wrap_long : (hops : List Hop) → 5 ≤ length (wrap hops inner)
  wrap_long [] = omega arith
  wrap_long (h ∷ hs) = omega arith

  direct_data :
      (len : ℕ) (stale : List ℕ) → response_data (packet_of [] len stale) (length pre) ≡ content
  unfolding response_data
  direct_data len stale =
      let x = length pre in
      let head = pre ++ len ∷ a ∷ n ∷ c ∷ b ∷ q ∷ m ∷ cc ∷ [] in
      let size : length head ≡ x + 8 =
        omega (arith, length-append pre (len ∷ a ∷ n ∷ c ∷ b ∷ q ∷ m ∷ cc ∷ [])) in
      let longer = length-append content (ck ∷ []) in
      let more : ltb (x + 8) (x + 1 + length inner) ≡ true =
        lt→ltb (x + 8) (x + 1 + length inner) (omega (arith, longer)) in
      let count : x + 1 + length inner - (x + 8) - 1 ≡ length content = omega (arith, longer) in
      let whole : (packet_of [] len stale).bytes ≡ head ++ (content ++ (ck ∷ stale)) =
        ap (λ (t : List ℕ). pre ++ len ∷ a ∷ n ∷ c ∷ b ∷ q ∷ m ∷ cc ∷ t)
          (append_assoc content (ck ∷ []) stale)
        ∙ sym
            (append_assoc pre (len ∷ a ∷ n ∷ c ∷ b ∷ q ∷ m ∷ cc ∷ []) (content ++ (ck ∷ stale))) in
      let piece : slice (x + 8) (length content) (packet_of [] len stale).bytes ≡ content =
        ap (slice (x + 8) (length content)) whole
        ∙ ap (take (length content)) (drop_middle (x + 8) head (content ++ (ck ∷ stale)) size)
        ∙ take_middle (length content) content (ck ∷ stale) refl in
      rw (more, count) piece

  -- The response itself.
  direct_step :
      (len : ℕ) (stale : List ℕ) (e : Entry)
      → Awaits [] e
      → on_packet intf s bridge_possible (packet_of [] len stale) (e ∷ [])
        ≡ ends (response found_response) []
  direct_step len stale e w =
      let p = packet_of [] len stale in
      let x = length pre in
      let behind = (content ++ ck ∷ []) ++ stale in
      on_packet_lem intf s bridge_possible pre header (len ∷ (inner ++ stale)) p.data_len (e ∷ [])
      ∙ ap
          (λ (r : Response).
            on_found intf s bridge_possible p x r (e ∷ []) (lookup_entry r.rq_seq r.cmd (e ∷ [])))
          (read_response_lem a n c b q m cc len pre behind)
      ∙ found_direct intf s bridge_possible p x (fields a n b q m cc) e
          (is_entry_lem (q / 4) m e w.seq w.cmd) w.level
      ∙ ap (λ (t : List ℕ). ends (response (record (fields a n b q m cc) { bytes = t })) [])
          (direct_data len stale)

  abbrev next_entry : List Hop → Entry → Entry
  next_entry hs e = record (one_less e) { rq_seq = get_or (wrap hs inner) 4 0 / 4 }

  -- A response to a Send Message request around another.
  unwrap_step :
      (h : Hop) (hs : List Hop) (len : ℕ) (stale : List ℕ) (e : Entry)
      → IsAppResponse h
      → Awaits (h ∷ hs) e
      → (stale' : List ℕ) × (on_packet intf s bridge_possible
            (packet_of (h ∷ hs) len stale)
            (e ∷ [])
          ≡ again (packet_of hs (u8 (len + 248)) stale') (next_entry hs e ∷ []))
  unwrap_step h hs len stale e app w =
      let p = packet_of (h ∷ hs) len stale in
      let x = length pre in
      let within = wrap hs inner in
      let rest = h.check ∷ stale in
      let stale' = left_over x len pre (hop_bytes h) within rest refl refl in
      let long = wrap_long hs in
      let size : p.data_len ≡ x + 9 + length within =
        omega (arith, length-append within (h.check ∷ [])) in
      let whole : p ≡ around x len pre (hop_bytes h) within rest refl refl =
        ap₂
          (λ (t : List ℕ) (k : ℕ). record { bytes = pre ++ len ∷ (hop_bytes h ++ t); data_len = k })
          (append_assoc within (h.check ∷ []) stale) size in
      let q = around x len pre (hop_bytes h) within rest refl refl in
      let opened : unwrapped q x ≡ packet_of hs (u8 (len + 248)) stale' =
        unwrapped_lem x len pre (hop_bytes h) within rest refl refl in
      let next_seq : get_or (unwrapped q x).bytes (x + 5) 0 ≡ get_or within 4 0 =
        ap (λ (p' : Packet). get_or p'.bytes (x + 5) 0) opened
        ∙ get_or-behind x 5 0 pre (u8 (len + 248) ∷ (within ++ stale')) refl
        ∙ get_or-before 4 0 within stale' (omega (arith, long)) in
      (
        stale',
        ap (λ (p : Packet). on_packet intf s bridge_possible p (e ∷ [])) whole
            ∙ on_packet_lem intf s bridge_possible pre header
                (len ∷ (hop_bytes h ++ (within ++ rest))) q.data_len (e ∷ [])
            ∙ ap
                (λ (r : Response).
                  on_found intf s bridge_possible q x r (e ∷ [])
                    (lookup_entry r.rq_seq r.cmd (e ∷ [])))
                (read_response_lem h.rq_addr h.net_fn h.csum h.rs_addr h.seq 0x34 h.ccode len pre
                  (within ++ rest))
            ∙ found_hop intf s bridge_possible q x
                (fields h.rq_addr h.net_fn h.rs_addr h.seq 0x34 h.ccode) e
                (is_entry_lem (h.seq / 4) 0x34 e w.seq w.cmd) bridged (rw w.level (ground arith))
                app refl (omega (arith, long))
            ∙ ap₂ (λ (p' : Packet) (k : ℕ). again p' (record (one_less e) { rq_seq = k / 4 } ∷ []))
                opened next_seq,
      )

  next_entry-Awaits :
      (h : Hop) (hs : List Hop) (e : Entry) → Awaits (h ∷ hs) e → Awaits hs (next_entry hs e)
  unfolding one_less
  next_entry-Awaits h [] e w = record {
    level = ground (arith, w.level);
    seq = refl;
    target = w.target;
    cmd = ground (arith, w.level, w.target);
  }
  next_entry-Awaits h (h' ∷ hs) e w = record {
    level = ground (arith, w.level);
    seq = refl;
    target = w.target;
    cmd = ground (arith, w.level, w.cmd);
  }

  -- A response that arrives within the responses to any number of Send Message requests, whatever
  -- bytes of earlier packets stand behind it in the buffer, is returned by `ipmi_lan_poll_recv` with
  -- its own fields, its completion code and exactly its data, and its request is no longer pending;
  -- for the one pending request, whose entry counts these Send Message requests.
  pub poll-unwraps :
      (fuel : ℕ) (hops : List Hop) (len : ℕ) (stale : List ℕ) (packets : List Packet) (e : Entry)
      → All IsAppResponse hops
      → Awaits hops e
      → length hops < fuel
      → poll intf s bridge_possible fuel (packet_of hops len stale) packets (e ∷ [])
        ≡ record { polled = response found_response; packets = packets; entries = [] }
  unfolding poll
  poll-unwraps zero hops len stale packets e app w enough = absurd (omega (arith, enough))
  poll-unwraps (suc fuel) [] len stale packets e app w enough =
      rw (direct_step len stale e w, poll) refl
  poll-unwraps (suc fuel) (h ∷ hs) len stale packets e app w enough =
      let step = unwrap_step h hs len stale e app.0 w in
      rw (step.1, poll)
        (poll-unwraps fuel hs (u8 (len + 248)) step.0 packets (next_entry hs e) app.1
          (next_entry-Awaits h hs e w) (omega (arith, enough)))

-- The defect of the length that is not checked. A response to a Send Message request for a pending
-- bridged request that ends before its checksum makes `ipmi_lan_poll_recv` move a number of bytes
-- below 0, which `memmove` takes for close to 2^64: whatever the response says, and whatever stands
-- behind it in the buffer.
pub poll-overruns :
    (intf : Intf) (s : Session) (bridge_possible : Bool) (pre : List ℕ) (h : Hop)
    (len data_len fuel : ℕ) (rest : List ℕ) (packets : List Packet) (e : Entry)
    → IsHeader s pre
    → bridges intf s bridge_possible ≡ true
    → IsAppResponse h
    → (e.bridging_level == 0) ≡ false
    → e.rq_seq ≡ h.seq / 4
    → e.cmd ≡ 0x34
    → data_len < length pre + 9
    → (poll intf s bridge_possible
        (suc fuel)
        (record { bytes = pre ++ len ∷ (hop_bytes h ++ rest); data_len = data_len })
        packets
        (e ∷ [])).polled
      ≡ overrun
unfolding poll
poll-overruns intf s bridge_possible pre h len data_len fuel rest packets e header bridged app level
      seq cmd short =
    let q : Packet = record { bytes = pre ++ len ∷ (hop_bytes h ++ rest); data_len = data_len } in
    let x = length pre in
    let step : on_packet intf s bridge_possible q (e ∷ []) ≡ ends overrun (one_less e ∷ []) =
      on_packet_lem intf s bridge_possible pre header (len ∷ (hop_bytes h ++ rest)) data_len
        (e ∷ [])
      ∙ ap
          (λ (r : Response).
            on_found intf s bridge_possible q x r (e ∷ []) (lookup_entry r.rq_seq r.cmd (e ∷ [])))
          (read_response_lem h.rq_addr h.net_fn h.csum h.rs_addr h.seq 0x34 h.ccode len pre rest)
      ∙ found_short intf s bridge_possible q x
          (fields h.rq_addr h.net_fn h.rs_addr h.seq 0x34 h.ccode) e
          (is_entry_lem (h.seq / 4) 0x34 e seq cmd) bridged level app refl short in
    rw (step, poll) refl
