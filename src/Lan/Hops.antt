-- ===== src/Lan/Hops.antt =====
-- src/plugins/lan/lan.c: responses to Send Message requests, and what each does to the one pending
-- request.
use ipmitool.Common.{
  ℕ, ◌+◌, ◌/◌, ◌<◌, ◌≡◌, refl, ap, List, [], ◌∷◌, ◌++◌, some, Bool, true, false, not, ◌==◌, ltb,
  lt→ltb, ltb-false, ◌&&◌, get_or, arith,
}
use ipmitool.Intf.{Intf}
use ipmitool.Lan.{Session, Entry}
use ipmitool.Lan.Receive.{
  Packet, Response, overrun, response, lookup_entry, change_entry, remove_entry, response_data,
  unwrapped, one_less, Step, ends, again, bridges, on_send_message, on_found, is_entry,
}

-- A response to a Send Message request, without what it carries.
pub record Hop : Type 0 where
  pub rq_addr : ℕ
  pub net_fn : ℕ
  pub csum : ℕ
  pub rs_addr : ℕ
  pub seq : ℕ
  pub ccode : ℕ
  pub check : ℕ

abbrev pub hop_bytes : Hop → List ℕ
hop_bytes h = h.rq_addr ∷ h.net_fn ∷ h.csum ∷ h.rs_addr ∷ h.seq ∷ 0x34 ∷ h.ccode ∷ []

abbrev pub wrap : List Hop → List ℕ → List ℕ
wrap [] msg = msg
wrap (h ∷ hs) msg = hop_bytes h ++ (wrap hs msg ++ h.check ∷ [])

-- The command of the entry: that of a Send Message request until the last is answered.
abbrev pub waited_cmd : ℕ → List Hop → ℕ
waited_cmd m [] = m
waited_cmd m (h ∷ hs) = 0x34

abbrev pub IsAppResponse : Hop → Type 0
IsAppResponse h = h.net_fn / 4 ≡ 7

pub is_entry_lem :
    (seq cmd : ℕ) (e : Entry) → e.rq_seq ≡ seq → e.cmd ≡ cmd → is_entry seq cmd e ≡ true
unfolding is_entry
is_entry_lem seq cmd e h k = ground (arith, h, k)

module _ (intf : Intf) (s : Session) (bridge_possible : Bool) (p : Packet) (x : ℕ) (r : Response)
    (e : Entry) (pending : is_entry r.rq_seq r.cmd e ≡ true) where
  lookup_one : lookup_entry r.rq_seq r.cmd (e ∷ []) ≡ some e
  unfolding lookup_entry
  lookup_one =
      let hit : (e.rq_seq == r.rq_seq && e.cmd == r.cmd) ≡ true = unfold is_entry in pending in
      rw hit refl

  remove_one : remove_entry r.rq_seq r.cmd (e ∷ []) ≡ []
  unfolding remove_entry
  remove_one =
      let hit : (e.rq_seq == r.rq_seq && e.cmd == r.cmd) ≡ true = unfold is_entry in pending in
      rw hit refl

  change_one : (e' : Entry) → change_entry r.rq_seq r.cmd e' (e ∷ []) ≡ e' ∷ []
  unfolding change_entry
  change_one e' =
      let hit : (e.rq_seq == r.rq_seq && e.cmd == r.cmd) ≡ true = unfold is_entry in pending in
      rw hit refl

  abbrev found : Step
  found = on_found intf s bridge_possible p x r (e ∷ []) (lookup_entry r.rq_seq r.cmd (e ∷ []))

  pub found_direct :
      e.bridging_level ≡ 0 → found ≡ ends (response (record r { bytes = response_data p x })) []
  unfolding on_found
  found_direct level =
      let no_hop : (bridges intf s bridge_possible
            && (not (e.bridging_level == 0) && (r.netfn == 7 && r.cmd == 0x34)))
          ≡ false =
        ground (arith, level) in
      rw (lookup_one, no_hop, remove_one) refl

  pub found_hop :
      bridges intf s bridge_possible ≡ true
      → (e.bridging_level == 0) ≡ false
      → r.netfn ≡ 7
      → r.cmd ≡ 0x34
      → x + 9 < p.data_len
      → found
        ≡ again
            (unwrapped p x)
            (record (one_less e) { rq_seq = get_or (unwrapped p x).bytes (x + 5) 0 / 4 } ∷ [])
  unfolding on_found on_send_message
  found_hop bridged level app send more =
      let hop : (bridges intf s bridge_possible
            && (not (e.bridging_level == 0) && (r.netfn == 7 && r.cmd == 0x34)))
          ≡ true =
        ground (arith, bridged, level, app, send) in
      let not_all : (p.data_len == x + 9) ≡ false = ground (arith, more) in
      let enough : ltb p.data_len (x + 9) ≡ false =
        ltb-false p.data_len (x + 9) (omega (arith, more)) in
      rw (lookup_one, hop, not_all, enough) (ap (again (unwrapped p x)) (change_one _))

  pub found_short :
      bridges intf s bridge_possible ≡ true
      → (e.bridging_level == 0) ≡ false
      → r.netfn ≡ 7
      → r.cmd ≡ 0x34
      → p.data_len < x + 9
      → found ≡ ends overrun (one_less e ∷ [])
  unfolding on_found on_send_message
  found_short bridged level app send short =
      let hop : (bridges intf s bridge_possible
            && (not (e.bridging_level == 0) && (r.netfn == 7 && r.cmd == 0x34)))
          ≡ true =
        ground (arith, bridged, level, app, send) in
      let not_all : (p.data_len == x + 9) ≡ false = ground (arith, short) in
      let cut : ltb p.data_len (x + 9) ≡ true = lt→ltb p.data_len (x + 9) short in
      rw (lookup_one, hop, not_all, cut) (ap (ends overrun) (change_one _))
