-- ===== src/Lan/EntryLaws.antt =====
-- src/plugins/lan/lan.c: the pending requests that `ipmi_lan_build_cmd` leaves when a request is
-- built again, as `ipmi_lan_send_cmd` does for each of its tries.
use ipmitool.Common.{
  ℕ, zero, suc, ◌<◌, ◌≡◌, ◌≢◌, refl, sym, ap, ap₂, ◌∙◌, inl, inr, Bool-cases, List, [], ◌∷◌, Bool,
  true, false, ◌==◌, if◌then◌else◌, ne→==, ==→eq, arith,
}
use ipmitool.Intf.{Intf}
use ipmitool.Serial.Message.{IpmiRq}
use ipmitool.Lan.{
  Entry, Digests, new_bridging_level, next_curr_seq, with_entry, bridged_entry, Lan, build_cmd,
}

abbrev pub copies : ℕ → Entry → List Entry
copies zero e = []
copies (suc n) e = e ∷ copies n e

-- A request that is built once and then again for each of `n` retries.
abbrev pub tries : Digests → Intf → Bool → IpmiRq → ℕ → Lan → Lan
tries digests intf bridge_possible req zero l =
    (build_cmd digests intf bridge_possible req false l).1
tries digests intf bridge_possible req (suc n) l =
    (build_cmd digests intf bridge_possible req true (tries digests intf bridge_possible req n l)).1

next_curr_seq-lt : (is_retry : Bool) (n : ℕ) → next_curr_seq is_retry n < 64
unfolding next_curr_seq
next_curr_seq-lt is_retry n = ground arith

next_curr_seq_again : (n : ℕ) → n < 64 → next_curr_seq true n ≡ n
unfolding next_curr_seq
next_curr_seq_again n h = ground (arith, h)

-- Entries that have another command are passed over.
with_entry_miss :
    (seq cmd k : ℕ) (change : Entry → Entry) (e : Entry)
    → (e.cmd == cmd) ≡ false
    → change (record { rq_seq = seq; cmd = cmd; target_cmd = 0; bridging_level = 0 }) ≡ e
    → with_entry seq cmd change (copies k e) ≡ copies (suc k) e
unfolding with_entry
with_entry_miss seq cmd zero change e miss new = ap (λ (x : Entry). x ∷ []) new
with_entry_miss seq cmd (suc k) change e miss new =
    let rest = with_entry_miss seq cmd k change e miss new in
    elim (Bool-cases (e.rq_seq == seq)) [
      | inl same ↦ rw (same, miss) (ap (λ (es : List Entry). e ∷ es) rest)
      | inr apart ↦ rw apart (ap (λ (es : List Entry). e ∷ es) rest)
    ]

module _ (digests : Digests) (intf : Intf) (bridge_possible : Bool) (req : IpmiRq) (l : Lan) where
  abbrev after : ℕ → Lan
  after n = tries digests intf bridge_possible req n l

  abbrev pub seq_of_request : ℕ
  seq_of_request = next_curr_seq false l.curr_seq

  -- The entry that is left by one try.
  abbrev pub pending : Entry
  pending =
      let level = new_bridging_level intf bridge_possible in
      bridged_entry level seq_of_request
        (record { rq_seq = seq_of_request; cmd = req.cmd; target_cmd = 0; bridging_level = 0 })

  tries-seq : (n : ℕ) → (after n).curr_seq ≡ seq_of_request
  unfolding build_cmd
  tries-seq zero = refl
  tries-seq (suc n) =
      ap (next_curr_seq true) (tries-seq n)
      ∙ next_curr_seq_again seq_of_request (next_curr_seq-lt false l.curr_seq)

  -- A direct request is found again; a bridged one is not, since its entry now has the command 34h.
  found_again :
      new_bridging_level intf bridge_possible ≡ 0
      → with_entry seq_of_request req.cmd
          (bridged_entry (new_bridging_level intf bridge_possible) seq_of_request)
          (pending ∷ [])
        ≡ pending ∷ []
  unfolding with_entry bridged_entry
  found_again direct =
      let same_seq : (seq_of_request == seq_of_request) ≡ true = ground arith in
      let same_cmd : (req.cmd == req.cmd) ≡ true = ground arith in
      rw (direct, same_seq, same_cmd) refl

  not_found :
      (k : ℕ)
      → (new_bridging_level intf bridge_possible == 0) ≡ false
      → req.cmd ≢ 0x34
      → with_entry seq_of_request req.cmd
          (bridged_entry (new_bridging_level intf bridge_possible) seq_of_request)
          (copies k pending)
        ≡ copies (suc k) pending
  unfolding bridged_entry
  not_found k bridged other =
      let miss : (0x34 == req.cmd) ≡ false = ne→== 0x34 req.cmd (λ e. other (sym e)) in
      with_entry_miss seq_of_request req.cmd k _ pending (rw bridged miss) refl

  once_more :
      (n : ℕ)
      → req.cmd ≢ 0x34
      → let level = new_bridging_level intf bridge_possible in
        with_entry seq_of_request req.cmd
          (bridged_entry level seq_of_request)
          (if level == 0 then pending ∷ [] else copies (suc n) pending)
        ≡ (if level == 0 then pending ∷ [] else copies (suc (suc n)) pending)
  once_more n other =
      let level = new_bridging_level intf bridge_possible in
      elim (Bool-cases (level == 0)) [
        | inl direct ↦ rw direct (found_again (==→eq level 0 direct))
        | inr bridged ↦ rw bridged (not_found (suc n) bridged other)
      ]

  -- Where the pending requests are cleared, a direct request has one entry, however often it is
  -- built; a bridged one has an entry more with each retry, all the same, although the code looks
  -- for the one that is there.
  pub tries-entries :
      (n : ℕ)
      → l.entries ≡ []
      → req.cmd ≢ 0x34
      → (after n).entries ≡ (
          if new_bridging_level intf bridge_possible == 0
          then pending ∷ []
          else copies (suc n) pending)
  unfolding build_cmd
  tries-entries zero none_yet other = rw none_yet (both (pending ∷ []))
    where
      both :
          (es : List Entry) → es ≡ (if new_bridging_level intf bridge_possible == 0 then es else es)
      both es = ground arith
  tries-entries (suc n) none_yet other =
      let level = new_bridging_level intf bridge_possible in
      let before = tries-entries n none_yet other in
      ap₂ (λ (s : ℕ) (es : List Entry). with_entry s req.cmd (bridged_entry level s) es)
        (tries-seq (suc n)) before
      ∙ once_more n other
