-- ===== src/Lanplus/Entries/Clear.antt =====
-- src/plugins/lanplus/lanplus.c: `ipmi_req_clear_entries` frees the queue.
use ipmitool.Common.{
  ℕ, zero, suc, ◌<◌, ◌≡◌, ◌≢◌, refl, List, [], ◌∷◌, none, some, true, false, ◌==◌, length, arith,
  ap, ◌∙◌, All,
}
use ipmitool.Lanplus.Entries.{Store, ReqList, release, clear_from, clear_entries}
use ipmitool.Lanplus.Entries.Queue.{Pending, Fresh, Distinct, Chain, IsQueue}
use ipmitool.Lanplus.Entries.Unlink.{Chain-frame, release_other}

release_same : (h : Store) (e : ℕ) → release h e e ≡ none
unfolding release
release_same h e = let same : (e == e) ≡ true = ground arith in rw same refl

-- The store that is left, where all the entries are gone and all else is as it was.
record Cleared (h h' : Store) (ps : List Pending) : Type 0 where
  pub gone : All (λ p. h' p.addr ≡ none) ps
  pub kept : (b : ℕ) → Fresh b ps → h' b ≡ h b

clear_from-Chain :
    (ps : List Pending) (h : Store) (fuel e : ℕ)
    → Chain h e ps
    → Distinct ps
    → length ps < fuel
    → (h' : Store) × (clear_from h fuel e ≡ some h') × Cleared h h' ps
unfolding clear_from
clear_from-Chain ps h zero e ch d enough = absurd (omega (arith, enough))
clear_from-Chain [] h (suc fuel) e ch d enough =
    let null : (e == 0) ≡ true = ground (arith, ch) in
    (h, rw (null, clear_from) refl, record { gone = tt; kept = λ b f. refl })
clear_from-Chain (p ∷ ps) h (suc fuel) e ch d enough =
    let n = ch.2.0 in
    let real : (p.addr == 0) ≡ false = ground (arith, ch.1) in
    let other : (b : ℕ) → b ≢ p.addr → b ≢ p.addr → release h p.addr b ≡ h b =
      λ b x y. release_other h p.addr b x in
    let later = Chain-frame h (release h p.addr) p.addr p.addr n ps other d.0 d.0 ch.2.2 in
    let (h', is, c) =
      clear_from-Chain ps (release h p.addr) fuel n later d.1 (omega (arith, enough)) in
    (
      h',
      ap (λ (x : ℕ). clear_from h (suc fuel) x) ch.0
          ∙ rw (real, clear_from) (rw (ch.2.1, clear_from) is),
      record {
        gone = (c.kept p.addr d.0 ∙ release_same h p.addr, c.gone);
        kept = λ b f. c.kept b f.1 ∙ release_other h p.addr b f.0;
      },
    )

-- With fuel for more entries than the queue has, clearing the linked list ends without following
-- a dangling pointer; the list is then empty, and every entry of the queue has been freed.
pub clear_entries-IsQueue :
    (l : ReqList) (ps : List Pending) (fuel : ℕ)
    → IsQueue l ps
    → length ps < fuel
    → (l' : ReqList) × (clear_entries l fuel ≡ some l')
      × IsQueue l' []
      × All (λ p. l'.store p.addr ≡ none) ps
unfolding clear_entries
clear_entries-IsQueue l ps fuel q enough =
    let (h, is, c) = clear_from-Chain ps l.store fuel l.entries q.chain q.distinct enough in
    let l' : ReqList = record { entries = 0; entries_tail = 0; store = h } in
    (l', rw (is, clear_entries) refl, record { chain = refl; distinct = tt; tail_ok = tt }, c.gone)
