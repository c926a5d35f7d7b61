-- ===== src/Lanplus/Entries/Removal.antt =====
-- src/plugins/lanplus/lanplus.c: `ipmi_req_remove_entry` on the queue that the list represents.
use ipmitool.Common.{
  ℕ, zero, suc, ◌<◌, ◌≡◌, refl, List, [], ◌∷◌, some, true, false, ◌==◌, ◌&&◌, length, arith, ap,
  ◌∙◌, inl, inr, Bool-cases,
}
use ipmitool.Lanplus.Entries.{ReqList, remove_from, remove_entry}
use ipmitool.Lanplus.Entries.Queue.{Pending, Fresh, Distinct, entry_of, Chain, last_addr, IsQueue}
use ipmitool.Lanplus.Entries.Unlink.{Unlinked, unlink_lem, unlink_first}

-- The queue without its first request with these numbers.
unfoldable pub remove_first : ℕ → ℕ → List Pending → List Pending
remove_first seq cmd [] = []
remove_first seq cmd (p ∷ ps) = elim (p.rq_seq == seq && p.cmd == cmd) [
  | true ↦ ps
  | false ↦ p ∷ remove_first seq cmd ps
]

Fresh-remove_first :
    (seq cmd a : ℕ) (ps : List Pending) → Fresh a ps → Fresh a (remove_first seq cmd ps)
unfolding remove_first
Fresh-remove_first seq cmd a [] f = tt
Fresh-remove_first seq cmd a (p ∷ ps) f = elim (Bool-cases (p.rq_seq == seq && p.cmd == cmd)) [
  | inl hit ↦ rw (hit, remove_first) f.1
  | inr miss ↦ rw (miss, remove_first) (f.0, Fresh-remove_first seq cmd a ps f.1)
]

Distinct-remove_first :
    (seq cmd : ℕ) (ps : List Pending) → Distinct ps → Distinct (remove_first seq cmd ps)
unfolding remove_first
Distinct-remove_first seq cmd [] d = tt
Distinct-remove_first seq cmd (p ∷ ps) d = elim (Bool-cases (p.rq_seq == seq && p.cmd == cmd)) [
  | inl hit ↦ rw (hit, remove_first) d.1
  | inr miss ↦
      rw (miss, remove_first)
        (Fresh-remove_first seq cmd p.addr ps d.0, Distinct-remove_first seq cmd ps d.1)
]

remove_from-Unlinked :
    (l : ReqList) (seq cmd : ℕ) (qs : List Pending) (p : Pending) (n fuel : ℕ)
    → l.store p.addr ≡ some (entry_of p n)
    → Chain l.store n qs
    → Distinct (p ∷ qs)
    → Fresh l.entries qs
    → l.entries_tail ≡ last_addr p.addr qs
    → length qs < fuel
    → (l' : ReqList) × (remove_from l seq cmd fuel p.addr n ≡ some l')
      × Unlinked l l' p qs (remove_first seq cmd qs)
unfolding remove_from remove_first
remove_from-Unlinked l seq cmd qs p n zero at ch d front tail enough =
    absurd (omega (arith, enough))
remove_from-Unlinked l seq cmd [] p n (suc fuel) at ch d front tail enough =
    let null : (n == 0) ≡ true = ground (arith, ch) in
    (
      l,
      rw (null, remove_from) refl,
      record { next = n; here = at; chain = ch; same = λ b x f. refl; head = refl; tail = tail },
    )
remove_from-Unlinked l seq cmd (q ∷ ss) p n (suc fuel) at ch d front tail enough =
    let m = ch.2.0 in
    let real : (q.addr == 0) ≡ false = ground (arith, ch.1) in
    let at' : l.store p.addr ≡ some (entry_of p q.addr) =
      at ∙ ap (λ (x : ℕ). some (entry_of p x)) ch.0 in
    elim (Bool-cases (q.rq_seq == seq && q.cmd == cmd)) [
      | inl hit ↦
          let (l', is, u) = unlink_lem l p q m ss at' ch.2.2 ch.1 d front.0 tail in
          (
            l',
            rw ch.0 (rw (real, remove_from) (rw (ch.2.1, remove_from) (rw (hit, remove_from) is))),
            rw (hit, remove_first) u,
          )
      | inr miss ↦
          let (l', is, u) =
            remove_from-Unlinked l seq cmd ss q m fuel ch.2.1 ch.2.2 d.1 front.1 tail
              (omega (arith, enough)) in
          (
            l',
            rw ch.0 (rw (real, remove_from) (rw (ch.2.1, remove_from) (rw (miss, remove_from) is))),
            rw (miss, remove_first)
                (record {
                  next = q.addr;
                  here = u.same p.addr d.0.0 d.0.1 ∙ at';
                  chain = (refl, ch.1, (u.next, u.here, u.chain));
                  same = λ b x f. u.same b f.0 f.1;
                  head = u.head;
                  tail = u.tail;
                }),
          )
    ]

-- With fuel for more entries than the queue has, removing a request from the linked list ends
-- without following a dangling pointer, and the list then represents the queue without its first
-- request with these numbers; it is the same queue if there is none.
pub remove_entry-IsQueue :
    (l : ReqList) (ps : List Pending) (seq cmd fuel : ℕ)
    → IsQueue l ps
    → length ps < fuel
    → (l' : ReqList) × (remove_entry l seq cmd fuel ≡ some l')
      × IsQueue l' (remove_first seq cmd ps)
unfolding remove_entry remove_from remove_first
remove_entry-IsQueue l ps seq cmd zero q enough = absurd (omega (arith, enough))
remove_entry-IsQueue l [] seq cmd (suc fuel) q enough =
    let null : (l.entries == 0) ≡ true = ground (arith, q.chain) in
    (l, rw (null, remove_from) refl, q)
remove_entry-IsQueue l (p ∷ qs) seq cmd (suc fuel) q enough =
    let ch = q.chain in
    let n = ch.2.0 in
    let real : (p.addr == 0) ≡ false = ground (arith, ch.1) in
    elim (Bool-cases (p.rq_seq == seq && p.cmd == cmd)) [
      | inl hit ↦
          let (l', is, r) = unlink_first l p n qs ch.0 ch.2.1 ch.2.2 q.distinct q.tail_ok in
          (
            l',
            ap (λ (x : ℕ). remove_from l seq cmd (suc fuel) x x) ch.0
                ∙ rw (real, remove_from) (rw (ch.2.1, remove_from) (rw (hit, remove_from) is)),
            rw (hit, remove_first) r,
          )
      | inr miss ↦
          let front : Fresh l.entries qs = rw ch.0 q.distinct.0 in
          let (l', is, u) =
            remove_from-Unlinked l seq cmd qs p n fuel ch.2.1 ch.2.2 q.distinct front q.tail_ok
              (omega (arith, enough)) in
          (
            l',
            ap (λ (x : ℕ). remove_from l seq cmd (suc fuel) x x) ch.0
                ∙ rw (real, remove_from) (rw (ch.2.1, remove_from) (rw (miss, remove_from) is)),
            rw (miss, remove_first)
                (record {
                  chain = (u.head ∙ ch.0, ch.1, (u.next, u.here, u.chain));
                  distinct = (
                    Fresh-remove_first seq cmd p.addr qs q.distinct.0,
                    Distinct-remove_first seq cmd qs q.distinct.1,
                  );
                  tail_ok = u.tail;
                }),
          )
    ]
