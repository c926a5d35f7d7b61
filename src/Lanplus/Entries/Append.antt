-- ===== src/Lanplus/Entries/Append.antt =====
-- src/plugins/lanplus/lanplus.c: `ipmi_req_add_entry` on the queue that the list represents.
use ipmitool.Common.{
  ℕ, ◌≡◌, ◌≢◌, refl, sym, List, [], ◌∷◌, ◌++◌, some, true, false, ◌==◌, arith, ◌∙◌,
}
use ipmitool.Lanplus.Entries.{Entry, Store, put, ReqList, set_next, add_entry}
use ipmitool.Lanplus.Entries.Queue.{
  Pending, Fresh, Distinct, entry_of, Chain, last_addr, IsQueue, put_same, put_other, set_next_same,
  set_next_other, Fresh-last,
}

-- The entry that the tail points to is in the store.
last-Chain :
    (h : Store) (e : ℕ) (p : Pending) (ps : List Pending)
    → Chain h e (p ∷ ps)
    → (x : Entry) × (h (last_addr p.addr ps) ≡ some x)
last-Chain h e p [] c = (entry_of p c.2.0, c.2.1)
last-Chain h e p (q ∷ ps) c = last-Chain h c.2.0 q ps c.2.2

-- The store with the new entry, linked behind the last one.
module _ (h : Store) (x : Pending) (nonzero : x.addr ≢ 0) where
  abbrev with_new : Store
  with_new = put h x.addr (entry_of x 0)

  linked :
      (e : ℕ) (p : Pending) (ps : List Pending)
      → Chain h e (p ∷ ps)
      → Fresh x.addr (p ∷ ps)
      → (y : Entry) × (with_new (last_addr p.addr ps) ≡ some y)
  linked e p ps c f =
      let (y, is) = last-Chain h e p ps c in
      (
        y,
        put_other h x.addr (entry_of x 0) (last_addr p.addr ps)
              (λ z. Fresh-last x.addr p ps f (sym z))
            ∙ is,
      )

  Chain-append :
      (e : ℕ) (p : Pending) (ps : List Pending)
      → Chain h e (p ∷ ps)
      → Distinct (p ∷ ps)
      → Fresh x.addr (p ∷ ps)
      → Chain (set_next with_new (last_addr p.addr ps) x.addr) e ((p ∷ ps) ++ x ∷ [])
  Chain-append e p [] c d f =
      let kept : with_new p.addr ≡ some (entry_of p c.2.0) =
        put_other h x.addr (entry_of x 0) p.addr (λ z. f.0 (sym z)) ∙ c.2.1 in
      let new : with_new x.addr ≡ some (entry_of x 0) = put_same h x.addr (entry_of x 0) in
      (
        c.0,
        c.1,
        (
          x.addr,
          set_next_same with_new p.addr x.addr (entry_of p c.2.0) kept,
          (
            refl,
            nonzero,
            (
              0,
              set_next_other with_new p.addr x.addr x.addr (entry_of p c.2.0) kept f.0 ∙ new,
              refl,
            ),
          ),
        ),
      )
  Chain-append e p (q ∷ ps) c d f =
      let rest = Chain-append c.2.0 q ps c.2.2 d.1 f.1 in
      let (y, is) = linked c.2.0 q ps c.2.2 f.1 in
      let kept : with_new p.addr ≡ some (entry_of p c.2.0) =
        put_other h x.addr (entry_of x 0) p.addr (λ z. f.0 (sym z)) ∙ c.2.1 in
      (
        c.0,
        c.1,
        (
          c.2.0,
          set_next_other with_new (last_addr q.addr ps) x.addr p.addr y is
                (Fresh-last p.addr q ps d.0)
              ∙ kept,
          rest,
        ),
      )

Fresh-append :
    (a b : ℕ) (ps : List Pending) (x : Pending) → a ≢ x.addr → Fresh a ps → Fresh a (ps ++ x ∷ [])
Fresh-append a b [] x other f = (other, tt)
Fresh-append a b (p ∷ ps) x other f = (f.0, Fresh-append a b ps x other f.1)

Distinct-append :
    (ps : List Pending) (x : Pending) → Distinct ps → Fresh x.addr ps → Distinct (ps ++ x ∷ [])
Distinct-append [] x d f = (tt, tt)
Distinct-append (p ∷ ps) x d f =
    (Fresh-append p.addr x.addr ps x (λ z. f.0 (sym z)) d.0, Distinct-append ps x d.1 f.1)

last-append : (a : ℕ) (ps : List Pending) (x : Pending) → x.addr ≡ last_addr a (ps ++ x ∷ [])
last-append a [] x = refl
last-append a (p ∷ ps) x = last-append p.addr ps x

add_entry-empty :
    (l : ReqList) (x : Pending)
    → l.entries ≡ 0
    → add_entry l x.rq_seq x.cmd (some x.addr) ≡ record {
      entries = x.addr;
      entries_tail = x.addr;
      store = put l.store x.addr (entry_of x 0);
    }
unfolding add_entry
add_entry-empty l x null =
    let empty : (l.entries == 0) ≡ true = ground (arith, null) in rw empty refl

add_entry-linked :
    (l : ReqList) (p : Pending) (ps : List Pending) (x : Pending)
    → IsQueue l (p ∷ ps)
    → add_entry l x.rq_seq x.cmd (some x.addr) ≡ record {
      entries = l.entries;
      entries_tail = x.addr;
      store = set_next (put l.store x.addr (entry_of x 0)) (last_addr p.addr ps) x.addr;
    }
unfolding add_entry
add_entry-linked l p ps x q =
    let some_entry : (l.entries == 0) ≡ false = ground (arith, q.chain.0, q.chain.1) in
    rw some_entry (rw q.tail_ok refl)

-- When `malloc` gives an address that is not NULL and not one of the queue's entries, adding a
-- request to the linked list appends it to the queue that the list represents.
pub add_entry-IsQueue :
    (l : ReqList) (ps : List Pending) (x : Pending)
    → IsQueue l ps
    → x.addr ≢ 0
    → Fresh x.addr ps
    → IsQueue (add_entry l x.rq_seq x.cmd (some x.addr)) (ps ++ x ∷ [])
add_entry-IsQueue l [] x q nonzero fresh = rw (add_entry-empty l x q.chain) (record {
  chain = (refl, nonzero, (0, put_same l.store x.addr (entry_of x 0), refl));
  distinct = (tt, tt);
  tail_ok = refl;
})
add_entry-IsQueue l (p ∷ ps) x q nonzero fresh = rw (add_entry-linked l p ps x q) (record {
  chain = Chain-append l.store x nonzero l.entries p ps q.chain q.distinct fresh;
  distinct = Distinct-append (p ∷ ps) x q.distinct fresh;
  tail_ok = last-append p.addr ps x;
})
