-- ===== src/Lanplus/Entries/Queue.antt =====
-- src/plugins/lanplus/lanplus.c: the list of pending requests is a queue.
use ipmitool.Common.{
  ℕ, zero, suc, ◌<◌, ◌≡◌, ◌≢◌, refl, List, [], ◌∷◌, some, true, false, ◌==◌, ◌&&◌, length, arith,
  inl, inr, Bool-cases,
}
use ipmitool.Lanplus.Entries.{
  Entry, Store, put, ReqList, set_next, Lookup, found, missing, lookup_from, lookup_entry,
}

-- A request of the queue: the address of its entry, its sequence number and its command.
pub record Pending : Type 0 where
  pub addr : ℕ
  pub rq_seq : ℕ
  pub cmd : ℕ

-- The address is that of no entry of the queue.
abbrev pub Fresh : ℕ → List Pending → Type 0
Fresh a [] = Unit
Fresh a (p ∷ ps) = (a ≢ p.addr) × Fresh a ps

abbrev pub Distinct : List Pending → Type 0
Distinct [] = Unit
Distinct (p ∷ ps) = Fresh p.addr ps × Distinct ps

abbrev pub entry_of : Pending → ℕ → Entry
entry_of p n = record { rq_seq = p.rq_seq; cmd = p.cmd; next = n }

-- From `e` on the store holds the entries of the queue, in order, and then NULL.
abbrev pub Chain : Store → ℕ → List Pending → Type 0
Chain h e [] = e ≡ 0
Chain h e (p ∷ ps) =
    (e ≡ p.addr) × (p.addr ≢ 0) × ((n : ℕ) × (h p.addr ≡ some (entry_of p n)) × Chain h n ps)

abbrev pub last_addr : ℕ → List Pending → ℕ
last_addr a [] = a
last_addr a (p ∷ ps) = last_addr p.addr ps

abbrev pub TailOk : ℕ → List Pending → Type 0
TailOk t [] = Unit
TailOk t (p ∷ ps) = t ≡ last_addr p.addr ps

-- The static pointers and the store represent the queue.
pub record IsQueue (l : ReqList) (ps : List Pending) : Type 0 where
  pub chain : Chain l.store l.entries ps
  pub distinct : Distinct ps
  pub tail_ok : TailOk l.entries_tail ps

-- The first request of the queue with these numbers.
unfoldable pub first_match : ℕ → ℕ → List Pending → Lookup
first_match seq cmd [] = missing
first_match seq cmd (p ∷ ps) = elim (p.rq_seq == seq && p.cmd == cmd) [
  | true ↦ found p.addr
  | false ↦ first_match seq cmd ps
]

pub no_loop :
    (h : Store) (a n : ℕ) (ps : List Pending) → a ≢ 0 → Fresh a ps → Chain h n ps → (a == n) ≡ false
no_loop h a n [] nonzero fresh c = ground (arith, c, nonzero)
no_loop h a n (p ∷ ps) nonzero fresh c = ground (arith, c.0, fresh.0)

lookup_from-Chain :
    (h : Store) (seq cmd : ℕ) (ps : List Pending) (fuel e : ℕ)
    → Chain h e ps
    → Distinct ps
    → length ps < fuel
    → lookup_from h seq cmd fuel e ≡ first_match seq cmd ps
unfolding lookup_from first_match
lookup_from-Chain h seq cmd ps zero e c d enough = absurd (omega (arith, enough))
lookup_from-Chain h seq cmd [] (suc fuel) e c d enough =
    let null : (e == 0) ≡ true = ground (arith, c) in rw (null, lookup_from) refl
lookup_from-Chain h seq cmd (p ∷ ps) (suc fuel) e c d enough =
    let n = c.2.0 in
    let real : (p.addr == 0) ≡ false = ground (arith, c.1) in
    let apart = no_loop h p.addr n ps c.1 d.0 c.2.2 in
    let rest = lookup_from-Chain h seq cmd ps fuel n c.2.2 d.1 (omega (arith, enough)) in
    elim (Bool-cases (p.rq_seq == seq && p.cmd == cmd)) [
      | inl hit ↦ rw c.0 (
          rw (real, lookup_from)
            (rw (c.2.1, lookup_from) (rw (hit, lookup_from, first_match) refl)))
      | inr miss ↦ rw c.0 (
          rw (real, lookup_from)
            (rw (c.2.1, lookup_from)
              (rw (miss, lookup_from, first_match) (rw (apart, lookup_from) rest))))
    ]

pub put_same : (h : Store) (a : ℕ) (e : Entry) → put h a e a ≡ some e
unfolding put
put_same h a e = let same : (a == a) ≡ true = ground arith in rw same refl

pub put_other : (h : Store) (a : ℕ) (e : Entry) (b : ℕ) → b ≢ a → put h a e b ≡ h b
unfolding put
put_other h a e b other = let apart : (b == a) ≡ false = ground (arith, other) in rw apart refl

pub set_next_same :
    (h : Store) (a n : ℕ) (e : Entry)
    → h a ≡ some e
    → set_next h a n a ≡ some (record e { next = n })
unfolding set_next
set_next_same h a n e is = rw (is, set_next) (put_same h a (record e { next = n }))

pub set_next_other :
    (h : Store) (a n b : ℕ) (e : Entry) → h a ≡ some e → b ≢ a → set_next h a n b ≡ h b
unfolding set_next
set_next_other h a n b e is other =
    rw (is, set_next) (put_other h a (record e { next = n }) b other)

pub Fresh-last :
    (a : ℕ) (p : Pending) (ps : List Pending) → Fresh a (p ∷ ps) → a ≢ last_addr p.addr ps
Fresh-last a p [] f = f.0
Fresh-last a p (q ∷ ps) f = Fresh-last a q ps f.1

-- With fuel for more entries than the queue has, looking a request up in the linked list ends, and
-- gives the entry of the first request of the queue with the two numbers, or NULL if there is
-- none; no dangling pointer is followed.
pub lookup_entry-first_match :
    (l : ReqList) (ps : List Pending) (seq cmd fuel : ℕ)
    → IsQueue l ps
    → length ps < fuel
    → lookup_entry l seq cmd fuel ≡ first_match seq cmd ps
unfolding lookup_entry
lookup_entry-first_match l ps seq cmd fuel q enough =
    lookup_from-Chain l.store seq cmd ps fuel l.entries q.chain q.distinct enough
