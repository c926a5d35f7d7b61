-- ===== src/Lanplus/Entries/Unlink.antt =====
-- src/plugins/lanplus/lanplus.c: what `ipmi_req_remove_entry` does with the entry it has found.
use ipmitool.Common.{
  ℕ, ◌≡◌, ◌≢◌, refl, sym, List, [], ◌∷◌, some, true, false, ◌==◌, if◌then◌else◌, arith, ◌∙◌,
}
use ipmitool.Lanplus.Entries.{Store, ReqList, set_next, release, unlink}
use ipmitool.Lanplus.Entries.Queue.{
  Pending, Fresh, Distinct, entry_of, Chain, last_addr, TailOk, IsQueue, no_loop, set_next_same,
  set_next_other, Fresh-last,
}

-- A chain without the two addresses at which the store changed.
pub Chain-frame :
    (h h' : Store) (a c e : ℕ) (ps : List Pending)
    → ((b : ℕ) → b ≢ a → b ≢ c → h' b ≡ h b)
    → Fresh a ps
    → Fresh c ps
    → Chain h e ps
    → Chain h' e ps
Chain-frame h h' a c e [] same f g ch = ch
Chain-frame h h' a c e (p ∷ ps) same f g ch =
    let kept = same p.addr (λ z. f.0 (sym z)) (λ z. g.0 (sym z)) in
    (ch.0, ch.1, (ch.2.0, kept ∙ ch.2.1, Chain-frame h h' a c ch.2.0 ps same f.1 g.1 ch.2.2))

pub release_other : (h : Store) (e b : ℕ) → b ≢ e → release h e b ≡ h b
unfolding release
release_other h e b other = let apart : (b == e) ≡ false = ground (arith, other) in rw apart refl

-- What a removal behind `p` leaves.
pub record Unlinked (l l' : ReqList) (p : Pending) (qs rs : List Pending) : Type 0 where
  pub next : ℕ
  pub here : l'.store p.addr ≡ some (entry_of p next)
  pub chain : Chain l'.store next rs
  pub same : (b : ℕ) → b ≢ p.addr → Fresh b qs → l'.store b ≡ l.store b
  pub head : l'.entries ≡ l.entries
  pub tail : l'.entries_tail ≡ last_addr p.addr rs

tail_behind :
    (t : ℕ) (p q : Pending) (ss : List Pending)
    → t ≡ last_addr q.addr ss
    → p.addr ≢ q.addr
    → Fresh q.addr ss
    → (if t == q.addr then (if t == p.addr then 0 else p.addr) else t) ≡ last_addr p.addr ss
tail_behind t p q [] e apart f =
    let at : (t == q.addr) ≡ true = ground (arith, e) in
    let off : (t == p.addr) ≡ false = ground (arith, e, apart) in rw (at, off) refl
tail_behind t p q (s ∷ ss) e apart f =
    let off : (t == q.addr) ≡ false = ground (arith, e, Fresh-last q.addr s ss f) in rw off e

pub unlink_lem :
    (l : ReqList) (p q : Pending) (m : ℕ) (ss : List Pending)
    → l.store p.addr ≡ some (entry_of p q.addr)
    → Chain l.store m ss
    → q.addr ≢ 0
    → Distinct (p ∷ q ∷ ss)
    → l.entries ≢ q.addr
    → l.entries_tail ≡ last_addr q.addr ss
    → (l' : ReqList) × (unlink l p.addr q.addr m ≡ some l') × Unlinked l l' p (q ∷ ss) ss
unfolding unlink
unlink_lem l p q m ss at ch nonzero d front tail =
    let apart = no_loop l.store q.addr m ss nonzero d.1.0 ch in
    let h1 = set_next l.store p.addr m in
    let front' : (l.entries == q.addr) ≡ false = ground (arith, front) in
    let l' : ReqList = record {
      entries = l.entries;
      entries_tail =
          if l.entries_tail == q.addr
          then (if l.entries_tail == p.addr then 0 else p.addr)
          else l.entries_tail;
      store = release h1 q.addr;
    } in
    let other : (b : ℕ) → b ≢ p.addr → b ≢ q.addr → release h1 q.addr b ≡ l.store b = λ b x y.
      release_other h1 q.addr b y ∙ set_next_other l.store p.addr m b (entry_of p q.addr) at x in
    (
      l',
      rw (at, unlink) (rw (apart, front') refl),
      record {
        next = m;
        here =
            release_other h1 q.addr p.addr d.0.0
            ∙ set_next_same l.store p.addr m (entry_of p q.addr) at;
        chain = Chain-frame l.store (release h1 q.addr) p.addr q.addr m ss other d.0.1 d.1.0 ch;
        same = λ b x f. other b x f.0;
        head = refl;
        tail = tail_behind l.entries_tail p q ss tail d.0.0 d.1.0;
      },
    )

TailOk-first :
    (t : ℕ) (p : Pending) (qs : List Pending)
    → t ≡ last_addr p.addr qs
    → Fresh p.addr qs
    → TailOk (if t == p.addr then (if t == p.addr then 0 else p.addr) else t) qs
TailOk-first t p [] e f = tt
TailOk-first t p (q ∷ qs) e f =
    let off : (t == p.addr) ≡ false = ground (arith, e, Fresh-last p.addr q qs f) in rw off e

-- The first entry is unlinked with itself as the one before.
pub unlink_first :
    (l : ReqList) (p : Pending) (n : ℕ) (qs : List Pending)
    → l.entries ≡ p.addr
    → l.store p.addr ≡ some (entry_of p n)
    → Chain l.store n qs
    → Distinct (p ∷ qs)
    → l.entries_tail ≡ last_addr p.addr qs
    → (l' : ReqList) × (unlink l p.addr p.addr n ≡ some l') × IsQueue l' qs
unfolding unlink
unlink_first l p n qs first at ch d tail =
    let h1 = set_next l.store p.addr 0 in
    let own : (n == n) ≡ true = ground arith in
    let front : (l.entries == p.addr) ≡ true = ground (arith, first) in
    let l' : ReqList = record {
      entries = n;
      entries_tail =
          if l.entries_tail == p.addr
          then (if l.entries_tail == p.addr then 0 else p.addr)
          else l.entries_tail;
      store = release h1 p.addr;
    } in
    let other : (b : ℕ) → b ≢ p.addr → b ≢ p.addr → release h1 p.addr b ≡ l.store b = λ b x y.
      release_other h1 p.addr b y ∙ set_next_other l.store p.addr 0 b (entry_of p n) at x in
    (
      l',
      rw (at, unlink) (rw (own, front) refl),
      record {
        chain = Chain-frame l.store (release h1 p.addr) p.addr p.addr n qs other d.0 d.0 ch;
        distinct = d.1;
        tail_ok = TailOk-first l.entries_tail p qs tail d.0;
      },
    )
