-- ===== src/Lanplus/Entries.antt =====
-- src/plugins/lanplus/lanplus.c: the list of pending requests, `ipmi_req_add_entry`,
-- `ipmi_req_lookup_entry`, `ipmi_req_remove_entry` and `ipmi_req_clear_entries`, with its nodes in a
-- store. The address 0 is NULL.
pub mod Queue
pub mod Append
pub mod Unlink
pub mod Removal
pub mod Clear
use ipmitool.Common.{
  ℕ, zero, suc, ◌+◌, List, [], ◌∷◌, ◌++◌, Option, none, some, Bool, true, false, not, ◌==◌, ◌&&◌,
  ◌||◌, if◌then◌else◌,
}

-- The fields of `struct ipmi_rq_entry` that the list works with.
pub record Entry : Type 0 where
  pub rq_seq : ℕ
  pub cmd : ℕ
  pub next : ℕ

abbrev pub Store : Type 0
Store = ℕ → Option Entry

unfoldable pub put : Store → ℕ → Entry → Store
put h a e b = if b == a then some e else h b

-- The two static pointers and the store that they point into.
pub record ReqList : Type 0 where
  pub entries : ℕ
  pub entries_tail : ℕ
  pub store : Store

-- What `e` points to, with another `next`; a pointer to nothing is left alone.
unfoldable pub set_next : Store → ℕ → ℕ → Store
unfolding put
set_next h a n = elim (h a) [ none ↦ h | some e ↦ put h a (record e { next = n }) ]

-- `alloc` is what `malloc` returns.
unfoldable pub add_entry : ReqList → ℕ → ℕ → Option ℕ → ReqList
unfolding put set_next
add_entry l seq cmd none = l
add_entry l seq cmd (some a) =
    let h = put l.store a (record { rq_seq = seq; cmd = cmd; next = 0 }) in
    record {
      entries = if l.entries == 0 then a else l.entries;
      entries_tail = a;
      store = if l.entries == 0 then h else set_next h l.entries_tail a;
    }

-- The pointer that is returned, NULL, a read through a dangling pointer, or no fuel left.
pub data Lookup : Type 0 where
  found : ℕ → Lookup
  missing dangling no_fuel : Lookup

abbrev pub is_entry : ℕ → ℕ → Entry → Bool
is_entry seq cmd e = e.rq_seq == seq && e.cmd == cmd

-- The loop at `e`, for at most `fuel` entries.
unfoldable pub lookup_from : Store → ℕ → ℕ → ℕ → ℕ → Lookup
lookup_from h seq cmd zero e = no_fuel
lookup_from h seq cmd (suc fuel) e = elim (e == 0) [
  | true ↦ missing
  | false ↦ elim (h e) [
    | none ↦ dangling
    | some n ↦ elim (is_entry seq cmd n) [
      | true ↦ found e
      | false ↦ elim (e == n.next) [ true ↦ missing | false ↦ lookup_from h seq cmd fuel n.next ]
    ]
  ]
]

unfoldable pub lookup_entry : ReqList → ℕ → ℕ → ℕ → Lookup
unfolding lookup_from
lookup_entry l seq cmd fuel = lookup_from l.store seq cmd fuel l.entries

unfoldable pub release : Store → ℕ → Store
release h e b = if b == e then none else h b

-- What is done with the entry `e` behind `p`, whose `next` is `n`; `none` is a dangling pointer.
unfoldable pub unlink : ReqList → ℕ → ℕ → ℕ → Option ReqList
unfolding set_next release
unlink l p e n = elim (l.store p) [
  | none ↦ none
  | some before ↦ some record {
    entries = if l.entries == e then (if l.entries == p then n else p) else l.entries;
    entries_tail =
        if l.entries_tail == e then (if l.entries_tail == p then 0 else p) else l.entries_tail;
    store = release (set_next l.store p (if before.next == n then 0 else n)) e;
  }
]

-- The loop at `e` with `p` behind, for at most `fuel` entries.
unfoldable pub remove_from : ReqList → ℕ → ℕ → ℕ → ℕ → ℕ → Option ReqList
remove_from l seq cmd zero p e = none
remove_from l seq cmd (suc fuel) p e = elim (e == 0) [
  | true ↦ some l
  | false ↦ elim (l.store e) [
    | none ↦ none
    | some n ↦ elim (is_entry seq cmd n) [
      | true ↦ unlink l p e n.next
      | false ↦ remove_from l seq cmd fuel e n.next
    ]
  ]
]

unfoldable pub remove_entry : ReqList → ℕ → ℕ → ℕ → Option ReqList
unfolding remove_from unlink
remove_entry l seq cmd fuel = remove_from l seq cmd fuel l.entries l.entries

-- Each entry is freed after its `next` was read.
unfoldable pub clear_from : Store → ℕ → ℕ → Option Store
unfolding release
clear_from h zero e = none
clear_from h (suc fuel) e = elim (e == 0) [
  | true ↦ some h
  | false ↦ elim (h e) [ none ↦ none | some n ↦ clear_from (release h e) fuel n.next ]
]

unfoldable pub clear_entries : ReqList → ℕ → Option ReqList
clear_entries l fuel = elim (clear_from l.store fuel l.entries) [
  | none ↦ none
  | some h ↦ some record { entries = 0; entries_tail = 0; store = h }
]
