-- ===== src/Tests/Entries.antt =====
-- The list of pending requests on a concrete store.
use ipmitool.Common.{All, ◌≡◌, refl, [], ◌∷◌, ◌++◌, none, some, arith}
use ipmitool.Lanplus.Entries.{clear_entries, remove_entry, ReqList, add_entry, found, lookup_entry}
use ipmitool.Lanplus.Entries.Removal.{remove_first, remove_entry-IsQueue}
use ipmitool.Lanplus.Entries.Clear.{clear_entries-IsQueue}
use ipmitool.Lanplus.Entries.Append.{add_entry-IsQueue}
use ipmitool.Lanplus.Entries.Queue.{Pending, IsQueue, first_match, lookup_entry-first_match}

abbrev empty : ReqList
empty = record { entries = 0; entries_tail = 0; store = λ a. none }

abbrev first : Pending
first = record { addr = 100; rq_seq = 1; cmd = 0x34 }

abbrev second : Pending
second = record { addr = 200; rq_seq = 2; cmd = 0x34 }

empty-IsQueue : IsQueue empty []
empty-IsQueue = record { chain = refl; distinct = tt; tail_ok = tt }

abbrev list_one : ReqList
list_one = add_entry empty 1 0x34 (some 100)

list_one-IsQueue : IsQueue list_one (first ∷ [])
list_one-IsQueue = add_entry-IsQueue empty [] first empty-IsQueue (λ e. omega (arith, e)) tt

abbrev list_two : ReqList
list_two = add_entry list_one 2 0x34 (some 200)

looked_up : lookup_entry list_two 2 0x34 3 ≡ found 200
unfolding add_entry lookup_entry
looked_up = refl

list_two-IsQueue : IsQueue list_two (first ∷ second ∷ [])
list_two-IsQueue =
    add_entry-IsQueue list_one (first ∷ []) second list_one-IsQueue (λ e. omega (arith, e))
      ((λ e. omega (arith, e)), tt)

add_entry-IsQueue_example : IsQueue list_two ((first ∷ []) ++ second ∷ [])
add_entry-IsQueue_example =
    add_entry-IsQueue list_one (first ∷ []) second list_one-IsQueue (λ e. omega (arith, e))
      ((λ e. omega (arith, e)), tt)

lookup_entry-first_match_example : lookup_entry list_one 1 0x34 5 ≡ first_match 1 0x34 (first ∷ [])
lookup_entry-first_match_example =
    lookup_entry-first_match list_one (first ∷ []) 1 0x34 5 list_one-IsQueue (omega arith)

remove_entry-IsQueue_example :
    (l : ReqList) × (remove_entry list_two 2 0x34 9 ≡ some l)
    × IsQueue l (remove_first 2 0x34 (first ∷ second ∷ []))
remove_entry-IsQueue_example =
    remove_entry-IsQueue list_two (first ∷ second ∷ []) 2 0x34 9 list_two-IsQueue (omega arith)

clear_entries-IsQueue_example :
    (l : ReqList) × (clear_entries list_two 5 ≡ some l)
    × IsQueue l []
    × All (λ p. l.store p.addr ≡ none) (first ∷ second ∷ [])
clear_entries-IsQueue_example =
    clear_entries-IsQueue list_two (first ∷ second ∷ []) 5 list_two-IsQueue (omega arith)
