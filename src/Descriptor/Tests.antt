-- ===== src/Descriptor/Tests.antt =====
-- Runs of the descriptor table, and its theorems at a table with the keys 0 and 2 taken.
use andsifr.Common.{
  ℕ, ◌+◌, ◌≡◌, refl, Bool, true, false, none, some, List, [], ◌∷◌, ◌++◌, ◌==◌, if◌then◌else◌,
  replicate, arith,
}
use andsifr.Common.Int.{ℤ, pos, negsuc}
use andsifr.Common.Outcome.{ok}
use andsifr.Descriptor.{
  Table, ones_count, trailing_zeros, test_bit, to_int32, find_free, count_masks, len, place,
  insert_loop, insert, lookup, insert_at, delete, range_bits, range_masks, range,
}
use andsifr.Descriptor.View.{taken}
use andsifr.Descriptor.Map.{IsValid, view, answer, lookup-view}
use andsifr.Descriptor.Update.{insert_at_lem, delete_lem}
use andsifr.Descriptor.Insert.{Inserted, insert_lem}
use andsifr.Descriptor.Range.{visit, entries, range_lem}

abbrev sample : Table ℕ
sample = record { masks = 5 ∷ []; items = 11 ∷ 0 ∷ 13 ∷ replicate 61 0 }

sample-IsValid : IsValid 0 sample
sample-IsValid = record { sized = refl; words = omega arith }

insert_takes_one :
    insert 0 sample 12
    ≡ ok (record { masks = 7 ∷ []; items = 11 ∷ 12 ∷ 13 ∷ replicate 61 0 }, pos 1, true)
unfolding insert insert_loop place find_free trailing_zeros to_int32
insert_takes_one = refl

insert_negative : insert_at 0 sample 12 (negsuc 0) ≡ ok (sample, false)
unfolding insert_at
insert_negative = refl

len_two : len sample ≡ 2
unfolding len count_masks ones_count
len_two = refl

-- A callback that collects the keys and stops behind the second.
collect : ℤ → ℕ → List ℤ → Bool × List ℤ
collect k a ks = (a == 11, ks ++ (k ∷ []))

range_runs : range sample collect [] ≡ ok (pos 0 ∷ pos 2 ∷ [])
unfolding range range_masks range_bits test_bit collect to_int32
range_runs = refl

lookup-view_example : lookup 0 sample (pos 2) ≡ ok (answer 0 (view 0 sample 2))
lookup-view_example = lookup-view 0 sample 2 sample-IsValid

insert_at_lem_example :
    (t' : Table ℕ) × (insert_at 0 sample 9 (pos 70) ≡ ok (t', true))
    × IsValid 0 t'
    × ((j : ℕ) → view 0 t' j ≡ (if 70 == j then some 9 else view 0 sample j))
    × (len t' + taken sample.masks 70 ≡ len sample + 1)
insert_at_lem_example = insert_at_lem 0 sample 70 9 sample-IsValid

delete_lem_example :
    (t' : Table ℕ) × (delete 0 sample (pos 2) ≡ ok t')
    × IsValid 0 t'
    × ((j : ℕ) → view 0 t' j ≡ (if 2 == j then none else view 0 sample j))
    × (len t' + taken sample.masks 2 ≡ len sample)
delete_lem_example = delete_lem 0 sample 2 sample-IsValid

insert_lem_example :
    (t' : Table ℕ) × (key : ℕ) × (insert 0 sample 12 ≡ ok (t', pos key, true))
    × Inserted 0 sample 12 t' key
insert_lem_example = insert_lem 0 sample 12 sample-IsValid (omega arith)

range_lem_example : range sample collect [] ≡ ok (visit collect (entries 0 sample 64 0) []).1
range_lem_example = range_lem 0 sample collect [] sample-IsValid (omega arith)
