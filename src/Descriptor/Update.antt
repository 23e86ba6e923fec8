-- ===== src/Descriptor/Update.antt =====
-- InsertAt and Delete change one entry of the map, and the count with it.
use andsifr.Common.{
  ℕ, ◌+◌, ◌-◌, ◌*◌, ◌/◌, ◌%◌, ◌^◌, ◌≤◌, ◌<◌, ◌≡◌, inl, inr, true, none, some, ltb, ◌==◌,
  if◌then◌else◌, Bool-cases, tests, length, get_or, replicate, length-append, length-replicate,
  arith, bit_and, bit_or,
}
use andsifr.Common.Int.{pos}
use andsifr.Common.Outcome.{ok, index_in_range, assign_in_range}
use andsifr.Descriptor.{Table, complement, grow, room_for, insert_at, delete, len}
use andsifr.Descriptor.Count.{len-grow, len-write, len-clear}
use andsifr.Descriptor.Map.{
  IsValid, view, write, clear, grow-IsValid, view-grow, write-IsValid, view-write, clear-IsValid,
  view-clear, taken_fits, taken_beyond,
}
use andsifr.Descriptor.View.{taken, taken-le-one, taken-grown, test_bit-bit}

module _ {ℓ} {Item : Type ℓ} (blank : Item) where
  room_for-IsValid :
      (t : Table Item) (key : ℕ) → IsValid blank t → IsValid blank (room_for blank t key)
  unfolding room_for
  room_for-IsValid t key v = elim (Bool-cases (ltb 0 (key / 64 + 1 - length t.masks))) [
    | inl short ↦ rw short (grow-IsValid blank t _ v)
    | inr enough ↦ rw enough v
  ]

  room_for_fits :
      (t : Table Item) (key : ℕ) → IsValid blank t → key < length (room_for blank t key).items
  unfolding room_for grow
  room_for_fits t key v = elim (Bool-cases (ltb 0 (key / 64 + 1 - length t.masks))) [
    | inl short ↦ rw short (
        omega (
          tests,
          short,
          v.sized,
          length-append t.items (replicate ((key / 64 + 1 - length t.masks) * 64) blank),
          length-replicate ((key / 64 + 1 - length t.masks) * 64) blank,
        ))
    | inr enough ↦
        let le : key / 64 + 1 - length t.masks ≤ 0 = ground arith in
        rw enough (omega (arith, v.sized))
  ]

  view-room_for :
      (t : Table Item) (key j : ℕ) → view blank (room_for blank t key) j ≡ view blank t j
  unfolding room_for
  view-room_for t key j = elim (Bool-cases (ltb 0 (key / 64 + 1 - length t.masks))) [
    | inl short ↦ rw short (view-grow blank t _ j)
    | inr enough ↦ rw enough
  ]

  taken-room_for :
      (t : Table Item) (key j : ℕ) → taken (room_for blank t key).masks j ≡ taken t.masks j
  unfolding room_for grow
  taken-room_for t key j = elim (Bool-cases (ltb 0 (key / 64 + 1 - length t.masks))) [
    | inl short ↦ rw short (taken-grown t.masks _ j)
    | inr enough ↦ rw enough
  ]

  len-room_for : (t : Table Item) (key : ℕ) → len (room_for blank t key) ≡ len t
  unfolding room_for
  len-room_for t key = elim (Bool-cases (ltb 0 (key / 64 + 1 - length t.masks))) [
    | inl short ↦ rw short (len-grow blank t _)
    | inr enough ↦ rw enough
  ]

  insert_at-write :
      (t : Table Item) (key : ℕ) (item : Item)
      → IsValid blank t
      → insert_at blank t item (pos key) ≡ ok (write blank (room_for blank t key) key item, true)
  unfolding insert_at write
  insert_at-write t key item v =
      let t' : Table Item = room_for blank t key in
      let fits : key < length t'.items = room_for_fits t key v in
      let v' : IsValid blank t' = room_for-IsValid t key v in
      let at : key / 64 < length t'.masks = omega (arith, v'.sized) in
      ground (
        arith,
        index_in_range t'.masks (key / 64) 0 at,
        assign_in_range t'.masks (key / 64) (bit_or (get_or t'.masks (key / 64) 0) (2 ^ (key % 64)))
            at,
        assign_in_range t'.items key item fits,
      )

  -- On a valid table InsertAt of a non-negative key succeeds, growing the table if need be; the
  -- new table is valid, differs in the entry under that key alone, and Len goes up by one unless
  -- the key was taken.
  pub insert_at_lem :
      (t : Table Item) (key : ℕ) (item : Item)
      → IsValid blank t
      → (t' : Table Item) × (insert_at blank t item (pos key) ≡ ok (t', true))
        × IsValid blank t'
        × ((j : ℕ) → view blank t' j ≡ (if key == j then some item else view blank t j))
        × (len t' + taken t.masks key ≡ len t + 1)
  insert_at_lem t key item v =
      let t' : Table Item = room_for blank t key in
      let v' : IsValid blank t' = room_for-IsValid t key v in
      let fits : key < length t'.items = room_for_fits t key v in
      (
        write blank t' key item,
        insert_at-write t key item v,
        write-IsValid blank t' key item v' fits,
        λ j. rw (view-write blank t' key j item v' fits, view-room_for t key j),
        omega (
          arith,
          len-write blank t' key item (omega (arith, v'.sized)),
          taken-room_for t key key,
          len-room_for t key,
        ),
      )

  delete-clear :
      (t : Table Item) (key : ℕ)
      → IsValid blank t
      → delete blank t (pos key) ≡ ok (if taken t.masks key == 1 then clear blank t key else t)
  unfolding delete clear taken
  delete-clear t key v = elim (Bool-cases (ltb (key / 64) (length t.masks))) [
    | inl inside ↦
        let at : key / 64 < length t.masks = ground arith in
        ground (
          arith,
          v.sized,
          index_in_range t.masks (key / 64) 0 at,
          assign_in_range t.masks (key / 64)
              (bit_and (get_or t.masks (key / 64) 0) (complement (2 ^ (key % 64)))) at,
          assign_in_range t.items key blank (omega (arith, v.sized)),
          test_bit-bit (get_or t.masks (key / 64) 0) (key % 64),
        )
    | inr outside ↦
        let far : length t.masks * 64 ≤ key = ground arith in
        rw outside (ground (arith, taken_beyond blank t.masks key far))
  ]

  -- On a valid table Delete of a non-negative key does not panic; the new table is valid, differs
  -- in the entry under that key alone, which is empty, and Len goes down by one exactly if the
  -- key was taken.
  pub delete_lem :
      (t : Table Item) (key : ℕ)
      → IsValid blank t
      → (t' : Table Item) × (delete blank t (pos key) ≡ ok t')
        × IsValid blank t'
        × ((j : ℕ) → view blank t' j ≡ (if key == j then none else view blank t j))
        × (len t' + taken t.masks key ≡ len t)
  unfolding view
  delete_lem t key v = elim (Bool-cases (taken t.masks key == 1)) [
    | inl there ↦ (
      clear blank t key,
      rw (delete-clear t key v, there),
      clear-IsValid blank t key v,
      λ j. view-clear blank t key j v (taken_fits blank t key v there),
      len-clear blank t key (omega (arith, v.sized, taken_fits blank t key v there)),
    )
    | inr free ↦ (
      t,
      rw (delete-clear t key v, free),
      v,
      λ j. ground arith,
      ground (arith, taken-le-one t.masks key),
    )
  ]
