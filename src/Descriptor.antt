-- ===== src/Descriptor.antt =====
-- internal/descriptor/table.go: the table of file descriptors, a bit mask for each 64 items.
-- A key is a Go int32, written as an integer; the zero value of `Item` is the parameter `blank`.
pub mod View
pub mod Map
pub mod Update
pub mod Insert
pub mod Count
pub mod Range
mod Tests
use andsifr.Common.{
  ℕ, zero, suc, ◌+◌, ◌-◌, ◌*◌, ◌/◌, ◌%◌, ◌^◌, Bool, true, false, not, Option, none, some, List, [],
  ◌∷◌, ◌++◌, ltb, ◌==◌, if◌then◌else◌, length, drop, replicate, bit_and, bit_or,
}
use andsifr.Common.Int.{ℤ, pos, negsuc}
use andsifr.Common.Outcome.{Outcome, ok, panic, stuck, ◌>>=◌, index, assign}

pub record Table {ℓ} (Item : Type ℓ) : Type ℓ where
  pub masks : List ℕ
  pub items : List Item

-- math/bits on the `n` low bits of a word.
unfoldable pub ones_count : ℕ → ℕ → ℕ
ones_count zero x = 0
ones_count (suc n) x = ones_count n (x / 2) + x % 2

unfoldable pub trailing_zeros : ℕ → ℕ → ℕ
trailing_zeros zero x = 0
trailing_zeros (suc n) x = if x % 2 == 1 then 0 else suc (trailing_zeros n (x / 2))

-- `^mask` of a uint64.
abbrev pub complement : ℕ → ℕ
complement mask = 2 ^ 64 - 1 - mask

-- `mask & (1 << shift) != 0`.
unfoldable pub test_bit : ℕ → ℕ → Bool
test_bit mask shift = not (bit_and mask (2 ^ shift) == 0)

-- The conversion of a count to the key type.
unfoldable pub to_int32 : ℕ → ℤ
to_int32 n = let k = n % 2 ^ 32 in if ltb k (2 ^ 31) then pos k else negsuc (2 ^ 32 - 1 - k)

-- The loop of Insert: the first mask that is not full, with its place in the whole slice.
unfoldable pub find_free : List ℕ → ℕ → Option (ℕ × ℕ)
find_free [] i = none
find_free (mask ∷ rest) i = if complement mask == 0 then find_free rest (i + 1) else some (i, mask)

unfoldable pub count_masks : List ℕ → ℕ
count_masks [] = 0
count_masks (mask ∷ rest) = ones_count 64 mask + count_masks rest

module _ {ℓ} {Item : Type ℓ} where
  unfoldable pub len : Table Item → ℕ
  len t = count_masks t.masks

module _ {ℓ} {Item : Type ℓ} (blank : Item) where
  -- What `slices.Grow` adds reads as zero: the slices of a table are never cut.
  unfoldable pub grow : Table Item → ℕ → Table Item
  grow t n = record {
    masks = t.masks ++ replicate n 0;
    items = t.items ++ replicate (n * 64) blank;
  }

  -- The body of the `if` in Insert's loop; `key` is negative once 2^31 items are stored.
  unfoldable pub place : Table Item → Item → ℕ → ℕ → Outcome (Table Item × ℤ × Bool)
  place t item at mask =
      let shift = trailing_zeros 64 (complement mask) in
      elim (to_int32 (at * 64 + shift)) [
        | negsuc k ↦ panic
        | pos key ↦ do
          items ← assign t.items key item
          masks ← assign t.masks at (bit_or mask (2 ^ shift))
          ok (record { masks = masks; items = items }, pos key, true)
      ]

  -- `goto insert`: each round that finds no place grows the table and looks at the new part.
  unfoldable pub insert_loop : ℕ → ℕ → Table Item → Item → Outcome (Table Item × ℤ × Bool)
  insert_loop zero offset t item = stuck
  insert_loop (suc fuel) offset t item = elim (find_free (drop offset t.masks) offset) [
    | some (at, mask) ↦ place t item at mask
    | none ↦ insert_loop fuel (length t.masks) (grow t 1) item
  ]

  unfoldable pub insert : Table Item → Item → Outcome (Table Item × ℤ × Bool)
  insert t item = insert_loop 2 0 t item

  unfoldable pub lookup : Table Item → ℤ → Outcome (Item × Bool)
  lookup t (negsuc k) = ok (blank, false)
  lookup t (pos key) =
      if ltb key (length t.items)
      then (do
        mask ← index t.masks (key / 64)
        if test_bit mask (key % 64)
            then (do item ← index t.items key; ok (item, true))
            else ok (blank, false))
      else ok (blank, false)

  -- `if diff := int(index) - len(t.masks) + 1; diff > 0 { t.grow(diff) }`
  unfoldable pub room_for : Table Item → ℕ → Table Item
  room_for t key = let diff = key / 64 + 1 - length t.masks in if ltb 0 diff then grow t diff else t

  unfoldable pub insert_at : Table Item → Item → ℤ → Outcome (Table Item × Bool)
  insert_at t item (negsuc k) = ok (t, false)
  insert_at t item (pos key) =
      let t' = room_for t key in
      do
        mask ← index t'.masks (key / 64)
        masks ← assign t'.masks (key / 64) (bit_or mask (2 ^ (key % 64)))
        items ← assign t'.items key item
        ok (record { masks = masks; items = items }, true)

  unfoldable pub delete : Table Item → ℤ → Outcome (Table Item)
  delete t (negsuc k) = ok t
  delete t (pos key) =
      let at = key / 64 in
      let shift = key % 64 in
      if ltb at (length t.masks)
      then (do
        mask ← index t.masks at
        if test_bit mask shift
            then (do
              items ← assign t.items key blank
              masks ← assign t.masks at (bit_and mask (complement (2 ^ shift)))
              ok (record { masks = masks; items = items }))
            else ok t)
      else ok t

  unfoldable pub reset : Table Item → Table Item
  reset t = record {
    masks = replicate (length t.masks) 0;
    items = replicate (length t.items) blank;
  }

-- The calls that Range makes: `f` answers whether to go on, and has a state of its own; it does not
-- touch the table.
module _ {ℓ κ} {Item : Type ℓ} {S : Type κ} (items : List Item) (f : ℤ → Item → S → Bool × S) where
  -- The loop over `j` for one mask; the result says whether Range goes on.
  unfoldable pub range_bits : ℕ → ℕ → ℕ → ℕ → S → Outcome (Bool × S)
  range_bits zero j i mask s = ok (true, s)
  range_bits (suc n) j i mask s =
      let rest = λ (s' : S). range_bits n (j + 1) i mask s' in
      if test_bit mask j
      then elim (to_int32 (i * 64 + j)) [
        | negsuc k ↦ panic
        | pos key ↦ do
          item ← index items key
          let (more, s') = f (pos key) item s
          if more then rest s' else ok (false, s')
      ]
      else rest s

  unfoldable pub range_masks : List ℕ → ℕ → S → Outcome S
  range_masks [] i s = ok s
  range_masks (mask ∷ masks) i s =
      let rest = λ (s' : S). range_masks masks (i + 1) s' in
      if mask == 0
      then rest s
      else (do (more, s') ← range_bits 64 0 i mask s; if more then rest s' else ok s')

unfoldable pub range {ℓ κ} :
    {Item : Type ℓ} {S : Type κ} → Table Item → (ℤ → Item → S → Bool × S) → S → Outcome S
range t f s = range_masks t.items f t.masks 0 s
