-- ===== src/Descriptor/Map.antt =====
-- The partial map that a table stands for: how a lookup reads it, and what writing or clearing one
-- entry, growing and resetting do to it.
use andsifr.Common.{
  ℕ, zero, suc, ◌*◌, ◌/◌, ◌%◌, ◌^◌, ◌≤◌, ◌<◌, ◌≡◌, ap, ◌∙◌, inl, inr, Bool, true, false, Option,
  none, some, List, ltb, ◌==◌, if◌then◌else◌, Bool-cases, length, set, get_or, replicate, All,
  All-get_or, get_or-set, get_or_beyond, length-append, length-replicate, length-set, All-append,
  All-set, get_or-replicate, get_or-append_replicate, arith, bit_and, bit_or,
}
use andsifr.Common.Int.{pos}
use andsifr.Common.Outcome.{ok, index_in_range}
use andsifr.Common.Bits.{bit, bit-zero, and-lt, or-lt}
use andsifr.Descriptor.{Table, complement, grow, lookup, reset}
use andsifr.Descriptor.View.{
  taken, taken-set_bit, taken-clear_bit, taken-grown, test_bit-bit, pow-lt_word,
}

module _ {ℓ} {Item : Type ℓ} (blank : Item) where
  -- The items slice has 64 places for each mask, and each mask is a uint64.
  pub record IsValid (t : Table Item) : Type 0 where
    pub sized : length t.items ≡ length t.masks * 64
    pub words : All (λ m. m < 2 ^ 64) t.masks

  -- The item under `key`, if there is one.
  unfoldable pub view : Table Item → ℕ → Option Item
  view t key = if taken t.masks key == 1 then some (get_or t.items key blank) else none

  -- What Lookup answers for an entry of the map.
  abbrev pub answer : Option Item → Item × Bool
  answer none = (blank, false)
  answer (some item) = (item, true)

  pub taken_beyond : (masks : List ℕ) (key : ℕ) → length masks * 64 ≤ key → taken masks key ≡ 0
  unfolding taken
  taken_beyond masks key h =
      ap (λ m. bit m (key % 64)) (get_or_beyond masks (key / 64) 0 (omega arith)) ∙ bit-zero _

  -- On a valid table Lookup of any non-negative key does not panic and answers what the partial
  -- map that the table stands for says.
  pub lookup-view :
      (t : Table Item) (key : ℕ) → IsValid t → lookup blank t (pos key) ≡ ok (answer (view t key))
  unfolding lookup view taken
  lookup-view t key v = elim (Bool-cases (ltb key (length t.items))) [
    | inl inside ↦ ground (
      arith,
      index_in_range t.masks (key / 64) 0 (ground arith),
      index_in_range t.items key blank (ground arith),
      test_bit-bit (get_or t.masks (key / 64) 0) (key % 64),
    )
    | inr outside ↦
        let far : length t.masks * 64 ≤ key = ground (arith, v.sized) in
        rw outside (ground (arith, taken_beyond t.masks key far))
  ]

  pub grow-IsValid : (t : Table Item) (n : ℕ) → IsValid t → IsValid (grow blank t n)
  unfolding grow
  grow-IsValid t n v = record {
    sized = omega (
      arith,
      length-append t.items (replicate (n * 64) blank),
      length-replicate (n * 64) blank,
      length-append t.masks (replicate n 0),
      length-replicate {A = ℕ} n 0,
      v.sized,
    );
    words = All-append (λ m. m < 2 ^ 64) t.masks (replicate n 0) v.words (All-zeros n);
  }
    where
      All-zeros : (n : ℕ) → All (λ m. m < 2 ^ 64) (replicate n 0)
      All-zeros zero = tt
      All-zeros (suc n) = (omega arith, All-zeros n)

  -- Growing adds no entry.
  pub view-grow : (t : Table Item) (n key : ℕ) → view (grow blank t n) key ≡ view t key
  unfolding view grow
  view-grow t n key =
      ground (arith, taken-grown t.masks n key, get_or-append_replicate t.items (n * 64) key blank)

  -- An entry is written where there is room for its key.
  unfoldable pub write : Table Item → ℕ → Item → Table Item
  write t key item = record {
    masks = set t.masks (key / 64) (bit_or (get_or t.masks (key / 64) 0) (2 ^ (key % 64)));
    items = set t.items key item;
  }

  pub write-IsValid :
      (t : Table Item) (key : ℕ) (item : Item)
      → IsValid t
      → key < length t.items
      → IsValid (write t key item)
  unfolding write
  write-IsValid t key item v fits = record {
    sized = omega (arith, length-set t.items key item, length-set t.masks (key / 64) _, v.sized);
    words =
        All-set (λ m. m < 2 ^ 64) t.masks (key / 64) _ v.words
          (or-lt 64 _ _ (All-get_or (λ m. m < 2 ^ 64) t.masks (key / 64) 0 v.words (omega arith))
            (pow-lt_word (key % 64) (omega arith)));
  }

  pub view-write :
      (t : Table Item) (key j : ℕ) (item : Item)
      → IsValid t
      → key < length t.items
      → view (write t key item) j ≡ (if key == j then some item else view t j)
  unfolding view write
  view-write t key j item v fits = ground (
    arith,
    taken-set_bit t.masks key j (omega (arith, v.sized)),
    get_or-set t.items key j item blank fits,
  )

  unfoldable pub clear : Table Item → ℕ → Table Item
  clear t key = record {
    masks =
        set t.masks (key / 64)
          (bit_and (get_or t.masks (key / 64) 0) (complement (2 ^ (key % 64))));
    items = set t.items key blank;
  }

  pub clear-IsValid : (t : Table Item) (key : ℕ) → IsValid t → IsValid (clear t key)
  unfolding clear
  clear-IsValid t key v = record {
    sized = omega (arith, length-set t.items key blank, length-set t.masks (key / 64) _, v.sized);
    words =
        All-set (λ m. m < 2 ^ 64) t.masks (key / 64) _ v.words
          (and-lt 64 _ _ (All-get_or (λ m. m < 2 ^ 64) t.masks (key / 64) 0 v.words (omega arith)));
  }

  pub view-clear :
      (t : Table Item) (key j : ℕ)
      → IsValid t
      → key < length t.items
      → view (clear t key) j ≡ (if key == j then none else view t j)
  unfolding view clear
  view-clear t key j v fits = ground (
    arith,
    taken-clear_bit t.masks key j (omega (arith, v.sized)),
    get_or-set t.items key j blank blank fits,
  )

  pub taken_fits :
      (t : Table Item) (key : ℕ)
      → IsValid t
      → (taken t.masks key == 1) ≡ true
      → key < length t.items
  taken_fits t key v there = elim (Bool-cases (ltb key (length t.items))) [
    | inl inside ↦ ground arith
    | inr outside ↦
        let far : length t.masks * 64 ≤ key = ground (arith, v.sized) in
        absurd (ground (arith, taken_beyond t.masks key far))
  ]

  -- Reset empties the table and keeps its size.
  pub view-reset : (t : Table Item) (key : ℕ) → view (reset blank t) key ≡ none
  unfolding view reset taken
  view-reset t key =
      ground (arith, get_or-replicate {A = ℕ} (length t.masks) (key / 64) 0, bit-zero (key % 64))
