-- ===== src/Descriptor/Insert.antt =====
-- Insert takes the lowest free key, and its `goto` loop ends.
use andsifr.Common.{
  ℕ, zero, suc, ◌+◌, ◌-◌, ◌*◌, ◌/◌, ◌%◌, ◌^◌, ◌≤◌, ◌<◌, ◌≡◌, refl, sym, ap, subst, ◌∙◌, ◌≢◌, inl,
  inr, Bool, true, false, Option, none, some, List, [], ◌∷◌, ◌++◌, ltb, ◌==◌, if◌then◌else◌,
  Bool-cases, length, get_or, drop, replicate, All, All-get_or, length-append, drop-append_length,
  get_or-append_length, arith, bit_or,
}
use andsifr.Common.Int.{ℤ, pos}
use andsifr.Common.Outcome.{Outcome, ok, assign_in_range}
use andsifr.Common.Bits.{bit, bit-zero, bit-complement}
use andsifr.Descriptor.{
  Table, trailing_zeros, complement, to_int32, find_free, grow, place, insert_loop, insert, len,
}
use andsifr.Descriptor.Count.{len-write, len-grow}
use andsifr.Descriptor.View.{taken, taken-grown}
use andsifr.Descriptor.Map.{
  IsValid, view, grow-IsValid, view-grow, write, write-IsValid, view-write,
}
use native.Mathlib.Nat.{pow-suc}
use Prim.Native.Nat.add

-- The lowest bit that is set.
trailing_zeros_lem :
    (n x : ℕ)
    → 0 < x
    → x < 2 ^ n
    → (trailing_zeros n x < n)
      × (bit x (trailing_zeros n x) ≡ 1)
      × ((t : ℕ) → t < trailing_zeros n x → bit x t ≡ 0)
unfolding trailing_zeros bit
trailing_zeros_lem zero x h k = absurd (omega arith)
trailing_zeros_lem (suc n) x h k = elim (Bool-cases (x % 2 == 1)) [
  | inl odd ↦ rw odd (omega arith, ground arith, λ t lt. absurd (omega arith))
  | inr even ↦
      let ih = trailing_zeros_lem n (x / 2) (ground arith) (omega (arith, pow-suc 2 n)) in
      rw even (omega (arith, ih.0), ih.1, below (trailing_zeros n (x / 2)) (ground arith) ih.2)
]
  where
    below :
        (z : ℕ)
        → x % 2 ≡ 0
        → ((t : ℕ) → t < z → bit (x / 2) t ≡ 0)
        → (t : ℕ) → t < suc z
        → bit x t ≡ 0
    below z e ih zero lt = e
    below z e ih (suc t) lt = ih t (omega arith)

-- `TrailingZeros64(^mask)` is the lowest bit that is clear.
lowest_clear :
    (mask : ℕ)
    → mask < 2 ^ 64
    → (complement mask == 0) ≡ false
    → let s = trailing_zeros 64 (complement mask) in
      (s < 64) × (bit mask s ≡ 0) × ((t : ℕ) → t < s → bit mask t ≡ 1)
lowest_clear mask fits free =
    let s = trailing_zeros 64 (complement mask) in
    let low = trailing_zeros_lem 64 (complement mask) (ground arith) (omega arith) in
    (
      low.0,
      omega (arith, low.1, bit-complement 64 s mask fits low.0),
      λ t lt.
          omega (arith, low.2 t lt, low.0, bit-complement 64 t mask fits (omega (arith, low.0))),
    )

full-bit : (mask t : ℕ) → mask < 2 ^ 64 → (complement mask == 0) ≡ true → t < 64 → bit mask t ≡ 1
full-bit mask t fits full lt =
    let e : complement mask ≡ 0 = ground arith in
    omega (arith, bit-complement 64 t mask fits lt, ap (λ m. bit m t) e, bit-zero t)

-- `key` is free and every key below it is taken.
record IsLowest (masks : List ℕ) (key : ℕ) : Type 0 where
  room : key < length masks * 64
  free : taken masks key ≡ 0
  below : (j : ℕ) → j < key → taken masks j ≡ 1

taken-cons_low : (m : ℕ) (ms : List ℕ) (j : ℕ) → j < 64 → taken (m ∷ ms) j ≡ bit m j
unfolding taken
taken-cons_low m ms j h =
    let first : j / 64 ≡ 0 = omega arith in let same : j % 64 ≡ j = omega arith in rw (first, same)

taken-cons_high : (m : ℕ) (ms : List ℕ) (j : ℕ) → 64 ≤ j → taken (m ∷ ms) j ≡ taken ms (j - 64)
unfolding taken
taken-cons_high m ms j h =
    let next : j / 64 ≡ suc ((j - 64) / 64) = omega arith in
    let same : j % 64 ≡ (j - 64) % 64 = omega arith in rw (next, same)

-- What the loop over the masks finds, from place `i` of the whole slice on.
abbrev Finds : List ℕ → ℕ → Option (ℕ × ℕ) → Type 0
Finds masks i none = (j : ℕ) → j < length masks * 64 → taken masks j ≡ 1
Finds masks i (some (at, mask)) =
    (p : ℕ) × (at ≡ i + p)
    × (p < length masks)
    × (get_or masks p 0 ≡ mask)
    × ((complement mask == 0) ≡ false)
    × ((j : ℕ) → j < p * 64 → taken masks j ≡ 1)

find_free-Finds :
    (masks : List ℕ) (i : ℕ) → All (λ m. m < 2 ^ 64) masks → Finds masks i (find_free masks i)
unfolding find_free
find_free-Finds [] i w = λ j h. absurd (omega arith)
find_free-Finds (m ∷ ms) i w = elim (Bool-cases (complement m == 0)) [
  | inl full ↦ rw full (later (find_free ms (i + 1)) (find_free-Finds ms (i + 1) w.1) full)
  | inr free ↦ rw free (0, omega arith, omega arith, refl, free, λ j h. absurd (omega arith))
]
  where
    through :
        (n : ℕ)
        → (complement m == 0) ≡ true
        → ((j : ℕ) → j < n * 64 → taken ms j ≡ 1)
        → (j : ℕ) → j < suc n * 64
        → taken (m ∷ ms) j ≡ 1
    through n full rest j h = elim (Bool-cases (ltb j 64)) [
      | inl low ↦
          let lt : j < 64 = ground arith in taken-cons_low m ms j lt ∙ full-bit m j w.0 full lt
      | inr high ↦
          let le : 64 ≤ j = ground arith in taken-cons_high m ms j le ∙ rest (j - 64) (omega arith)
    ]

    later :
        (o : Option (ℕ × ℕ)) → Finds ms (i + 1) o → (complement m == 0) ≡ true → Finds (m ∷ ms) i o
    later none f full = through (length ms) full f
    later (some (at, mask)) (p, e, lt, here, free, below) full =
        (suc p, omega arith, omega arith, here, free, through p full below)

-- The place that the loop finds is the lowest free key.
found-IsLowest :
    (masks : List ℕ) (p mask : ℕ)
    → p < length masks
    → get_or masks p 0 ≡ mask
    → mask < 2 ^ 64
    → (complement mask == 0) ≡ false
    → ((j : ℕ) → j < p * 64 → taken masks j ≡ 1)
    → IsLowest masks (p * 64 + trailing_zeros 64 (complement mask))
unfolding taken
found-IsLowest masks p mask inside here fits free below =
    let s = trailing_zeros 64 (complement mask) in
    let low = lowest_clear mask fits free in
    let at_key : bit (get_or masks ((p * 64 + s) / 64) 0) ((p * 64 + s) % 64) ≡ bit mask s =
      at s low.0 in
    record {
      room = omega (arith, low.0);
      free = at_key ∙ low.1;
      below = λ j lt. elim (Bool-cases (ltb j (p * 64))) [
        | inl early ↦ below j (ground arith)
        | inr late ↦
            let le : p * 64 ≤ j = ground arith in
            let e : j ≡ p * 64 + (j - p * 64) = omega arith in
            subst (λ k. bit (get_or masks (k / 64) 0) (k % 64) ≡ 1) (sym e)
              (at (j - p * 64) (omega (arith, low.0)) ∙ low.2 (j - p * 64) (omega arith))
      ];
    }
  where
    at :
        (t : ℕ) → t < 64 → bit (get_or masks ((p * 64 + t) / 64) 0) ((p * 64 + t) % 64) ≡ bit mask t
    at t lt =
        let e : (p * 64 + t) / 64 ≡ p = omega arith in
        let f : (p * 64 + t) % 64 ≡ t = omega arith in rw (e, f, here)

pub to_int32_small : (n : ℕ) → n < 2 ^ 31 → to_int32 n ≡ pos n
unfolding to_int32
to_int32_small n h = ground arith

found_grown :
    (masks : List ℕ) (n : ℕ)
    → find_free (drop (length masks) (masks ++ replicate 1 0)) n ≡ some (n, 0)
unfolding find_free
found_grown masks n = rw (drop-append_length masks (replicate 1 0))

module _ {ℓ} {Item : Type ℓ} (blank : Item) where
  -- What Insert owes its caller.
  pub record Inserted (t : Table Item) (item : Item) (t' : Table Item) (key : ℕ) : Type ℓ where
    pub valid : IsValid blank t'
    pub was_free : view blank t key ≡ none
    pub lowest : (j : ℕ) → j < key → view blank t j ≢ none
    pub counted : len t' ≡ len t + 1
    pub entries : (j : ℕ) → view blank t' j ≡ (if key == j then some item else view blank t j)

  place_lem :
      (t : Table Item) (item : Item) (p mask : ℕ)
      → IsValid blank t
      → p < length t.masks
      → get_or t.masks p 0 ≡ mask
      → (complement mask == 0) ≡ false
      → p * 64 + 64 ≤ 2 ^ 31
      → let key = p * 64 + trailing_zeros 64 (complement mask) in
        place blank t item p mask ≡ ok (write blank t key item, pos key, true)
  unfolding place write
  place_lem t item p mask v inside here free small =
      let fits : mask < 2 ^ 64 =
        subst (λ m. m < 2 ^ 64) here
          (All-get_or (λ m. m < 2 ^ 64) t.masks p 0 v.words (omega arith)) in
      let s = trailing_zeros 64 (complement mask) in
      let lt : s < 64 = (lowest_clear mask fits free).0 in
      let e : (p * 64 + s) / 64 ≡ p = omega arith in
      let f : (p * 64 + s) % 64 ≡ s = omega arith in
      ground (
        arith,
        to_int32_small (p * 64 + s) (omega arith),
        v.sized,
        ap (λ i. get_or t.masks i 0) e,
        assign_in_range t.items (p * 64 + s) item (omega (arith, v.sized)),
        assign_in_range t.masks p (bit_or mask (2 ^ s)) inside,
      )

  found-Inserted :
      (t : Table Item) (item : Item) (p mask : ℕ)
      → IsValid blank t
      → p < length t.masks
      → get_or t.masks p 0 ≡ mask
      → (complement mask == 0) ≡ false
      → ((j : ℕ) → j < p * 64 → taken t.masks j ≡ 1)
      → let key = p * 64 + trailing_zeros 64 (complement mask) in
        Inserted t item (write blank t key item) key
  unfolding view
  found-Inserted t item p mask v inside here free below =
      let fits : mask < 2 ^ 64 =
        subst (λ m. m < 2 ^ 64) here
          (All-get_or (λ m. m < 2 ^ 64) t.masks p 0 v.words (omega arith)) in
      let key = p * 64 + trailing_zeros 64 (complement mask) in
      let low : IsLowest t.masks key = found-IsLowest t.masks p mask inside here fits free below in
      let room : key < length t.items = omega (arith, low.room, v.sized) in
      record {
        valid = write-IsValid blank t key item v room;
        was_free = ground (arith, low.free);
        lowest = λ j lt e. ground (arith, low.below j lt);
        counted = omega (arith, low.free, len-write blank t key item (omega (arith, v.sized)));
        entries = λ j. view-write blank t key j item v room;
      }

  loop_found :
      (fuel offset at mask : ℕ) (t : Table Item) (item : Item)
      → find_free (drop offset t.masks) offset ≡ some (at, mask)
      → insert_loop blank (suc fuel) offset t item ≡ place blank t item at mask
  unfolding insert_loop
  loop_found fuel offset at mask t item e = rw (e, insert_loop)

  loop_full :
      (fuel offset : ℕ) (t : Table Item) (item : Item)
      → find_free (drop offset t.masks) offset ≡ none
      → insert_loop blank (suc fuel) offset t item
        ≡ insert_loop blank fuel (length t.masks) (grow blank t 1) item
  unfolding insert_loop
  loop_full fuel offset t item e = rw (e, insert_loop)

  abbrev Result : Table Item → Item → Outcome (Table Item × ℤ × Bool) → Type ℓ
  Result t item r =
      (t' : Table Item) × (key : ℕ) × (r ≡ ok (t', pos key, true)) × Inserted t item t' key

  -- After a round that found nothing, the new mask has room.
  loop_grown :
      (t : Table Item) (item : Item)
      → IsValid blank t
      → length t.masks * 64 + 64 ≤ 2 ^ 31
      → ((j : ℕ) → j < length t.masks * 64 → taken t.masks j ≡ 1)
      → Result t item (insert_loop blank 1 (length t.masks) (grow blank t 1) item)
  unfolding grow
  loop_grown t item v small full =
      let t' : Table Item = grow blank t 1 in
      let n : ℕ = length t.masks in
      let key : ℕ = n * 64 + trailing_zeros 64 (complement 0) in
      let v' : IsValid blank t' = grow-IsValid blank t 1 v in
      let inside : n < length t'.masks = omega (arith, length-append t.masks (replicate 1 0)) in
      let here : get_or t'.masks n 0 ≡ 0 = get_or-append_length t.masks 0 0 in
      let below : (j : ℕ) → j < n * 64 → taken t'.masks j ≡ 1 =
        λ j lt. taken-grown t.masks 1 j ∙ full j lt in
      let r : Inserted t' item (write blank t' key item) key =
        found-Inserted t' item n 0 v' inside here refl below in
      (
        write blank t' key item,
        key,
        loop_found 0 n n 0 t' item (found_grown t.masks n)
            ∙ place_lem t' item n 0 v' inside here refl small,
        record {
          valid = r.valid;
          was_free = sym (view-grow blank t 1 key) ∙ r.was_free;
          lowest = λ j lt e. r.lowest j lt (view-grow blank t 1 j ∙ e);
          counted = r.counted ∙ ap (λ n. n + 1) (len-grow blank t 1);
          entries = λ j.
              r.entries j ∙ ap (λ o. if key == j then some item else o) (view-grow blank t 1 j);
        },
      )

  insert_lem_from :
      (t : Table Item) (item : Item) (o : Option (ℕ × ℕ))
      → IsValid blank t
      → length t.masks * 64 + 64 ≤ 2 ^ 31
      → Finds t.masks 0 o
      → find_free t.masks 0 ≡ o
      → Result t item (insert blank t item)
  unfolding insert
  insert_lem_from t item none v small full e =
      let (t', key, eq, done) = loop_grown t item v small full in
      (t', key, loop_full 1 0 t item e ∙ eq, done)
  insert_lem_from t item (some (at, mask)) v small (p, e, inside, here, free, below) found =
      let key : ℕ = p * 64 + trailing_zeros 64 (complement mask) in
      (
        write blank t key item,
        key,
        loop_found 1 0 at mask t item found
            ∙ ap (λ a. place blank t item a mask) e
            ∙ ap (λ a. place blank t item a mask) (add.zero p)
            ∙ place_lem t item p mask v inside here free (omega arith),
        found-Inserted t item p mask v inside here free below,
      )

  -- On a valid table of at most 2^31 - 64 places Insert returns (its goto loop ends) with the
  -- lowest free key; the new table is valid, differs from the old in the entry under that key
  -- alone, and Len is one more.
  pub insert_lem :
      (t : Table Item) (item : Item)
      → IsValid blank t
      → length t.masks * 64 + 64 ≤ 2 ^ 31
      → (t' : Table Item) × (key : ℕ) × (insert blank t item ≡ ok (t', pos key, true))
        × Inserted t item t' key
  insert_lem t item v small =
      insert_lem_from t item (find_free t.masks 0) v small (find_free-Finds t.masks 0 v.words) refl
