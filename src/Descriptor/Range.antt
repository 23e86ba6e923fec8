-- ===== src/Descriptor/Range.antt =====
-- Range visits the entries in the order of their keys, and stops where the callback says so.
use andsifr.Common.{
  ℕ, zero, suc, ◌+◌, ◌*◌, ◌/◌, ◌%◌, ◌^◌, ◌≤◌, ◌<◌, ◌≡◌, refl, sym, ap, subst, ◌∙◌, inl, inr, Bool,
  true, false, Option, none, some, List, [], ◌∷◌, ◌++◌, ◌==◌, if◌then◌else◌, Bool-cases, length,
  get_or, arith,
}
use andsifr.Common.Int.{ℤ, pos}
use andsifr.Common.Outcome.{ok, index_in_range}
use andsifr.Common.Bits.{bit-zero}
use andsifr.Descriptor.{Table, test_bit, range_bits, range_masks, range}
use andsifr.Descriptor.View.{taken, test_bit-bit}
use andsifr.Descriptor.Map.{IsValid, view}
use native.Mathlib.Nat.{add_assoc, add-zero, zero-add}
use andsifr.Descriptor.Insert.{to_int32_small}

-- The callback over a list of entries, until it says to stop.
pub visit {ℓ κ} :
    {Item : Type ℓ} {S : Type κ} → (ℤ → Item → S → Bool × S) → List (ℤ × Item) → S → Bool × S
visit f [] s = (true, s)
visit f ((k, a) ∷ rest) s =
    let (more, s') = f k a s in if more then visit f rest s' else (false, s')

visit-append {ℓ κ} :
    {Item : Type ℓ} {S : Type κ} (f : ℤ → Item → S → Bool × S) (xs ys : List (ℤ × Item)) (s : S)
    → visit f (xs ++ ys) s
      ≡ (let (more, s') = visit f xs s in if more then visit f ys s' else (false, s'))
unfolding visit
visit-append f [] ys s = refl
visit-append f ((k, a) ∷ xs) ys s = elim (Bool-cases (f k a s).0) [
  | inl more ↦ rw (more, visit) (visit-append f xs ys (f k a s).1)
  | inr stop ↦ rw (stop, visit)
]

module _ {ℓ} {Item : Type ℓ} (blank : Item) (t : Table Item) where
  -- The entries under the `n` keys from `j` on.
  pub entries : ℕ → ℕ → List (ℤ × Item)
  entries zero j = []
  entries (suc n) j =
      let rest = entries n (j + 1) in
      elim (view blank t j) [ none ↦ rest | some item ↦ (pos j, item) ∷ rest ]

  entries-add : (a b j : ℕ) → entries (a + b) j ≡ entries a j ++ entries b (j + a)
  unfolding entries
  entries-add zero b j =
      let e : 0 + b ≡ b = omega arith in let f : j + 0 ≡ j = omega arith in rw (e, f)
  entries-add (suc a) b j =
      let e : suc a + b ≡ suc (a + b) = omega arith in
      let f : j + suc a ≡ j + 1 + a = omega arith in
      rw (e, f) (under (entries-add a b (j + 1)) (view blank t j))
    where
      under :
          entries (a + b) (j + 1) ≡ entries a (j + 1) ++ entries b (j + 1 + a)
          → (o : Option Item)
          → (elim o [
            | none ↦ entries (a + b) (j + 1)
            | some item ↦ (pos j, item) ∷ entries (a + b) (j + 1)
          ])
            ≡ (elim o [ none ↦ entries a (j + 1) | some item ↦ (pos j, item) ∷ entries a (j + 1) ])
              ++ entries b (j + 1 + a)
      under ih none = ih
      under ih (some item) = ap (λ l. (pos j, item) ∷ l) ih

  entries_free : (n j : ℕ) → ((i : ℕ) → j ≤ i → i < j + n → taken t.masks i ≡ 0) → entries n j ≡ []
  unfolding entries view
  entries_free zero j h = refl
  entries_free (suc n) j h = ground (
    arith,
    h j (omega arith) (omega arith),
    entries_free n (j + 1) (λ i lo hi. h i (omega arith) (omega arith)),
  )

  entries_taken :
      (n k : ℕ)
      → (taken t.masks k == 1) ≡ true
      → entries (suc n) k ≡ (pos k, get_or t.items k blank) ∷ entries n (k + 1)
  unfolding entries
  entries_taken n k there =
      let e : view blank t k ≡ some (get_or t.items k blank) = unfold view in rw there in
      rw (e, entries)

  entries_skip : (n k : ℕ) → (taken t.masks k == 1) ≡ false → entries (suc n) k ≡ entries n (k + 1)
  unfolding entries
  entries_skip n k free = let e : view blank t k ≡ none = unfold view in rw free in rw (e, entries)

  module _ {κ} {S : Type κ} (f : ℤ → Item → S → Bool × S) (v : IsValid blank t)
      (small : length t.masks * 64 ≤ 2 ^ 31) where
    -- One key, given what the rest of the loop does.
    step :
        (n k j i mask : ℕ) (s : S)
        → k ≡ i * 64 + j
        → test_bit mask j ≡ (taken t.masks k == 1)
        → k < length t.items
        → ((s' : S)
            → range_bits t.items f n (j + 1) i mask s' ≡ ok (visit f (entries n (k + 1)) s'))
        → range_bits t.items f (suc n) j i mask s ≡ ok (visit f (entries (suc n) k) s)
    unfolding range_bits visit
    step n k j i mask s e tb lt next = elim (Bool-cases (taken t.masks k == 1)) [
      | inl there ↦
          let a : Item = get_or t.items k blank in
          rw
            (
              ← e,
              tb,
              there,
              to_int32_small k (omega (arith, v.sized)),
              index_in_range t.items k blank lt,
              entries_taken n k there,
            )
            (elim (Bool-cases (f (pos k) a s).0) [
              | inl more ↦ rw more (next _)
              | inr stop ↦ rw stop
            ])
      | inr free ↦ rw (tb, free, entries_skip n k free) (next s)
    ]

    tb :
        (i j mask : ℕ)
        → i < length t.masks
        → j < 64
        → get_or t.masks i 0 ≡ mask
        → test_bit mask j ≡ (taken t.masks (i * 64 + j) == 1)
    unfolding taken
    tb i j mask inside lt here =
        let e : (i * 64 + j) / 64 ≡ i = omega arith in
        let e' : (i * 64 + j) % 64 ≡ j = omega arith in rw (e, e', here) (test_bit-bit mask j)

    range_bits_lem :
        (n j i mask : ℕ) (s : S)
        → j + n ≡ 64
        → i < length t.masks
        → get_or t.masks i 0 ≡ mask
        → range_bits t.items f n j i mask s ≡ ok (visit f (entries n (i * 64 + j)) s)
    unfolding range_bits visit entries
    range_bits_lem zero j i mask s e inside here = refl
    range_bits_lem (suc n) j i mask s e inside here =
        let k : ℕ = i * 64 + j in
        let next : (s' : S)
            → range_bits t.items f n (j + 1) i mask s' ≡ ok (visit f (entries n (k + 1)) s') =
          λ s'.
            subst (λ m. range_bits t.items f n (j + 1) i mask s' ≡ ok (visit f (entries n m) s'))
              (sym (add_assoc (i * 64) j 1))
              (range_bits_lem n (j + 1) i mask s' (omega arith) inside here) in
        let lt : k < length t.items = omega (arith, v.sized) in
        step n k j i mask s refl (tb i j mask inside (omega arith) here) lt next

    entries-split :
        (n i : ℕ)
        → entries (suc n * 64) (i * 64) ≡ entries 64 (i * 64) ++ entries (n * 64) ((i + 1) * 64)
    entries-split n i =
        let e : suc n * 64 ≡ 64 + n * 64 = omega arith in
        let e' : (i + 1) * 64 ≡ i * 64 + 64 = omega arith in
        rw (e, e') (entries-add 64 (n * 64) (i * 64))

    empty_mask : (i m : ℕ) → get_or t.masks i 0 ≡ m → (m == 0) ≡ true → entries 64 (i * 64) ≡ []
    unfolding taken
    empty_mask i m here none_set = entries_free 64 (i * 64) λ k lo hi.
        let e : k / 64 ≡ i = omega arith in
        let z : m ≡ 0 = ground arith in rw (e, here, z) (bit-zero (k % 64))

    bits_of_mask :
        (i m : ℕ) (s : S)
        → i < length t.masks
        → get_or t.masks i 0 ≡ m
        → range_bits t.items f 64 0 i m s ≡ ok (visit f (entries 64 (i * 64)) s)
    bits_of_mask i m s inside here =
        range_bits_lem 64 0 i m s (omega arith) inside here
        ∙ ap (λ k. ok (visit f (entries 64 k) s)) (add-zero (i * 64))

    -- The masks from place `i` on.
    range_masks_lem :
        (ms : List ℕ) (i : ℕ) (s : S)
        → i + length ms ≡ length t.masks
        → ((p : ℕ) → get_or t.masks (i + p) 0 ≡ get_or ms p 0)
        → range_masks t.items f ms i s ≡ ok (visit f (entries (length ms * 64) (i * 64)) s).1
    unfolding range_masks
    range_masks_lem [] i s e same = unfold visit entries in refl
    range_masks_lem (m ∷ ms) i s e same =
        let here : get_or t.masks i 0 ≡ m =
          ap (λ k. get_or t.masks k 0) (sym (add-zero i)) ∙ same 0 in
        let next : (s' : S)
            → range_masks t.items f ms (i + 1) s'
              ≡ ok (visit f (entries (length ms * 64) ((i + 1) * 64)) s').1 =
          λ s'.
            range_masks_lem ms (i + 1) s' (omega arith)
              (λ p. ap (λ k. get_or t.masks k 0) (shift i p) ∙ same (suc p)) in
        elim (Bool-cases (m == 0)) [
          | inl none_set ↦
              rw (none_set, entries-split (length ms) i, empty_mask i m here none_set) (next s)
          | inr some_set ↦
              rw
                (
                  some_set,
                  entries-split (length ms) i,
                  bits_of_mask i m s (omega arith) here,
                  visit-append f (entries 64 (i * 64)) (entries (length ms * 64) ((i + 1) * 64)) s,
                )
                (elim (Bool-cases (visit f (entries 64 (i * 64)) s).0) [
                  | inl more ↦ rw more (next _)
                  | inr stop ↦ rw stop
                ])
        ]
      where
        shift : (i p : ℕ) → i + 1 + p ≡ i + suc p
        shift i p = omega arith

  -- On a valid table of at most 2^31 places Range calls back for each entry in the order of the
  -- keys, until the callback answers false, and returns the callback's state.
  pub range_lem {κ} :
      {S : Type κ} (f : ℤ → Item → S → Bool × S) (s : S)
      → IsValid blank t
      → length t.masks * 64 ≤ 2 ^ 31
      → range t f s ≡ ok (visit f (entries (length t.masks * 64) 0) s).1
  unfolding range
  range_lem f s v small =
      range_masks_lem f v small t.masks 0 s (omega arith)
        (λ p. ap (λ k. get_or t.masks k 0) (zero-add p))
