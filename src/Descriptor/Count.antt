-- ===== src/Descriptor/Count.antt =====
-- Len counts the entries: it goes up by one where Insert or InsertAt takes a free key, and down by
-- one where Delete empties one.
use andsifr.Common.{
  ℕ, zero, suc, ◌+◌, ◌/◌, ◌%◌, ◌^◌, ◌<◌, ◌≡◌, ◌≢◌, refl, ap, List, [], ◌∷◌, ◌++◌, length, set,
  get_or, replicate, arith, bit_and, bit_or,
}
use andsifr.Common.Bits.{bit}
use andsifr.Descriptor.Map.{write, clear}
use andsifr.Descriptor.{Table, grow, ones_count, complement, count_masks, len}
use andsifr.Descriptor.View.{taken, bit-set_bit, bit-clear_bit}

-- The number of set bits among the first `n`.
bits_set : ℕ → (ℕ → ℕ) → ℕ
bits_set zero f = 0
bits_set (suc n) f = bits_set n (λ t. f (suc t)) + f 0

ones_count-bits : (n x : ℕ) → ones_count n x ≡ bits_set n (bit x)
unfolding ones_count bits_set bit
ones_count-bits zero x = refl
ones_count-bits (suc n) x = omega (arith, ones_count-bits n (x / 2))

-- Two words that agree but at one place.
bits_set-but_one :
    (n s : ℕ) (f g : ℕ → ℕ)
    → s < n
    → ((t : ℕ) → t < n → s ≢ t → f t ≡ g t)
    → bits_set n f + g s ≡ bits_set n g + f s
unfolding bits_set
bits_set-but_one zero s f g h e = absurd (omega arith)
bits_set-but_one (suc n) zero f g h e = omega (
  arith,
  same n (λ t. f (suc t)) (λ t. g (suc t))
      (λ t lt. e (suc t) (omega arith) (λ z. absurd (omega arith))),
)
  where
    same : (n : ℕ) (f g : ℕ → ℕ) → ((t : ℕ) → t < n → f t ≡ g t) → bits_set n f ≡ bits_set n g
    same zero f g e = refl
    same (suc n) f g e = omega (
      arith,
      same n (λ t. f (suc t)) (λ t. g (suc t)) (λ t lt. e (suc t) (omega arith)),
      e 0 (omega arith),
    )
bits_set-but_one (suc n) (suc s) f g h e = omega (
  arith,
  bits_set-but_one n s (λ t. f (suc t)) (λ t. g (suc t)) (omega arith)
      (λ t lt ne. e (suc t) (omega arith) (λ z. ne (omega arith))),
  e 0 (omega arith) (λ z. absurd (omega arith)),
)

-- One mask is replaced.
count_masks-set :
    (masks : List ℕ) (i new : ℕ)
    → i < length masks
    → count_masks (set masks i new) + ones_count 64 (get_or masks i 0)
      ≡ count_masks masks + ones_count 64 new
unfolding count_masks
count_masks-set [] i new h = elim h [ ]
count_masks-set (m ∷ ms) zero new h = omega arith
count_masks-set (m ∷ ms) (suc i) new h = omega (arith, count_masks-set ms i new (omega arith))

count_masks-grown :
    (masks : List ℕ) (n : ℕ) → count_masks (masks ++ replicate n 0) ≡ count_masks masks
unfolding count_masks ones_count
count_masks-grown [] zero = refl
count_masks-grown [] (suc n) = omega (arith, count_masks-grown [] n)
count_masks-grown (m ∷ ms) n = ap (λ c. ones_count 64 m + c) (count_masks-grown ms n)

ones_count-set_bit :
    (m s : ℕ) → s < 64 → ones_count 64 (bit_or m (2 ^ s)) + bit m s ≡ ones_count 64 m + 1
ones_count-set_bit m s h = omega (
  arith,
  ones_count-bits 64 (bit_or m (2 ^ s)),
  ones_count-bits 64 m,
  bits_set-but_one 64 s (bit (bit_or m (2 ^ s))) (bit m) h
      (λ t lt ne. ground (arith, bit-set_bit m s t)),
  here,
)
  where
    here : bit (bit_or m (2 ^ s)) s ≡ 1
    here = ground (arith, bit-set_bit m s s)

ones_count-clear_bit :
    (m s : ℕ) → s < 64 → ones_count 64 (bit_and m (complement (2 ^ s))) + bit m s ≡ ones_count 64 m
ones_count-clear_bit m s h = omega (
  arith,
  ones_count-bits 64 (bit_and m (complement (2 ^ s))),
  ones_count-bits 64 m,
  bits_set-but_one 64 s (bit (bit_and m (complement (2 ^ s)))) (bit m) h
      (λ t lt ne. ground (arith, bit-clear_bit m s t h lt)),
  here,
)
  where
    here : bit (bit_and m (complement (2 ^ s))) s ≡ 0
    here = ground (arith, bit-clear_bit m s s h h)

module _ {ℓ} {Item : Type ℓ} (blank : Item) where
  pub len-grow : (t : Table Item) (n : ℕ) → len (grow blank t n) ≡ len t
  unfolding len grow
  len-grow t n = count_masks-grown t.masks n

  pub len-write :
      (t : Table Item) (key : ℕ) (item : Item)
      → key / 64 < length t.masks
      → len (write blank t key item) + taken t.masks key ≡ len t + 1
  unfolding len write taken
  len-write t key item h = omega (
    arith,
    count_masks-set t.masks (key / 64) (bit_or (get_or t.masks (key / 64) 0) (2 ^ (key % 64))) h,
    ones_count-set_bit (get_or t.masks (key / 64) 0) (key % 64) (omega arith),
  )

  pub len-clear :
      (t : Table Item) (key : ℕ)
      → key / 64 < length t.masks
      → len (clear blank t key) + taken t.masks key ≡ len t
  unfolding len clear taken
  len-clear t key h = omega (
    arith,
    count_masks-set t.masks (key / 64)
        (bit_and (get_or t.masks (key / 64) 0) (complement (2 ^ (key % 64)))) h,
    ones_count-clear_bit (get_or t.masks (key / 64) 0) (key % 64) (omega arith),
  )
