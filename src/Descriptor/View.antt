-- ===== src/Descriptor/View.antt =====
-- The table as a partial map from keys to items, and what one write does to it.
use andsifr.Common.{
  ℕ, ◌+◌, ◌*◌, ◌/◌, ◌%◌, ◌^◌, ◌≤◌, ◌<◌, ◌≡◌, sym, ap, ◌∙◌, inl, inr, List, ◌++◌, ◌==◌,
  if◌then◌else◌, Bool-cases, length, set, get_or, replicate, get_or-set, get_or-append_replicate,
  arith, bit_and, bit_or,
}
use andsifr.Common.Bits.{
  bit, bit-and, bit-or, bit-pow_self, bit-pow_ne, bit-complement, and-pow, bit-le-one,
}
use andsifr.Descriptor.{test_bit, complement}
use native.Mathlib.Nat.{one-le-pow, pow-le-pow_right}

pub test_bit-bit : (mask shift : ℕ) → test_bit mask shift ≡ (bit mask shift == 1)
unfolding test_bit
test_bit-bit mask shift =
    ground (arith, and-pow shift mask, bit-le-one shift mask, one-le-pow shift 2, scaled)
  where
    scaled : bit mask shift ≡ 1 → bit mask shift * 2 ^ shift ≡ 2 ^ shift
    scaled e = rw e (omega arith)

-- Setting and clearing one bit of a mask.
pub bit-set_bit : (mask s t : ℕ) → bit (bit_or mask (2 ^ s)) t ≡ (if s == t then 1 else bit mask t)
bit-set_bit mask s t = elim (Bool-cases (s == t)) [
  | inl same ↦
      let e : s ≡ t = ground arith in
      rw same (omega (arith, bit-or t mask (2 ^ s), bit-le-one t mask, here e))
  | inr other ↦ rw other (omega (arith, bit-or t mask (2 ^ s), bit-pow_ne s t (ground arith)))
]
  where
    here : s ≡ t → bit (2 ^ s) t ≡ 1
    here e = ap (bit (2 ^ s)) (sym e) ∙ bit-pow_self s

pub pow-lt_word : (s : ℕ) → s < 64 → 2 ^ s < 2 ^ 64
pow-lt_word s h =
    omega (arith, pow-le-pow_right {n = 2} (omega arith) {i = s} {j = 63} (omega arith))

pub bit-clear_bit :
    (mask s t : ℕ)
    → s < 64
    → t < 64
    → bit (bit_and mask (complement (2 ^ s))) t ≡ (if s == t then 0 else bit mask t)
bit-clear_bit mask s t hs ht = elim (Bool-cases (s == t)) [
  | inl same ↦
      rw same (omega (arith, bit-and t mask (complement (2 ^ s)), flipped, here (ground arith)))
  | inr other ↦ rw other (
      omega (
        arith,
        bit-and t mask (complement (2 ^ s)),
        flipped,
        bit-pow_ne s t (ground arith),
        bit-le-one t mask,
      ))
]
  where
    flipped : bit (complement (2 ^ s)) t + bit (2 ^ s) t ≡ 1
    flipped = bit-complement 64 t (2 ^ s) (pow-lt_word s hs) ht

    here : s ≡ t → bit (2 ^ s) t ≡ 1
    here e = ap (bit (2 ^ s)) (sym e) ∙ bit-pow_self s

-- Whether `key` is taken, 0 or 1.
unfoldable pub taken : List ℕ → ℕ → ℕ
taken masks key = bit (get_or masks (key / 64) 0) (key % 64)

pub taken-le-one : (masks : List ℕ) (key : ℕ) → taken masks key ≤ 1
unfolding taken
taken-le-one masks key = bit-le-one (key % 64) (get_or masks (key / 64) 0)

module _ (masks : List ℕ) (key j : ℕ) (fits : key / 64 < length masks) where
  pub taken-set_bit :
      taken (set masks (key / 64) (bit_or (get_or masks (key / 64) 0) (2 ^ (key % 64)))) j
      ≡ (if key == j then 1 else taken masks j)
  unfolding taken
  taken-set_bit =
      let new : ℕ = bit_or (get_or masks (key / 64) 0) (2 ^ (key % 64)) in
      ground (
        arith,
        get_or-set masks (key / 64) (j / 64) new 0 fits,
        bit-set_bit (get_or masks (key / 64) 0) (key % 64) (j % 64),
      )

  pub taken-clear_bit :
      taken
        (set masks (key / 64) (bit_and (get_or masks (key / 64) 0) (complement (2 ^ (key % 64)))))
        j
      ≡ (if key == j then 0 else taken masks j)
  unfolding taken
  taken-clear_bit =
      let new : ℕ = bit_and (get_or masks (key / 64) 0) (complement (2 ^ (key % 64))) in
      ground (
        arith,
        get_or-set masks (key / 64) (j / 64) new 0 fits,
        bit-clear_bit (get_or masks (key / 64) 0) (key % 64) (j % 64),
      )

pub taken-grown : (masks : List ℕ) (n j : ℕ) → taken (masks ++ replicate n 0) j ≡ taken masks j
unfolding taken
taken-grown masks n j = ap (λ m. bit m (j % 64)) (get_or-append_replicate masks n (j / 64) 0)
