-- ===== src/Leb128/Fill.antt =====
-- Sign extension in the decoders: `ret |= ^0 << shift` as a sum.
use andsifr.Common.{ℕ, suc, ◌+◌, ◌-◌, ◌*◌, ◌%◌, ◌^◌, ◌≤◌, ◌<◌, ◌≡◌, sym, ap, ◌∙◌, arith, bit_or}
use andsifr.Common.Bits.{pow-add}
use andsifr.Common.Bits.Masks.{or_shifted}
use native.Mathlib.Nat.{pow-le-pow_right, one-le-pow}

ones_above : (p c : ℕ) → p * suc c ≡ 2 ^ 64 → 1 ≤ p → 1 ≤ c → (2 ^ 64 - 1) * p % 2 ^ 64 ≡ c * p
ones_above p c h k l = omega (arith, grow_one)
  where
    grow_one : 1 * p ≤ c * p
    grow_one = grind arith

ones_above_32 : (p c : ℕ) → p * suc c ≡ 2 ^ 32 → 1 ≤ p → 1 ≤ c → (2 ^ 32 - 1) * p % 2 ^ 32 ≡ c * p
ones_above_32 p c h k l = omega (arith, grow_one)
  where
    grow_one : 1 * p ≤ c * p
    grow_one = grind arith

-- The power that makes a word of `bits` bits of one of `s`.
pub rest_of_word : (bits s : ℕ) → s < bits → (c : ℕ) × (2 ^ s * suc c ≡ 2 ^ bits) × (1 ≤ c)
rest_of_word bits s h =
    let q : ℕ = 2 ^ (bits - s) in
    let big : 2 ^ 1 ≤ q =
      pow-le-pow_right {n = 2} (omega arith) {i = 1} {j = bits - s} (omega arith) in
    let e : suc (q - 1) ≡ q = omega arith in
    let f : s + (bits - s) ≡ bits = omega arith in
    (q - 1, rw e (sym (pow-add s (bits - s)) ∙ ap (λ n. 2 ^ n) f), omega arith)

-- `ret | ^0 << s` fills the bits from `s` on.
pub fill_64 :
    (s ret : ℕ)
    → s < 64
    → ret < 2 ^ s
    → bit_or ret ((2 ^ 64 - 1) * 2 ^ s % 2 ^ 64) ≡ ret + (2 ^ 64 - 2 ^ s)
fill_64 s ret hs hr =
    let (c, whole, pos) = rest_of_word 64 s hs in
    ap (bit_or ret) (ones_above (2 ^ s) c whole (one-le-pow s 2 (omega arith)) pos)
    ∙ or_shifted s ret c hr
    ∙ omega (arith, whole)

pub fill_32 :
    (s ret : ℕ)
    → s < 32
    → ret < 2 ^ s
    → bit_or ret ((2 ^ 32 - 1) * 2 ^ s % 2 ^ 32) ≡ ret + (2 ^ 32 - 2 ^ s)
fill_32 s ret hs hr =
    let (c, whole, pos) = rest_of_word 32 s hs in
    ap (bit_or ret) (ones_above_32 (2 ^ s) c whole (one-le-pow s 2 (omega arith)) pos)
    ∙ or_shifted s ret c hr
    ∙ omega (arith, whole)
