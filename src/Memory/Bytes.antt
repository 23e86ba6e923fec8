-- ===== src/Memory/Bytes.antt =====
-- Little-endian numbers: the bytes of a number stand for it.
use andsifr.Common.{
  ℕ, zero, suc, ◌+◌, ◌-◌, ◌*◌, ◌/◌, ◌%◌, ◌^◌, ◌≤◌, ◌<◌, ◌≡◌, refl, sym, ap, ◌∙◌, ◌⊎◌, inl, inr,
  arith,
}
use andsifr.Memory.{le_value, le_byte, Slice, patch}
use native.Mathlib.Nat.{
  pow-suc, div-div-eq-div-mul, div-add-mod, mod-lt, one-le-pow, mul-add-mod_self_left, mod-eq_of_lt,
}

-- A value depends on the bytes within its length.
pub le_value-ext :
    (n : ℕ) (f g : ℕ → ℕ) → ((i : ℕ) → i < n → f i ≡ g i) → le_value n f ≡ le_value n g
unfolding le_value
le_value-ext zero f g h = refl
le_value-ext (suc n) f g h =
    let ih = le_value-ext n (λ i. f (suc i)) (λ i. g (suc i)) (λ i lt. h (suc i) (omega arith)) in
    let e : f 0 ≡ g 0 = h 0 (omega arith) in rw (e, ih)

le_byte-suc : (v i : ℕ) → le_byte v (suc i) ≡ le_byte (v / 256) i
unfolding le_byte
le_byte-suc v i =
    let e : 256 ^ suc i ≡ 256 * 256 ^ i = omega (arith, pow-suc 256 i) in
    rw e (ap (λ q. q % 256) (sym (div-div-eq-div-mul v 256 (256 ^ i))))

-- The digit to base 256 joined to the remainder of the rest.
mod-pow-256 : (k a : ℕ) → a % 256 + 256 * (a / 256 % 256 ^ k) ≡ a % 256 ^ suc k
mod-pow-256 k a =
    let p = 256 ^ k in
    let q = a / 256 / p in
    let r = a / 256 % p in
    let e : 256 ^ suc k ≡ 256 * p = omega (arith, pow-suc 256 k) in
    let low : r < p = mod-lt (a / 256) (one-le-pow k 256 (omega arith)) in
    let whole : a ≡ 256 * p * q + (256 * r + a % 256) = omega (arith, div-add-mod (a / 256) p) in
    sym (
      rw e (
        ap (λ n. n % (256 * p)) whole
        ∙ mul-add-mod_self_left (256 * p) q (256 * r + a % 256)
        ∙ mod-eq_of_lt (omega arith)
        ∙ omega arith))

pub le_value-le_byte : (n v : ℕ) → le_value n (le_byte v) ≡ v % 256 ^ n
unfolding le_value
le_value-le_byte zero v = omega arith
le_value-le_byte (suc n) v =
    let ih =
      le_value-ext n (λ i. le_byte v (suc i)) (le_byte (v / 256)) (λ i lt. le_byte-suc v i)
      ∙ le_value-le_byte n (v / 256) in
    let first : le_byte v 0 ≡ v % 256 = unfold le_byte in (omega arith) in
    rw (ih, first) (mod-pow-256 n v)

pub patch_inside :
    (s : Slice) (at n : ℕ) (f : ℕ → ℕ) (i : ℕ) → i < n → (patch s at n f).bytes (at + i) ≡ f i
unfolding patch
patch_inside s at n f i h = let e : at + i - at ≡ i = omega arith in rw e (ground arith)

pub patch_outside :
    (s : Slice) (at n : ℕ) (f : ℕ → ℕ) (a : ℕ)
    → (a < at) ⊎ (at + n ≤ a)
    → (patch s at n f).bytes a ≡ s.bytes a
unfolding patch
patch_outside s at n f a (inl h) = ground arith
patch_outside s at n f a (inr h) = ground arith
