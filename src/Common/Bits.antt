-- ===== src/Common/Bits.antt =====
-- The bits of a machine word: the native operations by their lowest digit, and single bits.
pub mod Masks
use Prim.Native.Nat.{
  ℕ, zero, suc, ◌+◌, ◌-◌, ◌*◌, ◌/◌, ◌%◌, ◌^◌, ◌≤◌, ◌<◌, min, max, bit_and, bit_or, digits,
  bit_and-bitwise, bit_or-bitwise,
}
use mathlib.Core.Path.{◌≡◌, refl, sym, ap, ◌∙◌}
use mathlib.Core.Logic.{◌≢◌}
use Prim.Native.Nat.add
use native.Mathlib.Omega.{arith}
use native.Mathlib.Nat.{
  pow-suc, one-le-pow, div-div-eq-div-mul, div-add-mod, mul-add-mod_self_left, mod-eq_of_lt, mod-lt,
}

-- The fuel of the digit recursion is of no matter once it covers the first number.
digits_enough :
    (z : ℕ → ℕ) (f : ℕ → ℕ → ℕ) (n m a b : ℕ) → a ≤ n → a ≤ m → digits z f n a b ≡ digits z f m a b
digits_enough z f zero zero a b p q = refl
digits_enough z f zero (suc m) zero b p q = refl
digits_enough z f (suc n) zero zero b p q = refl
digits_enough z f (suc n) (suc m) zero b p q = refl
digits_enough z f zero m (suc a) b p q = absurd (omega arith)
digits_enough z f n zero (suc a) b p q = absurd (omega arith)
digits_enough z f (suc n) (suc m) (suc a) b p q =
    ap (λ t. t * 2 + f (suc a % 2) (b % 2))
      (digits_enough z f n m (suc a / 2) (b / 2) (omega arith) (omega arith))

-- Both operations work digit by digit.
pub and_by_digit : (a b : ℕ) → bit_and a b ≡ bit_and (a / 2) (b / 2) * 2 + min (a % 2) (b % 2)
and_by_digit zero b = omega (arith, bit_and-bitwise 0 b, bit_and-bitwise 0 (b / 2))
and_by_digit (suc a) b = omega (
  arith,
  bit_and-bitwise (suc a) b,
  bit_and-bitwise (suc a / 2) (b / 2),
  digits_enough (λ y. 0) min a (suc a / 2) (suc a / 2) (b / 2) (omega arith) (omega arith),
)

pub or_by_digit : (a b : ℕ) → bit_or a b ≡ bit_or (a / 2) (b / 2) * 2 + max (a % 2) (b % 2)
or_by_digit zero b = omega (arith, bit_or-bitwise 0 b, bit_or-bitwise 0 (b / 2))
or_by_digit (suc a) b = omega (
  arith,
  bit_or-bitwise (suc a) b,
  bit_or-bitwise (suc a / 2) (b / 2),
  digits_enough (λ y. y) max a (suc a / 2) (suc a / 2) (b / 2) (omega arith) (omega arith),
)

and-zero_upto : (n a : ℕ) → a ≤ n → bit_and a 0 ≡ 0
and-zero_upto n zero h = refl
and-zero_upto zero (suc a) h = absurd (omega arith)
and-zero_upto (suc n) (suc a) h =
    omega (arith, and_by_digit (suc a) 0, and-zero_upto n (suc a / 2) (omega arith))

pub and-zero : (a : ℕ) → bit_and a 0 ≡ 0
and-zero a = and-zero_upto a a (omega arith)

-- The bit of `m` at place `t`, 0 or 1.
unfoldable pub bit : ℕ → ℕ → ℕ
bit m zero = m % 2
bit m (suc t) = bit (m / 2) t

pub bit-le-one : (t m : ℕ) → bit m t ≤ 1
unfolding bit
bit-le-one zero m = omega arith
bit-le-one (suc t) m = bit-le-one t (m / 2)

pub bit-zero : (t : ℕ) → bit 0 t ≡ 0
unfolding bit
bit-zero zero = refl
bit-zero (suc t) = bit-zero t

pub bit-and : (t a b : ℕ) → bit (bit_and a b) t ≡ min (bit a t) (bit b t)
unfolding bit
bit-and zero a b = omega (arith, and_by_digit a b)
bit-and (suc t) a b = ap (λ n. bit n t) (halved a b) ∙ bit-and t (a / 2) (b / 2)
  where
    halved : (a b : ℕ) → bit_and a b / 2 ≡ bit_and (a / 2) (b / 2)
    halved a b = omega (arith, and_by_digit a b)

pub bit-or : (t a b : ℕ) → bit (bit_or a b) t ≡ max (bit a t) (bit b t)
unfolding bit
bit-or zero a b = omega (arith, or_by_digit a b)
bit-or (suc t) a b = ap (λ n. bit n t) (halved a b) ∙ bit-or t (a / 2) (b / 2)
  where
    halved : (a b : ℕ) → bit_or a b / 2 ≡ bit_or (a / 2) (b / 2)
    halved a b = omega (arith, or_by_digit a b)

half-pow : (s : ℕ) → 2 ^ suc s / 2 ≡ 2 ^ s
half-pow s = omega (arith, pow-suc 2 s)

-- Two words of one width with the same bits are one number.
pub eq_of_bits : (w a b : ℕ) → a < 2 ^ w → b < 2 ^ w → ((t : ℕ) → t < w → bit a t ≡ bit b t) → a ≡ b
unfolding bit
eq_of_bits zero a b p q h = omega arith
eq_of_bits (suc w) a b p q h =
    let halves : a / 2 ≡ b / 2 =
      eq_of_bits w (a / 2) (b / 2) (omega (arith, pow-suc 2 w)) (omega (arith, pow-suc 2 w))
        (λ t lt. h (suc t) (omega arith)) in
    omega (arith, h 0 (omega arith))

pub bit-pow_self : (s : ℕ) → bit (2 ^ s) s ≡ 1
unfolding bit
bit-pow_self zero = refl
bit-pow_self (suc s) = rw (half-pow s) (bit-pow_self s)

pub bit-pow_ne : (s t : ℕ) → s ≢ t → bit (2 ^ s) t ≡ 0
unfolding bit
bit-pow_ne zero zero h = absurd (h refl)
bit-pow_ne zero (suc t) h = bit-zero t
bit-pow_ne (suc s) zero h = omega (arith, pow-suc 2 s)
bit-pow_ne (suc s) (suc t) h = rw (half-pow s) (bit-pow_ne s t (λ e. h (ap suc e)))

-- The complement of a word flips each of its bits.
pub bit-complement : (w t m : ℕ) → m < 2 ^ w → t < w → bit (2 ^ w - 1 - m) t + bit m t ≡ 1
unfolding bit
bit-complement zero t m h lt = absurd (omega arith)
bit-complement (suc w) zero m h lt = omega (arith, pow-suc 2 w)
bit-complement (suc w) (suc t) m h lt =
    rw (halved) (bit-complement w t (m / 2) (omega (arith, pow-suc 2 w)) (omega arith))
  where
    halved : (2 ^ suc w - 1 - m) / 2 ≡ 2 ^ w - 1 - m / 2
    halved = omega (arith, pow-suc 2 w)

pub and-lt : (w a b : ℕ) → a < 2 ^ w → bit_and a b < 2 ^ w
and-lt zero a b h = omega (
  arith,
  and_by_digit a b,
  ap (λ (t : ℕ). bit_and t (b / 2)) zero_half,
  bit_and-bitwise 0 (b / 2),
)
  where
    zero_half : a / 2 ≡ 0
    zero_half = omega arith
and-lt (suc w) a b h =
    omega
      (arith, and_by_digit a b, pow-suc 2 w, and-lt w (a / 2) (b / 2) (omega (arith, pow-suc 2 w)))

pub or-lt : (w a b : ℕ) → a < 2 ^ w → b < 2 ^ w → bit_or a b < 2 ^ w
or-lt zero a b h k =
    let p : a ≡ 0 = omega arith in let q : b ≡ 0 = omega arith in rw (p, q) (omega arith)
or-lt (suc w) a b h k = omega (
  arith,
  or_by_digit a b,
  pow-suc 2 w,
  or-lt w (a / 2) (b / 2) (omega (arith, pow-suc 2 w)) (omega (arith, pow-suc 2 w)),
)

-- A mask of one bit selects that bit.
pub and-pow : (s m : ℕ) → bit_and m (2 ^ s) ≡ bit m s * 2 ^ s
unfolding bit
and-pow zero m = omega (arith, and_by_digit m 1, and-zero (m / 2))
and-pow (suc s) m = omega (
  arith,
  and_by_digit m (2 ^ suc s),
  pow-suc 2 s,
  ap (λ (t : ℕ). bit_and (m / 2) t) (half-pow s),
  and-pow s (m / 2),
  ap (λ (t : ℕ). bit (m / 2) s * t) (pow-suc 2 s),
)

pub bit-div : (t m : ℕ) → bit m t ≡ m / 2 ^ t % 2
unfolding bit
bit-div zero m = omega arith
bit-div (suc t) m =
    bit-div t (m / 2) ∙ ap (λ d. d % 2) (div-div-eq-div-mul m 2 (2 ^ t) ∙ ap (λ p. m / p) doubled)
  where
    doubled : 2 * 2 ^ t ≡ 2 ^ suc t
    doubled = omega (arith, pow-suc 2 t)

-- The lowest bit joined to the remainder of the rest.
mod-pow-suc : (k a : ℕ) → a / 2 % 2 ^ k * 2 + a % 2 ≡ a % 2 ^ suc k
mod-pow-suc k a =
    let p = 2 ^ k in
    let q = a / 2 / p in
    let r = a / 2 % p in
    let double : 2 ^ suc k ≡ 2 * p = omega (arith, pow-suc 2 k) in
    let low : r < p = mod-lt (a / 2) (one-le-pow k 2 (omega arith)) in
    let whole : a ≡ 2 * p * q + (r * 2 + a % 2) = omega (arith, div-add-mod (a / 2) p) in
    sym (
      rw double (
        ap (λ n. n % (2 * p)) whole
        ∙ mul-add-mod_self_left (2 * p) q (r * 2 + a % 2)
        ∙ mod-eq_of_lt (omega arith)))

-- A mask of `k` low bits is the remainder by 2^k.
pub and-low : (k a : ℕ) → bit_and a (2 ^ k - 1) ≡ a % 2 ^ k
and-low zero a = omega (arith, and-zero a)
and-low (suc k) a =
    let halved : (2 ^ suc k - 1) / 2 ≡ 2 ^ k - 1 = omega (arith, pow-suc 2 k) in
    let odd : (2 ^ suc k - 1) % 2 ≡ 1 = omega (arith, pow-suc 2 k, one-le-pow k 2) in
    omega (
      arith,
      and_by_digit a (2 ^ suc k - 1),
      ap (λ (t : ℕ). bit_and (a / 2) t) halved,
      odd,
      and-low k (a / 2),
      mod-pow-suc k a,
    )

pub pow-add : (a b : ℕ) → 2 ^ (a + b) ≡ 2 ^ a * 2 ^ b
pow-add zero b = ap (λ n. 2 ^ n) (add.zero b) ∙ omega arith
pow-add (suc a) b =
    let e : suc a + b ≡ suc (a + b) = omega arith in
    rw e (omega (arith, pow-suc 2 (a + b), ap (λ (t : ℕ). t * 2 ^ b) (pow-suc 2 a), pow-add a b))
