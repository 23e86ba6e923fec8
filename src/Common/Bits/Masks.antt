-- ===== src/Common/Bits/Masks.antt =====
-- `|` of fields that do not overlap, and `&` with the masks that the code uses, as arithmetic.
use Prim.Native.Nat.{ℕ, zero, suc, ◌+◌, ◌*◌, ◌/◌, ◌%◌, ◌^◌, ◌≤◌, ◌<◌, bit_and, bit_or}
use mathlib.Core.Path.{◌≡◌, refl, ap}
use native.Mathlib.Omega.{arith}
use native.Mathlib.Nat.{pow-suc}
use andsifr.Common.Bits.{and_by_digit, or_by_digit, and-zero, bit}

zero-or_upto : (n b : ℕ) → b ≤ n → bit_or 0 b ≡ b
zero-or_upto n zero h = refl
zero-or_upto zero (suc b) h = absurd (omega arith)
zero-or_upto (suc n) (suc b) h =
    omega (arith, or_by_digit 0 (suc b), zero-or_upto n (suc b / 2) (omega arith))

pub zero-or : (b : ℕ) → bit_or 0 b ≡ b
zero-or b = zero-or_upto b b (omega arith)

double-shift : (x s : ℕ) → x * 2 ^ suc s ≡ 2 * (x * 2 ^ s)
double-shift x s = omega (arith, ap (λ (t : ℕ). x * t) (pow-suc 2 s))

-- `a | x << s` is a sum where `a` fits the `s` low bits.
pub or_shifted : (s a x : ℕ) → a < 2 ^ s → bit_or a (x * 2 ^ s) ≡ a + x * 2 ^ s
or_shifted zero a x h = let e : a ≡ 0 = omega arith in rw e (omega (arith, zero-or (x * 2 ^ 0)))
or_shifted (suc s) a x h = omega (
  arith,
  or_by_digit a (x * 2 ^ suc s),
  double-shift x s,
  ap (λ (t : ℕ). bit_or (a / 2) t) (halved x s),
  or_shifted s (a / 2) x (omega (arith, pow-suc 2 s)),
)
  where
    halved : (x s : ℕ) → x * 2 ^ suc s / 2 ≡ x * 2 ^ s
    halved x s = omega (arith, double-shift x s)

-- A mask's lowest digit is split off.
and_even : (v m : ℕ) → bit_and v (2 * m) ≡ bit_and (v / 2) m * 2
and_even v m = omega (arith, and_by_digit v (2 * m), ap (λ (t : ℕ). bit_and (v / 2) t) halved)
  where
    halved : 2 * m / 2 ≡ m
    halved = omega arith

and_odd : (v m : ℕ) → bit_and v (2 * m + 1) ≡ bit_and (v / 2) m * 2 + v % 2
and_odd v m = omega (arith, and_by_digit v (2 * m + 1), ap (λ (t : ℕ). bit_and (v / 2) t) halved)
  where
    halved : (2 * m + 1) / 2 ≡ m
    halved = omega arith

and-one : (v : ℕ) → bit_and v 1 ≡ v % 2
and-one v = omega (arith, and_odd v 0, and-zero (v / 2))

pub and_0x7f : (v : ℕ) → bit_and v 0x7f ≡ v % 128
and_0x7f v = omega (
  arith,
  and_odd v 63,
  and_odd (v / 2) 31,
  and_odd (v / 2 / 2) 15,
  and_odd (v / 2 / 2 / 2) 7,
  and_odd (v / 2 / 2 / 2 / 2) 3,
  and_odd (v / 2 / 2 / 2 / 2 / 2) 1,
  and-one (v / 2 / 2 / 2 / 2 / 2 / 2),
)

pub and_0x40 : (v : ℕ) → bit_and v 0x40 ≡ v / 64 % 2 * 64
and_0x40 v = omega (
  arith,
  and_even v 32,
  and_even (v / 2) 16,
  and_even (v / 2 / 2) 8,
  and_even (v / 2 / 2 / 2) 4,
  and_even (v / 2 / 2 / 2 / 2) 2,
  and_even (v / 2 / 2 / 2 / 2 / 2) 1,
  and-one (v / 2 / 2 / 2 / 2 / 2 / 2),
)

pub and_0x80 : (v : ℕ) → bit_and v 0x80 ≡ v / 128 % 2 * 128
and_0x80 v = omega (
  arith,
  and_even v 64,
  and_even (v / 2) 32,
  and_even (v / 2 / 2) 16,
  and_even (v / 2 / 2 / 2) 8,
  and_even (v / 2 / 2 / 2 / 2) 4,
  and_even (v / 2 / 2 / 2 / 2 / 2) 2,
  and_even (v / 2 / 2 / 2 / 2 / 2 / 2) 1,
  and-one (v / 2 / 2 / 2 / 2 / 2 / 2 / 2),
)

pub and_0xf0 : (v : ℕ) → bit_and v 0xf0 ≡ v / 16 % 16 * 16
and_0xf0 v = omega (
  arith,
  and_even v 120,
  and_even (v / 2) 60,
  and_even (v / 2 / 2) 30,
  and_even (v / 2 / 2 / 2) 15,
  and_odd (v / 2 / 2 / 2 / 2) 7,
  and_odd (v / 2 / 2 / 2 / 2 / 2) 3,
  and_odd (v / 2 / 2 / 2 / 2 / 2 / 2) 1,
  and-one (v / 2 / 2 / 2 / 2 / 2 / 2 / 2),
)

pub and_0x30 : (v : ℕ) → bit_and v 0x30 ≡ v / 16 % 4 * 16
and_0x30 v = omega (
  arith,
  and_even v 24,
  and_even (v / 2) 12,
  and_even (v / 2 / 2) 6,
  and_even (v / 2 / 2 / 2) 3,
  and_odd (v / 2 / 2 / 2 / 2) 1,
  and-one (v / 2 / 2 / 2 / 2 / 2),
)

pub and_0x20 : (v : ℕ) → bit_and v 0x20 ≡ v / 32 % 2 * 32
and_0x20 v = omega (
  arith,
  and_even v 16,
  and_even (v / 2) 8,
  and_even (v / 2 / 2) 4,
  and_even (v / 2 / 2 / 2) 2,
  and_even (v / 2 / 2 / 2 / 2) 1,
  and-one (v / 2 / 2 / 2 / 2 / 2),
)

pub and_0x3e : (v : ℕ) → bit_and v 0x3e ≡ v / 2 % 32 * 2
and_0x3e v = omega (
  arith,
  and_even v 31,
  and_odd (v / 2) 15,
  and_odd (v / 2 / 2) 7,
  and_odd (v / 2 / 2 / 2) 3,
  and_odd (v / 2 / 2 / 2 / 2) 1,
  and-one (v / 2 / 2 / 2 / 2 / 2),
)

-- `b | 0x80` on a group of seven bits.
pub or_0x80 : (g : ℕ) → g < 128 → bit_or g 0x80 ≡ g + 128
or_0x80 g h = or_shifted 7 g 1 h

or-zero_upto : (n a : ℕ) → a ≤ n → bit_or a 0 ≡ a
or-zero_upto n zero h = refl
or-zero_upto zero (suc a) h = absurd (omega arith)
or-zero_upto (suc n) (suc a) h =
    omega (arith, or_by_digit (suc a) 0, or-zero_upto n (suc a / 2) (omega arith))

-- `v | 1 << s` adds a bit that was clear.
pub or_bit : (s v : ℕ) → bit v s ≡ 0 → bit_or v (2 ^ s) ≡ v + 2 ^ s
unfolding bit
or_bit zero v h = omega (arith, or_by_digit v 1, or-zero_upto (v / 2) (v / 2) (omega arith))
or_bit (suc s) v h =
    let half : 2 ^ suc s / 2 ≡ 2 ^ s = omega (arith, pow-suc 2 s) in
    omega (
      arith,
      or_by_digit v (2 ^ suc s),
      ap (λ (t : ℕ). bit_or (v / 2) t) half,
      or_bit s (v / 2) h,
      pow-suc 2 s,
    )
