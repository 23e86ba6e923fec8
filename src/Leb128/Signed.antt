-- ===== src/Leb128/Signed.antt =====
-- What the encoder of signed numbers writes, and the arithmetic shift that its loop takes.
use andsifr.Common.{
  ℕ, zero, suc, ◌+◌, ◌-◌, ◌*◌, ◌/◌, ◌%◌, ◌^◌, ◌≤◌, ◌<◌, ◌≡◌, ap, subst, ◌∙◌, ◌⊎◌, inl, inr, Bool,
  true, false, not, ◌&&◌, ◌||◌, some, List, [], ◌∷◌, ◌++◌, ltb, ◌==◌, if◌then◌else◌, Bool-cases,
  ltb→lt, lt→ltb, arith, bit_and, append_assoc,
}
use andsifr.Common.Bits.Masks.{and_0x7f, and_0x40, and_0x80, or_0x80}
use andsifr.Leb128.{encode_int64_loop, shift_right_int64}
use native.Mathlib.Nat.{pow-suc, pow-le-pow_right}

-- The bits of `w` from the sign bit of its lowest group on are all alike.
pub ends : ℕ → Bool
ends w =
    let w' = shift_right_int64 w in
    (w' == 0 && w / 64 % 2 == 0) || (w' == 2 ^ 64 - 1 && w / 64 % 2 == 1)

-- The bytes of a signed number.
unfoldable pub signed_groups : ℕ → ℕ → List ℕ
signed_groups zero w = []
signed_groups (suc k) w =
    let rest = signed_groups k (shift_right_int64 w) in
    if ends w then w % 128 ∷ [] else (w % 128 + 128) ∷ rest

-- A 64-bit pattern is a number from -limit to limit - 1.
abbrev pub Within : ℕ → ℕ → Type 0
Within limit w = (w < limit) ⊎ (2 ^ 64 ≤ w + limit)

sign_flag : (w : ℕ) → bit_and w 0x40 % 256 ≡ w / 64 % 2 * 64
sign_flag w = omega (arith, and_0x40 w)

group : (w : ℕ) → bit_and w 0x7f % 256 ≡ w % 128
group w = omega (arith, and_0x7f w)

abbrev goes_on : ℕ → ℕ → Bool
goes_on w' s = (not (w' == 2 ^ 64 - 1) || s == 0) && (not (w' == 0) || not (s == 0))

goes_on-ends : (w : ℕ) → goes_on (shift_right_int64 w) (w / 64 % 2 * 64) ≡ not (ends w)
unfolding ends
goes_on-ends w = ground arith

encode_last :
    (k w : ℕ) (buf : List ℕ)
    → ends w ≡ true
    → encode_int64_loop (suc k) w buf ≡ some (buf ++ (w % 128 ∷ []))
unfolding encode_int64_loop
encode_last k w buf e =
    let stops : goes_on (shift_right_int64 w) (w / 64 % 2 * 64) ≡ false =
      ground (arith, goes_on-ends w) in
    rw (group w, sign_flag w, stops) (ground (arith, and_0x80 (w % 128)))

encode_more :
    (k w : ℕ) (buf : List ℕ)
    → ends w ≡ false
    → encode_int64_loop (suc k) w buf
      ≡ encode_int64_loop k (shift_right_int64 w) (buf ++ ((w % 128 + 128) ∷ []))
unfolding encode_int64_loop
encode_more k w buf e =
    let goes : goes_on (shift_right_int64 w) (w / 64 % 2 * 64) ≡ true =
      ground (arith, goes_on-ends w) in
    rw (group w, sign_flag w, goes, or_0x80 (w % 128) (omega arith))
      (ground (arith, and_0x80 (w % 128 + 128)))

pub shift_low : (w : ℕ) → w < 2 ^ 63 → shift_right_int64 w ≡ w / 128
unfolding shift_right_int64
shift_low w h = rw (lt→ltb w (2 ^ 63) h) (omega arith)

pub shift_high : (w : ℕ) → 2 ^ 63 ≤ w → shift_right_int64 w ≡ w / 128 + 127 * 2 ^ 57
unfolding shift_right_int64
shift_high w h = elim (Bool-cases (ltb w (2 ^ 63))) [
  | inl low ↦ absurd (omega (arith, ltb→lt w (2 ^ 63) low))
  | inr high ↦ rw high
]

pub low_or_high : (w : ℕ) → (w < 2 ^ 63) ⊎ (2 ^ 63 ≤ w)
low_or_high w = grind arith

pub shift_right-lt : (w : ℕ) → w < 2 ^ 64 → shift_right_int64 w < 2 ^ 64
shift_right-lt w h = elim (low_or_high w) [
  | inl low ↦ omega (arith, shift_low w low)
  | inr high ↦ omega (arith, shift_high w high)
]

-- Seven bits less.
pub shift_right-Within :
    (limit w : ℕ)
    → w < 2 ^ 64
    → limit ≤ 2 ^ 56
    → Within (128 * limit) w
    → Within limit (shift_right_int64 w)
shift_right-Within limit w h small (inl n) = inl (omega (arith, shift_low w))
shift_right-Within limit w h small (inr n) = inr (omega (arith, shift_high w))

-- A number of seven bits is written in one byte.
pub ends_small : (w : ℕ) → w < 2 ^ 64 → Within 64 w → ends w ≡ true
unfolding ends
ends_small w h (inl n) =
    let z : shift_right_int64 w ≡ 0 = omega (arith, shift_low w) in
    let z' : w / 64 % 2 ≡ 0 = omega arith in rw (z, z')
ends_small w h (inr n) =
    let z : shift_right_int64 w ≡ 2 ^ 64 - 1 = omega (arith, shift_high w) in
    let z' : w / 64 % 2 ≡ 1 = omega arith in rw (z, z')

-- What is written in one byte is a number of seven bits.
pub ends-Within : (w : ℕ) → w < 2 ^ 64 → ends w ≡ true → Within 64 w
unfolding ends
ends-Within w h e = elim (low_or_high w) [
  | inl low ↦ inl (ground (arith, shift_low w low))
  | inr high ↦ inr (ground (arith, shift_high w high))
]

pub pow-128-le : (k : ℕ) → k ≤ 8 → 128 ^ k ≤ 2 ^ 56
pow-128-le k h = pow-le-pow_right {n = 128} (omega arith) {i = k} {j = 8} h

pub shift_right-fits :
    (k w : ℕ) → k ≤ 8 → w < 2 ^ 64 → Within (128 ^ suc k) w → Within (128 ^ k) (shift_right_int64 w)
shift_right-fits k w hk h n =
    shift_right-Within (128 ^ k) w h (pow-128-le k hk) (
      subst (λ l. Within l w) {x = 128 ^ suc k} {y = 128 * 128 ^ k} (omega (arith, pow-suc 128 k))
        n)

pub signed_groups_last : (k w : ℕ) → ends w ≡ true → signed_groups (suc k) w ≡ w % 128 ∷ []
unfolding signed_groups
signed_groups_last k w e = rw e

pub signed_groups_more :
    (k w : ℕ)
    → ends w ≡ false
    → signed_groups (suc k) w ≡ (w % 128 + 128) ∷ signed_groups k (shift_right_int64 w)
unfolding signed_groups
signed_groups_more k w e = rw e

pub encode_loop-signed_groups :
    (k w : ℕ) (buf : List ℕ)
    → k ≤ 9
    → w < 2 ^ 64
    → Within (128 ^ k) w
    → encode_int64_loop (suc k) w buf ≡ some (buf ++ signed_groups (suc k) w)
unfolding signed_groups
encode_loop-signed_groups zero w buf small h n =
    let e : ends w ≡ true = ends_small w h (omega arith) in rw (encode_last 0 w buf e, e)
encode_loop-signed_groups (suc k) w buf small h n = elim (Bool-cases (ends w)) [
  | inl e ↦ rw (encode_last (suc k) w buf e, e)
  | inr e ↦
      rw (encode_more (suc k) w buf e, e)
        (encode_loop-signed_groups k (shift_right_int64 w) (buf ++ ((w % 128 + 128) ∷ []))
            (omega arith) (shift_right-lt w h) (shift_right-fits k w (omega arith) h n)
          ∙ ap some (append_assoc buf ((w % 128 + 128) ∷ []) _))
]
