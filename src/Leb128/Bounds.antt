-- ===== src/Leb128/Bounds.antt =====
-- What a decoder returns on any input of bytes: the value fits the type, and the bytes it took are
-- there and no more than the type may have.
use andsifr.Common.{
  ℕ, zero, suc, ◌+◌, ◌-◌, ◌*◌, ◌%◌, ◌^◌, ◌≤◌, ◌<◌, ◌≡◌, inl, inr, not, ◌&&◌, List, [], ◌∷◌, ltb,
  ◌==◌, if◌then◌else◌, Bool-cases, length, arith, bit_and, bit_or, refl,
}
use andsifr.Common.Bits.{or-lt}
use andsifr.Common.Result.{ok, err}
use andsifr.Leb128.{
  Decoded, decode_uint32_loop, load_uint32, check_int32, decode_int32_loop, load_int32, check_int64,
  decode_int64_loop, load_int64,
}

pub uint32_loop_bounds :
    (n : ℕ) (buf : List ℕ) (i s ret v taken : ℕ)
    → i + n ≡ 5
    → ret < 2 ^ 32
    → decode_uint32_loop n buf i s ret ≡ ok (v, taken)
    → (v < 2 ^ 32) × (i < taken) × (taken ≤ 5) × (taken ≤ i + length buf)
unfolding decode_uint32_loop
uint32_loop_bounds zero buf i s ret v taken h hr e = cc
uint32_loop_bounds (suc n) [] i s ret v taken h hr e = cc
uint32_loop_bounds (suc n) (b ∷ rest) i s ret v taken h hr e = ground (
  arith,
  or-lt 32 ret (b * 2 ^ s % 2 ^ 32) hr (omega arith),
  uint32_loop_bounds n rest (i + 1) (s + 7) (bit_or ret (bit_and b 0x7f * 2 ^ s % 2 ^ 32)) v taken
      (omega arith) (or-lt 32 ret (bit_and b 0x7f * 2 ^ s % 2 ^ 32) hr (omega arith)),
)

-- A uint32 that is read fits 32 bits and took 1 to 5 bytes of the input.
pub load_uint32_bounds :
    (buf : List ℕ) (v n : ℕ)
    → load_uint32 buf ≡ ok (v, n)
    → (v < 2 ^ 32) × (1 ≤ n) × (n ≤ 5) × (n ≤ length buf)
unfolding load_uint32
load_uint32_bounds buf v n e =
    let r = uint32_loop_bounds 5 buf 0 0 0 v n (omega arith) (omega arith) e in
    (r.0, r.1, r.2, omega (arith, r.3))

check_int64_ok :
    (b n r v taken : ℕ) → check_int64 b n r ≡ ok (v, taken) → (v ≡ r) × (taken ≡ n) × (n ≤ 10)
unfolding check_int64
check_int64_ok b n r v taken e = ground arith

pub int64_loop_bounds :
    (buf : List ℕ) (s i ret v taken : ℕ)
    → ret < 2 ^ 64
    → decode_int64_loop buf s i ret ≡ ok (v, taken)
    → (v < 2 ^ 64) × (i < taken) × (taken ≤ 10) × (taken ≤ i + length buf)
unfolding decode_int64_loop
int64_loop_bounds [] s i ret v taken hr e = cc
int64_loop_bounds (b ∷ rest) s i ret v taken hr e =
    let ret' : ℕ = bit_or ret (bit_and b 0x7f * 2 ^ s % 2 ^ 64) in
    let filled : ℕ = bit_or ret' ((2 ^ 64 - 1) * 2 ^ (s + 7) % 2 ^ 64) in
    let low : ret' < 2 ^ 64 = or-lt 64 ret (bit_and b 0x7f * 2 ^ s % 2 ^ 64) hr (omega arith) in
    let high : filled < 2 ^ 64 =
      or-lt 64 ret' ((2 ^ 64 - 1) * 2 ^ (s + 7) % 2 ^ 64) low (omega arith) in
    elim (Bool-cases (bit_and b 0x80 == 0)) [
      | inl last ↦ ground (
        arith,
        low,
        high,
        check_int64_ok b (i + 1) (if ltb (s + 7) 64 && bit_and b 0x40 == 0x40 then filled else ret')
            v taken,
      )
      | inr inner ↦ ground (arith, int64_loop_bounds rest (s + 7) (i + 1) ret' v taken low)
    ]

-- An int64 that is read fits 64 bits and took 1 to 10 bytes of the input.
pub load_int64_bounds :
    (buf : List ℕ) (v n : ℕ)
    → load_int64 buf ≡ ok (v, n)
    → (v < 2 ^ 64) × (1 ≤ n) × (n ≤ 10) × (n ≤ length buf)
unfolding load_int64
load_int64_bounds buf v n e =
    let r = int64_loop_bounds buf 0 0 0 v n (omega arith) e in (r.0, r.1, r.2, omega (arith, r.3))

check_int32_ok :
    (b n r v taken : ℕ) → check_int32 b n r ≡ ok (v, taken) → (v ≡ r) × (taken ≡ n) × (n ≤ 5)
unfolding check_int32
check_int32_ok b n r v taken e = ground arith

pub int32_loop_bounds :
    (buf : List ℕ) (s i ret v taken : ℕ)
    → ret < 2 ^ 32
    → decode_int32_loop buf s i ret ≡ ok (v, taken)
    → (v < 2 ^ 32) × (i < taken) × (taken ≤ 5) × (taken ≤ i + length buf)
unfolding decode_int32_loop
int32_loop_bounds [] s i ret v taken hr e = cc
int32_loop_bounds (b ∷ rest) s i ret v taken hr e =
    let ret' : ℕ = bit_or ret (bit_and b 0x7f * 2 ^ s % 2 ^ 32) in
    let filled : ℕ = bit_or ret' ((2 ^ 32 - 1) * 2 ^ (s + 7) % 2 ^ 32) in
    let low : ret' < 2 ^ 32 = or-lt 32 ret (bit_and b 0x7f * 2 ^ s % 2 ^ 32) hr (omega arith) in
    let high : filled < 2 ^ 32 =
      or-lt 32 ret' ((2 ^ 32 - 1) * 2 ^ (s + 7) % 2 ^ 32) low (omega arith) in
    elim (Bool-cases (bit_and b 0x80 == 0)) [
      | inl last ↦ ground (
        arith,
        low,
        high,
        check_int32_ok b (i + 1)
            (if ltb (s + 7) 32 && not (bit_and b 0x40 == 0) then filled else ret') v taken,
      )
      | inr inner ↦ ground (arith, int32_loop_bounds rest (s + 7) (i + 1) ret' v taken low)
    ]

-- An int32 that is read fits 32 bits and took 1 to 5 bytes of the input.
pub load_int32_bounds :
    (buf : List ℕ) (v n : ℕ)
    → load_int32 buf ≡ ok (v, n)
    → (v < 2 ^ 32) × (1 ≤ n) × (n ≤ 5) × (n ≤ length buf)
unfolding load_int32
load_int32_bounds buf v n e =
    let r = int32_loop_bounds buf 0 0 0 v n (omega arith) e in (r.0, r.1, r.2, omega (arith, r.3))

-- A number below 2 ^ `bits`, of at least one byte, at most `max`, and none that is not there.
abbrev pub Fits : ℕ → ℕ → List ℕ → Decoded → Type 0
Fits bits max buf (ok (v, n)) = (v < 2 ^ bits) × (1 ≤ n) × (n ≤ max) × (n ≤ length buf)
Fits bits max buf (err e) = Unit {0}

fits :
    (bits max : ℕ) (buf : List ℕ) (d : Decoded)
    → ((v n : ℕ) → d ≡ ok (v, n) → (v < 2 ^ bits) × (1 ≤ n) × (n ≤ max) × (n ≤ length buf))
    → Fits bits max buf d
fits bits max buf (ok (v, n)) each = each v n refl
fits bits max buf (err e) each = tt

-- Of any bytes LoadUint32, LoadInt32 and LoadInt64 return an error, or a number that fits the
-- type and took at least one byte, at most five or ten, and no more than there are.
pub load_bounds :
    (buf : List ℕ)
    → Fits 32 5 buf (load_uint32 buf)
      × Fits 32 5 buf (load_int32 buf)
      × Fits 64 10 buf (load_int64 buf)
load_bounds buf = (
  fits 32 5 buf (load_uint32 buf) (load_uint32_bounds buf),
  fits 32 5 buf (load_int32 buf) (load_int32_bounds buf),
  fits 64 10 buf (load_int64 buf) (load_int64_bounds buf),
)
