-- ===== src/Leb128/Local.antt =====
-- A decoder does not look behind the bytes that it takes.
use andsifr.Common.{
  ℕ, zero, suc, ◌+◌, ◌*◌, ◌%◌, ◌^◌, ◌≤◌, ◌<◌, ◌≡◌, inl, inr, List, [], ◌∷◌, ◌++◌, ltb, ◌==◌,
  Bool-cases, length, arith, bit_and, bit_or,
}
use andsifr.Common.Bits.{or-lt}
use andsifr.Common.Result.{ok}
use andsifr.Leb128.{
  decode_uint32_loop, load_uint32, decode_int32_loop, load_int32, decode_int64_loop, load_int64,
}
use andsifr.Leb128.Bounds.{uint32_loop_bounds, int32_loop_bounds, int64_loop_bounds}

uint32_loop_local :
    (n : ℕ) (d r : List ℕ) (i s ret v taken : ℕ)
    → i + n ≡ 5
    → ret < 2 ^ 32
    → taken ≤ i + length d
    → decode_uint32_loop n (d ++ r) i s ret ≡ ok (v, taken)
    → decode_uint32_loop n d i s ret ≡ ok (v, taken)
unfolding decode_uint32_loop
uint32_loop_local n [] r i s ret v taken h low fits e =
    absurd (let b = uint32_loop_bounds n r i s ret v taken h low e in omega (arith, b.1))
uint32_loop_local zero (b ∷ d) r i s ret v taken h low fits e = cc
uint32_loop_local (suc n) (b ∷ d) r i s ret v taken h low fits e =
    let ret' : ℕ = bit_or ret (bit_and b 0x7f * 2 ^ s % 2 ^ 32) in
    let low' : ret' < 2 ^ 32 = or-lt 32 ret (bit_and b 0x7f * 2 ^ s % 2 ^ 32) low (omega arith) in
    elim (Bool-cases (ltb b 0x80)) [
      | inl last ↦ rw last (rw last at e)
      | inr inner ↦ rw inner (
          uint32_loop_local n d r (i + 1) (s + 7) ret' v taken (omega arith) low' (omega arith)
            (rw inner at e))
    ]

int64_loop_local :
    (d r : List ℕ) (s i ret v taken : ℕ)
    → ret < 2 ^ 64
    → taken ≤ i + length d
    → decode_int64_loop (d ++ r) s i ret ≡ ok (v, taken)
    → decode_int64_loop d s i ret ≡ ok (v, taken)
unfolding decode_int64_loop
int64_loop_local [] r s i ret v taken low fits e =
    absurd (let b = int64_loop_bounds r s i ret v taken low e in omega (arith, b.1))
int64_loop_local (b ∷ d) r s i ret v taken low fits e =
    let ret' : ℕ = bit_or ret (bit_and b 0x7f * 2 ^ s % 2 ^ 64) in
    let low' : ret' < 2 ^ 64 = or-lt 64 ret (bit_and b 0x7f * 2 ^ s % 2 ^ 64) low (omega arith) in
    elim (Bool-cases (bit_and b 0x80 == 0)) [
      | inl last ↦ rw last (rw last at e)
      | inr inner ↦
          rw inner
            (int64_loop_local d r (s + 7) (i + 1) ret' v taken low' (omega arith) (rw inner at e))
    ]

int32_loop_local :
    (d r : List ℕ) (s i ret v taken : ℕ)
    → ret < 2 ^ 32
    → taken ≤ i + length d
    → decode_int32_loop (d ++ r) s i ret ≡ ok (v, taken)
    → decode_int32_loop d s i ret ≡ ok (v, taken)
unfolding decode_int32_loop
int32_loop_local [] r s i ret v taken low fits e =
    absurd (let b = int32_loop_bounds r s i ret v taken low e in omega (arith, b.1))
int32_loop_local (b ∷ d) r s i ret v taken low fits e =
    let ret' : ℕ = bit_or ret (bit_and b 0x7f * 2 ^ s % 2 ^ 32) in
    let low' : ret' < 2 ^ 32 = or-lt 32 ret (bit_and b 0x7f * 2 ^ s % 2 ^ 32) low (omega arith) in
    elim (Bool-cases (bit_and b 0x80 == 0)) [
      | inl last ↦ rw last (rw last at e)
      | inr inner ↦
          rw inner
            (int32_loop_local d r (s + 7) (i + 1) ret' v taken low' (omega arith) (rw inner at e))
    ]

module _ (d r : List ℕ) (v taken : ℕ) (fits : taken ≤ length d) where
  pub load_uint32_local : load_uint32 (d ++ r) ≡ ok (v, taken) → load_uint32 d ≡ ok (v, taken)
  unfolding load_uint32
  load_uint32_local =
      uint32_loop_local 5 d r 0 0 0 v taken (omega arith) (omega arith) (omega arith)

  pub load_int32_local : load_int32 (d ++ r) ≡ ok (v, taken) → load_int32 d ≡ ok (v, taken)
  unfolding load_int32
  load_int32_local = int32_loop_local d r 0 0 0 v taken (omega arith) (omega arith)

  pub load_int64_local : load_int64 (d ++ r) ≡ ok (v, taken) → load_int64 d ≡ ok (v, taken)
  unfolding load_int64
  load_int64_local = int64_loop_local d r 0 0 0 v taken (omega arith) (omega arith)
