-- ===== src/Memory/Scalars.antt =====
-- The numbers of a memory: a write in range is read back, and one out of range changes nothing.
use andsifr.Common.{
  ℕ, ◌+◌, ◌-◌, ◌%◌, ◌^◌, ◌≤◌, ◌<◌, ◌≡◌, refl, ◌∙◌, ◌⊎◌, Bool, true, false, leb, arith,
}
use andsifr.Common.Outcome.{Outcome, ok, panic}
use andsifr.Memory.{
  Slice, subslice, le_value, le_byte, patch, uint_le, put_uint_le, MemoryInstance, has_size,
  read_byte, read_uint16_le, read_uint32_le, read_uint64_le, write_byte, write_uint16_le,
  write_uint32_le, write_uint64_le,
}
use native.Mathlib.Nat.{mod-eq_of_lt}
use andsifr.Memory.Bytes.{le_value-ext, le_value-le_byte, patch_inside, patch_outside}

-- No slice of a valid memory is longer than 2^32 bytes.
pub record IsSized {ℓ κ} {M : Type ℓ} {E : Type κ} (m : MemoryInstance M E) : Type 0 where
  pub within : m.buffer.len ≤ m.buffer.cap
  pub small : m.buffer.len ≤ 2 ^ 32

value_patched :
    (s : Slice) (offset n v : ℕ)
    → v < 256 ^ n
    → le_value n (λ i. (patch s offset n (le_byte v)).bytes (offset + i)) ≡ v
value_patched s offset n v h =
    le_value-ext n _ (le_byte v) (λ i lt. patch_inside s offset n (le_byte v) i lt)
    ∙ le_value-le_byte n v
    ∙ mod-eq_of_lt h

module _ {ℓ κ} {M : Type ℓ} {E : Type κ} where
  -- What the memory `m'` is to `m` after a write of `n` bytes at `offset`.
  pub record Patched (m m' : MemoryInstance M E) (offset n : ℕ) : Type (ℓ ⊔ κ) where
    pub others : (a : ℕ) → (a < offset) ⊎ (offset + n ≤ a) → m'.buffer.bytes a ≡ m.buffer.bytes a
    pub same : m' ≡ record m { buffer = record (m.buffer) { bytes = m'.buffer.bytes } }

  -- How a pair of an accessor and a mutator of `n` bytes behaves, in range and out of range.
  abbrev pub Stores :
      (MemoryInstance M E → ℕ → Outcome (ℕ × Bool))
      → (MemoryInstance M E → ℕ → ℕ → Outcome (MemoryInstance M E × Bool))
      → ℕ
      → MemoryInstance M E
      → ℕ
      → ℕ
      → Type (ℓ ⊔ κ)
  Stores read write n m offset v =
      (offset + n ≤ m.buffer.len
        → (m' : MemoryInstance M E) × (write m offset v ≡ ok (m', true))
          × (read m' offset ≡ ok (v, true))
          × Patched m m' offset n)
      × (m.buffer.len < offset + n
          → (write m offset v ≡ ok (m, false)) × (read m offset ≡ ok (0, false)))

  pub has_size_lem :
      (m : MemoryInstance M E) (offset n : ℕ)
      → offset < 2 ^ 32
      → n < 2 ^ 32
      → has_size m offset n ≡ leb (offset + n) m.buffer.len
  unfolding has_size
  has_size_lem m offset n h k = let e : (offset + n) % 2 ^ 64 ≡ offset + n = omega arith in rw e

  pub patched :
      (m : MemoryInstance M E) (offset n : ℕ) (f : ℕ → ℕ)
      → Patched m (record m { buffer = patch m.buffer offset n f }) offset n
  unfolding patch
  patched m offset n f = record { others = patch_outside m.buffer offset n f; same = refl }

  pub uint32_lem :
      (m : MemoryInstance M E) (offset v : ℕ)
      → IsSized m
      → offset < 2 ^ 32
      → v < 2 ^ 32
      → Stores read_uint32_le write_uint32_le 4 m offset v
  unfolding read_uint32_le write_uint32_le subslice uint_le put_uint_le patch
  uint32_lem m offset v w h k = (
    λ fits. (
      record m { buffer = patch m.buffer offset 4 (le_byte v) },
      ground (arith, has_size_lem m offset 4),
      ground (
        arith,
        has_size_lem (record m { buffer = patch m.buffer offset 4 (le_byte v) }) offset 4,
        value_patched m.buffer offset 4 v,
        w.within,
      ),
      patched m offset 4 (le_byte v),
    ),
    λ short. ground (arith, has_size_lem m offset 4),
  )

  pub uint64_lem :
      (m : MemoryInstance M E) (offset v : ℕ)
      → IsSized m
      → offset < 2 ^ 32
      → v < 2 ^ 64
      → Stores read_uint64_le write_uint64_le 8 m offset v
  unfolding read_uint64_le write_uint64_le subslice uint_le put_uint_le patch
  uint64_lem m offset v w h k = (
    λ fits. (
      record m { buffer = patch m.buffer offset 8 (le_byte v) },
      ground (arith, has_size_lem m offset 8),
      ground (
        arith,
        has_size_lem (record m { buffer = patch m.buffer offset 8 (le_byte v) }) offset 8,
        value_patched m.buffer offset 8 v,
        w.within,
      ),
      patched m offset 8 (le_byte v),
    ),
    λ short. ground (arith, has_size_lem m offset 8),
  )

  pub uint16_lem :
      (m : MemoryInstance M E) (offset v : ℕ)
      → IsSized m
      → offset + 2 < 2 ^ 32
      → v < 2 ^ 16
      → Stores read_uint16_le write_uint16_le 2 m offset v
  unfolding read_uint16_le write_uint16_le subslice uint_le put_uint_le patch
  uint16_lem m offset v w h k = (
    λ fits. (
      record m { buffer = patch m.buffer offset 2 (le_byte v) },
      ground (arith, has_size_lem m offset 2),
      ground (
        arith,
        has_size_lem (record m { buffer = patch m.buffer offset 2 (le_byte v) }) offset 2,
        value_patched m.buffer offset 2 v,
        w.within,
      ),
      patched m offset 2 (le_byte v),
    ),
    λ short. ground (arith, has_size_lem m offset 2),
  )

  pub uint8_lem :
      (m : MemoryInstance M E) (offset v : ℕ)
      → IsSized m
      → offset < 2 ^ 32
      → v < 2 ^ 8
      → Stores read_byte write_byte 1 m offset v
  unfolding read_byte write_byte patch
  uint8_lem m offset v w h k = (
    λ fits. (
      record m { buffer = patch m.buffer offset 1 (λ i. v) },
      ground (arith, has_size_lem m offset 1),
      ground
          (arith, has_size_lem (record m { buffer = patch m.buffer offset 1 (λ i. v) }) offset 1),
      patched m offset 1 (λ i. v),
    ),
    λ short. ground (arith, has_size_lem m offset 1),
  )

  -- `offset+2` wraps to 0 at the end of a memory of 65536 pages.
  pub uint16_end :
      (m : MemoryInstance M E)
      → IsSized m
      → m.buffer.len ≡ 2 ^ 32
      → read_uint16_le m (2 ^ 32 - 2) ≡ panic
  unfolding read_uint16_le subslice
  uint16_end m w full = ground (arith, has_size_lem m (2 ^ 32 - 2) 2)

  -- At an offset below 2^32 - 2 the four pairs of a write and a read of an integer (one, two,
  -- four and eight bytes) agree: within the memory the write succeeds and changes the bytes of
  -- the number alone, and the read returns the number; else both answer false and nothing
  -- changes.
  pub scalars_lem :
      (m : MemoryInstance M E) (offset v : ℕ)
      → IsSized m
      → offset + 2 < 2 ^ 32
      → Stores read_byte write_byte 1 m offset (v % 2 ^ 8)
        × Stores read_uint16_le write_uint16_le 2 m offset (v % 2 ^ 16)
        × Stores read_uint32_le write_uint32_le 4 m offset (v % 2 ^ 32)
        × Stores read_uint64_le write_uint64_le 8 m offset (v % 2 ^ 64)
  scalars_lem m offset v w h =
      let low : offset < 2 ^ 32 = omega arith in
      (
        uint8_lem m offset (v % 2 ^ 8) w low (omega arith),
        uint16_lem m offset (v % 2 ^ 16) w h (omega arith),
        uint32_lem m offset (v % 2 ^ 32) w low (omega arith),
        uint64_lem m offset (v % 2 ^ 64) w low (omega arith),
      )
