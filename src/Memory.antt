-- ===== src/Memory.antt =====
-- internal/wasm/memory.go: a linear memory, read and written by the host, and its growth.
-- A slice is the bytes that stand from its first address on, with its length and its capacity. A
-- `float32` or `float64` is of a type of its own, with the two conversions of package math.
pub mod Bytes
pub mod Scalars
pub mod Slices
pub mod Grow
pub mod Waiters
mod Tests
use andsifr.Common.{
  ℕ, zero, suc, ◌+◌, ◌-◌, ◌*◌, ◌/◌, ◌%◌, ◌^◌, Bool, true, false, ◌&&◌, ◌||◌, Option, none, some,
  List, [], ◌∷◌, ltb, leb, ◌==◌, if◌then◌else◌, length, get_or,
}
use andsifr.Common.Outcome.{Outcome, ok, panic, ◌>>=◌}

pub record Slice : Type 0 where
  pub base : ℕ
  pub bytes : ℕ → ℕ
  pub len : ℕ
  pub cap : ℕ

-- `s[lo:hi:top]`
unfoldable pub subslice : Slice → ℕ → ℕ → ℕ → Outcome Slice
subslice s lo hi top =
    if leb lo hi && leb hi top && leb top s.cap
    then ok (record {
      base = s.base + lo;
      bytes = λ i. s.bytes (lo + i);
      len = hi - lo;
      cap = top - lo;
    })
    else panic

-- `make([]byte, len, cap)` at a fresh address.
unfoldable pub make : ℕ → ℕ → ℕ → Outcome Slice
make fresh len cap =
    if leb len cap
    then ok (record { base = fresh; bytes = λ i. 0; len = len; cap = cap })
    else panic

-- Little-endian numbers of `n` bytes.
unfoldable pub le_value : ℕ → (ℕ → ℕ) → ℕ
le_value zero f = 0
le_value (suc n) f = f 0 + 256 * le_value n (λ i. f (suc i))

unfoldable pub le_byte : ℕ → ℕ → ℕ
le_byte v i = v / 256 ^ i % 256

-- The bytes from `at` on, `n` of them, replaced.
unfoldable pub patch : Slice → ℕ → ℕ → (ℕ → ℕ) → Slice
patch s at n f = record s {
  bytes = λ a. if leb at a && ltb a (at + n) then f (a - at) else s.bytes a;
}

-- `binary.LittleEndian.Uint…(b)` and `PutUint…(s[from:], v)`: they panic on a short slice.
unfoldable pub uint_le : ℕ → Slice → Outcome ℕ
uint_le n s = if leb n s.len then ok (le_value n s.bytes) else panic

unfoldable pub put_uint_le : ℕ → Slice → ℕ → ℕ → Outcome Slice
put_uint_le n s from v = if leb (from + n) s.len then ok (patch s from n (le_byte v)) else panic

-- The memory has the state `M` of its allocator, if there is one, and the state `E` of the engine.
pub record MemoryInstance {ℓ κ} (M : Type ℓ) (E : Type κ) : Type (ℓ ⊔ κ) where
  pub buffer : Slice
  pub min_pages : ℕ
  pub cap_pages : ℕ
  pub max_pages : ℕ
  pub shared : Bool
  pub exp_buffer : Option M
  pub engine : E

unfoldable pub memory_pages_to_bytes_num : ℕ → ℕ
memory_pages_to_bytes_num pages = pages * 2 ^ 16 % 2 ^ 64

unfoldable pub memory_bytes_num_to_pages : ℕ → ℕ
memory_bytes_num_to_pages bytes = bytes / 2 ^ 16 % 2 ^ 32

module _ {ℓ κ} {M : Type ℓ} {E : Type κ} where
  unfoldable pub size : MemoryInstance M E → ℕ
  size m = m.buffer.len % 2 ^ 32

  unfoldable pub pages : MemoryInstance M E → ℕ
  pages m = memory_bytes_num_to_pages m.buffer.len

  unfoldable pub has_size : MemoryInstance M E → ℕ → ℕ → Bool
  has_size m offset count = leb ((offset + count) % 2 ^ 64) m.buffer.len

  unfoldable pub read_byte : MemoryInstance M E → ℕ → Outcome (ℕ × Bool)
  read_byte m offset =
      if has_size m offset 1
      then (if ltb offset m.buffer.len then ok (m.buffer.bytes offset, true) else panic)
      else ok (0, false)

  -- `offset+2` is a uint32.
  unfoldable pub read_uint16_le : MemoryInstance M E → ℕ → Outcome (ℕ × Bool)
  read_uint16_le m offset =
      if has_size m offset 2
      then (do
        s ← subslice m.buffer offset ((offset + 2) % 2 ^ 32) m.buffer.cap
        v ← uint_le 2 s
        ok (v, true))
      else ok (0, false)

  unfoldable pub read_uint32_le : MemoryInstance M E → ℕ → Outcome (ℕ × Bool)
  read_uint32_le m offset =
      if has_size m offset 4
      then (do
        s ← subslice m.buffer offset m.buffer.len m.buffer.cap
        v ← uint_le 4 s
        ok (v, true))
      else ok (0, false)

  unfoldable pub read_uint64_le : MemoryInstance M E → ℕ → Outcome (ℕ × Bool)
  read_uint64_le m offset =
      if has_size m offset 8
      then (do
        s ← subslice m.buffer offset m.buffer.len m.buffer.cap
        v ← uint_le 8 s
        ok (v, true))
      else ok (0, false)

  -- `nil` is no slice.
  unfoldable pub read : MemoryInstance M E → ℕ → ℕ → Outcome (Option Slice × Bool)
  read m offset count =
      if has_size m offset count
      then (do
        let stop = (offset + count) % 2 ^ 32
        s ← subslice m.buffer offset stop stop
        ok (some s, true))
      else ok (none, false)

  unfoldable pub write_byte : MemoryInstance M E → ℕ → ℕ → Outcome (MemoryInstance M E × Bool)
  write_byte m offset v =
      if has_size m offset 1
      then (if ltb offset m.buffer.len
          then ok (record m { buffer = patch m.buffer offset 1 (λ i. v) }, true)
          else panic)
      else ok (m, false)

  unfoldable pub write_uint16_le : MemoryInstance M E → ℕ → ℕ → Outcome (MemoryInstance M E × Bool)
  write_uint16_le m offset v =
      if has_size m offset 2
      then (do s ← put_uint_le 2 m.buffer offset v; ok (record m { buffer = s }, true))
      else ok (m, false)

  unfoldable pub write_uint32_le : MemoryInstance M E → ℕ → ℕ → Outcome (MemoryInstance M E × Bool)
  write_uint32_le m offset v =
      if has_size m offset 4
      then (do s ← put_uint_le 4 m.buffer offset v; ok (record m { buffer = s }, true))
      else ok (m, false)

  unfoldable pub write_uint64_le : MemoryInstance M E → ℕ → ℕ → Outcome (MemoryInstance M E × Bool)
  write_uint64_le m offset v =
      if has_size m offset 8
      then (do s ← put_uint_le 8 m.buffer offset v; ok (record m { buffer = s }, true))
      else ok (m, false)

  -- `copy(s[offset:], val)` writes as many bytes as both have. WriteString has the same body.
  unfoldable pub write : MemoryInstance M E → ℕ → List ℕ → Outcome (MemoryInstance M E × Bool)
  write m offset val =
      if has_size m offset (length val)
      then (do
        s ← subslice m.buffer offset m.buffer.len m.buffer.cap
        let n = if leb (length val) s.len then length val else s.len
        ok (record m { buffer = patch m.buffer offset n (λ i. get_or val i 0) }, true))
      else ok (m, false)

  module _ {F : Type 0} (frombits : ℕ → F) (bits : F → ℕ) where
    unfoldable pub read_float32_le : MemoryInstance M E → ℕ → Outcome (F × Bool)
    read_float32_le m offset = do
      (v, found) ← read_uint32_le m offset
      ok (if found then frombits v else frombits 0, found)

    unfoldable pub write_float32_le :
        MemoryInstance M E → ℕ → F → Outcome (MemoryInstance M E × Bool)
    write_float32_le m offset v = write_uint32_le m offset (bits v)

    unfoldable pub read_float64_le : MemoryInstance M E → ℕ → Outcome (F × Bool)
    read_float64_le m offset = do
      (v, found) ← read_uint64_le m offset
      ok (if found then frombits v else frombits 0, found)

    unfoldable pub write_float64_le :
        MemoryInstance M E → ℕ → F → Outcome (MemoryInstance M E × Bool)
    write_float64_le m offset v = write_uint64_le m offset (bits v)
