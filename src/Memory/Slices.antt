-- ===== src/Memory/Slices.antt =====
-- The slices of a memory: Write is read back by Read, but for a slice that ends at 2^32.
use andsifr.Common.{
  ℕ, zero, suc, ◌+◌, ◌-◌, ◌%◌, ◌^◌, ◌≤◌, ◌<◌, ◌≡◌, refl, true, false, leb, arith, none, some, List,
  [], ◌∷◌, length, get_or,
}
use andsifr.Common.Outcome.{ok, panic}
use andsifr.Memory.{Slice, subslice, patch, MemoryInstance, has_size, read, write}
use andsifr.Memory.Bytes.{patch_inside}
use andsifr.Memory.Scalars.{IsSized, Patched, patched, has_size_lem}

-- The bytes of a slice.
abbrev pub contents : ℕ → (ℕ → ℕ) → List ℕ
contents zero f = []
contents (suc n) f = f 0 ∷ contents n (λ i. f (suc i))

contents-get_or :
    (n : ℕ) (f : ℕ → ℕ) (xs : List ℕ)
    → length xs ≡ n
    → ((i : ℕ) → i < n → f i ≡ get_or xs i 0)
    → contents n f ≡ xs
contents-get_or zero f [] e h = refl
contents-get_or zero f (x ∷ xs) e h = absurd (omega arith)
contents-get_or (suc n) f [] e h = absurd (omega arith)
contents-get_or (suc n) f (x ∷ xs) e h =
    let first : f 0 ≡ x = h 0 (omega arith) in
    let rest =
      contents-get_or n (λ i. f (suc i)) xs (omega arith) (λ i lt. h (suc i) (omega arith)) in
    rw (first, rest)

module _ {ℓ κ} {M : Type ℓ} {E : Type κ} where
  -- For a range that ends below 2^32: within the memory Write succeeds and changes the bytes of
  -- the range alone, and Read of the range returns a slice of what was written, of no more
  -- capacity than that; else both answer false and Write changes nothing.
  pub write_lem :
      (m : MemoryInstance M E) (offset : ℕ) (val : List ℕ)
      → IsSized m
      → offset < 2 ^ 32
      → offset + length val < 2 ^ 32
      → (offset + length val ≤ m.buffer.len
          → (m' : MemoryInstance M E) × (s : Slice) × (write m offset val ≡ ok (m', true))
            × (read m' offset (length val) ≡ ok (some s, true))
            × (contents s.len s.bytes ≡ val)
            × (s.cap ≡ length val)
            × Patched m m' offset (length val))
        × (m.buffer.len < offset + length val
            → (write m offset val ≡ ok (m, false))
              × (read m offset (length val) ≡ ok (none, false)))
  unfolding read write subslice patch
  write_lem m offset val w h k =
      let n = length val in
      let f : ℕ → ℕ = λ i. get_or val i 0 in
      let m' : MemoryInstance M E = record m { buffer = patch m.buffer offset n f } in
      let stop : (offset + n) % 2 ^ 32 ≡ offset + n = omega arith in
      let size : offset + n - offset ≡ n = omega arith in
      let sized : has_size m offset n ≡ leb (offset + n) m.buffer.len =
        has_size_lem m offset n h (omega arith) in
      let sized' : has_size m' offset n ≡ leb (offset + n) m.buffer.len =
        has_size_lem m' offset n h (omega arith) in
      (
        λ fits. (
          m',
          record {
            base = m.buffer.base + offset;
            bytes = λ i. m'.buffer.bytes (offset + i);
            len = n;
            cap = n;
          },
          (let whole : leb n (m.buffer.len - offset) ≡ true = ground arith in
              let inside : leb (offset + n) m.buffer.len ≡ true = ground arith in
              let start : leb offset m.buffer.len ≡ true = ground arith in
              let top : leb m.buffer.cap m.buffer.cap ≡ true = ground arith in
              let room : leb m.buffer.len m.buffer.cap ≡ true = ground (arith, w.within) in
              rw (sized, inside, start, room, top, whole)),
          ground (arith, sized', w.within, stop, size),
          contents-get_or n _ val refl (λ i lt. patch_inside m.buffer offset n f i lt),
          refl,
          patched m offset n f,
        ),
        λ short.
            let outside : leb (offset + n) m.buffer.len ≡ false = ground arith in
            (rw (sized, outside), rw (sized, outside)),
      )

  -- On a memory of 65536 pages Read of any positive number of bytes that end at the last byte
  -- panics, since the end of the slice wraps to 0.
  pub read_end :
      (m : MemoryInstance M E) (count : ℕ)
      → IsSized m
      → m.buffer.len ≡ 2 ^ 32
      → 0 < count
      → count < 2 ^ 32
      → read m (2 ^ 32 - count) count ≡ panic
  unfolding read subslice
  read_end m count w full h k =
      let wraps : (2 ^ 32 - count + count) % 2 ^ 32 ≡ 0 = omega arith in
      let low : leb (2 ^ 32 - count) 0 ≡ false = ground arith in
      ground (arith, has_size_lem m (2 ^ 32 - count) count, wraps, low)
