-- ===== src/Memory/Grow.antt =====
-- The life of a memory: Memory.Validate of internal/wasm/module.go, then NewMemoryInstance and Grow
-- of memory.go. The allocator of the host and the module engine are parameters. `fresh` is where the
-- Go runtime puts what it allocates; the capacity that append leaves over is never used.
pub mod Pages
pub mod Backed
pub mod Fresh
use andsifr.Common.{
  ℕ, ◌+◌, ◌-◌, ◌*◌, ◌%◌, ◌^◌, Bool, true, false, ◌&&◌, ◌||◌, Option, none, some, ltb, leb, ◌==◌,
  if◌then◌else◌,
}
use andsifr.Common.Outcome.{Outcome, ok, panic, ◌>>=◌}
use andsifr.Common.Result.{Result}
use andsifr.Memory.{
  Slice, subslice, make, MemoryInstance, memory_pages_to_bytes_num, memory_bytes_num_to_pages,
  pages,
}

-- The memory section of a module.
pub record MemoryType : Type 0 where
  pub min : ℕ
  pub cap : ℕ
  pub max : ℕ
  pub is_max_encoded : Bool
  pub is_shared : Bool

pub data ValidateError : Type 0 where
  max_over_limit : ValidateError
  min_over_limit : ValidateError
  min_over_max : ValidateError
  cap_under_min : ValidateError
  cap_over_limit : ValidateError

unfoldable pub validate : MemoryType → ℕ → Result ValidateError (Unit {0})
validate t limit =
    if ltb limit t.max
    then Result.err max_over_limit
    else if ltb limit t.min
    then Result.err min_over_limit
    else if ltb t.max t.min
    then Result.err min_over_max
    else if ltb t.cap t.min
    then Result.err cap_under_min
    else if ltb limit t.cap
    then Result.err cap_over_limit
    else Result.ok tt

-- `append(s, make([]byte, n)...)`
unfoldable pub append_zeros : ℕ → Slice → ℕ → Slice
append_zeros fresh s n =
    if leb (s.len + n) s.cap
    then record s {
      bytes = λ a. if leb s.len a && ltb a (s.len + n) then 0 else s.bytes a;
      len = s.len + n;
    }
    else record {
      base = fresh;
      bytes = λ a. if ltb a s.len then s.bytes a else 0;
      len = s.len + n;
      cap = s.len + n;
    }

module _ {ℓ} {M : Type ℓ} (reallocate : M → ℕ → M × Option Slice) (fresh : ℕ) where
  -- The buffer of a new memory, with the state of its allocator.
  unfoldable pub first_buffer : MemoryType → Option (ℕ → ℕ → M) → Outcome (Slice × Option M)
  first_buffer t allocator =
      let min_bytes = memory_pages_to_bytes_num t.min in
      let cap_bytes = memory_pages_to_bytes_num t.cap in
      let max_bytes = memory_pages_to_bytes_num t.max in
      elim allocator [
        | some allocate ↦
            let (a, found) = reallocate (allocate cap_bytes max_bytes) min_bytes in
            let buffer : Slice = elim found [
              | none ↦ record { base = 0; bytes = λ i. 0; len = 0; cap = 0 }
              | some b ↦ b
            ] in
            do checked ← subslice buffer 0 min_bytes buffer.cap; ok (buffer, some a)
        | none ↦ do
          buffer ← make fresh min_bytes (if t.is_shared then max_bytes else cap_bytes)
          ok (buffer, none)
      ]

module _ {ℓ κ} {M : Type ℓ} {E : Type κ} (reallocate : M → ℕ → M × Option Slice) (fresh : ℕ) where
  unfoldable pub new_memory_instance :
      MemoryType → Option (ℕ → ℕ → M) → E → Outcome (MemoryInstance M E)
  new_memory_instance t allocator engine = do
    (buffer, exp_buffer) ← first_buffer reallocate fresh t allocator
    ok (record {
      buffer = buffer;
      min_pages = t.min;
      cap_pages = memory_bytes_num_to_pages buffer.cap;
      max_pages = t.max;
      shared = t.is_shared;
      exp_buffer = exp_buffer;
      engine = engine;
    })

module _ {ℓ κ} {M : Type ℓ} {E : Type κ} where
  -- What Grow makes of the slice that the allocator gives, if it gives one.
  unfoldable pub adopt : MemoryInstance M E → ℕ → Option Slice → Outcome (MemoryInstance M E × Bool)
  adopt m new_pages none = ok (m, false)
  adopt m new_pages (some b) =
      if m.shared
      then (if b.base == m.buffer.base
          then ok (record m { buffer = b; cap_pages = memory_bytes_num_to_pages b.cap }, true)
          else panic)
      else ok (record m { buffer = b; cap_pages = new_pages }, true)

  -- The branch of Grow for a memory that has an allocator.
  unfoldable pub grow_allocated :
      (M → ℕ → M × Option Slice) → MemoryInstance M E → M → ℕ → Outcome (MemoryInstance M E × Bool)
  grow_allocated reallocate m a new_pages =
      let (a', found) = reallocate a (memory_pages_to_bytes_num new_pages) in
      adopt (record m { exp_buffer = some a' }) new_pages found

module _ {ℓ κ} {M : Type ℓ} {E : Type κ} (fresh : ℕ) where
  -- The branches of Grow for the buffers of the Go runtime.
  unfoldable pub grow_buffer : MemoryInstance M E → ℕ → ℕ → Outcome (MemoryInstance M E)
  grow_buffer m delta new_pages =
      if ltb m.cap_pages new_pages
      then (if m.shared
          then panic
          else ok (record m {
            buffer = append_zeros fresh m.buffer (memory_pages_to_bytes_num delta);
            cap_pages = new_pages;
          }))
      else (if m.shared
          then ok (record m {
            buffer = record (m.buffer) { len = memory_pages_to_bytes_num new_pages };
          })
          else (do
            b ← subslice m.buffer 0 (memory_pages_to_bytes_num new_pages) m.buffer.cap
            ok (record m { buffer = b })))

module _ {ℓ κ} {M : Type ℓ} {E : Type κ} (reallocate : M → ℕ → M × Option Slice) (fresh : ℕ) where
  -- What Grow does once `new_pages` is allowed, by the memory's allocator.
  unfoldable pub grow_to :
      (E → E) → MemoryInstance M E → Option M → ℕ → ℕ → Outcome (MemoryInstance M E × ℕ × Bool)
  grow_to memory_grown m (some a) delta new_pages = do
    (m', grown) ← grow_allocated reallocate m a new_pages
    if grown
        then ok (record m' { engine = memory_grown m'.engine }, pages m, true)
        else ok (m', 0, false)
  grow_to memory_grown m none delta new_pages = do
    m' ← grow_buffer fresh m delta new_pages
    ok (record m' { engine = memory_grown m'.engine }, pages m, true)

  -- `int32(delta) < 0` holds from 2^31 on.
  unfoldable pub grow : (E → E) → MemoryInstance M E → ℕ → Outcome (MemoryInstance M E × ℕ × Bool)
  grow memory_grown m delta =
      let current = pages m in
      let new_pages = (current + delta) % 2 ^ 32 in
      if delta == 0
      then ok (m, current, true)
      else if ltb m.max_pages new_pages || leb (2 ^ 31) delta
      then ok (m, 0, false)
      else grow_to memory_grown m m.exp_buffer delta new_pages
