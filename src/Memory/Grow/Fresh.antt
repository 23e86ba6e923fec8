-- ===== src/Memory/Grow/Fresh.antt =====
-- A memory section that validation accepts makes a valid memory, all zeros.
use andsifr.Common.{ℕ, ◌*◌, ◌^◌, ◌≤◌, ◌≡◌, refl, true, Option, none, leb, if◌then◌else◌, arith}
use andsifr.Common.Outcome.{ok}
use andsifr.Common.Result.{Result}
use andsifr.Memory.{
  Slice, make, MemoryInstance, memory_pages_to_bytes_num, memory_bytes_num_to_pages, pages,
}
use andsifr.Memory.Grow.{MemoryType, validate, first_buffer, new_memory_instance}
use andsifr.Memory.Grow.Pages.{IsValid, bytes_lem}

pub validate_bounds :
    (t : MemoryType) (limit : ℕ)
    → validate t limit ≡ Result.ok tt
    → (t.min ≤ t.max) × (t.max ≤ limit) × (t.min ≤ t.cap) × (t.cap ≤ limit)
unfolding validate
validate_bounds t limit h = ground arith

module _ {ℓ κ} {M : Type ℓ} {E : Type κ} (reallocate : M → ℕ → M × Option Slice) (fresh : ℕ) where
  -- A memory section that Validate accepts under a limit of at most 65536 pages makes, without an
  -- allocator, a valid memory of the minimum of pages, all of whose bytes are 0;
  -- NewMemoryInstance does not panic.
  pub new_memory_instance_lem :
      (t : MemoryType) (limit : ℕ) (engine : E)
      → limit ≤ 2 ^ 16
      → validate t limit ≡ Result.ok tt
      → (m : MemoryInstance M E) × (new_memory_instance reallocate fresh t none engine ≡ ok m)
        × IsValid m
        × (pages m ≡ t.min)
        × ((a : ℕ) → m.buffer.bytes a ≡ 0)
  unfolding new_memory_instance first_buffer make pages memory_bytes_num_to_pages
  new_memory_instance_lem t limit engine h valid =
      let v = validate_bounds t limit valid in
      let min : memory_pages_to_bytes_num t.min ≡ t.min * 2 ^ 16 =
        bytes_lem t.min (omega (arith, v)) in
      let most : memory_pages_to_bytes_num t.max ≡ t.max * 2 ^ 16 =
        bytes_lem t.max (omega (arith, v)) in
      let cap : memory_pages_to_bytes_num t.cap ≡ t.cap * 2 ^ 16 =
        bytes_lem t.cap (omega (arith, v)) in
      let size : ℕ = (if t.is_shared then t.max else t.cap) * 2 ^ 16 in
      let chosen : (if t.is_shared
            then memory_pages_to_bytes_num t.max
            else memory_pages_to_bytes_num t.cap)
          ≡ size =
        ground (arith, most, cap) in
      let room : t.min * 2 ^ 16 ≤ size = ground (arith, v) in
      let small : size ≤ 2 ^ 32 = ground (arith, v) in
      let fits : leb (t.min * 2 ^ 16) size ≡ true = ground arith in
      (
        record {
          buffer = record { base = fresh; bytes = λ i. 0; len = t.min * 2 ^ 16; cap = size };
          min_pages = t.min;
          cap_pages = memory_bytes_num_to_pages size;
          max_pages = t.max;
          shared = t.is_shared;
          exp_buffer = none;
          engine = engine;
        },
        rw (min, chosen, fits),
        record {
          whole = omega arith;
          within = room;
          bounded = omega (arith, v);
          limited = omega (arith, v);
          room = omega arith;
          fixed = λ s. ground (arith, v, s);
          zeros = λ a k. refl;
        },
        omega (arith, v),
        λ a. refl,
      )
