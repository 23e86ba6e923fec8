-- ===== src/Memory/Tests.antt =====
-- Runs of a memory of eight bytes, and the theorems at small memories and at one of 65536 pages.
use andsifr.Common.{
  ℕ, ◌+◌, ◌-◌, ◌*◌, ◌^◌, ◌%◌, ◌≤◌, ◌<◌, ◌≡◌, refl, sym, ap, inl, inr, Bool-cases, true, false,
  Option, none, some, [], ◌∷◌, leb, if◌then◌else◌, arith,
}
use andsifr.Common.Outcome.{ok, panic}
use andsifr.Common.Result
use andsifr.Memory.{
  Slice, MemoryInstance, memory_pages_to_bytes_num, memory_bytes_num_to_pages, pages, read_byte,
  read_uint16_le, read_uint32_le, read_uint64_le, read, write_byte, write_uint16_le,
  write_uint32_le, write_uint64_le, write,
}
use andsifr.Memory.Scalars.{IsSized, Stores, Patched, scalars_lem}
use andsifr.Memory.Slices.{write_lem, contents, read_end}
use andsifr.Memory.Grow.{MemoryType, validate, new_memory_instance, grow}
use andsifr.Memory.Grow.Pages.{IsValid, Grown, grow_lem}
use andsifr.Memory.Grow.Fresh.{new_memory_instance_lem}
use andsifr.Memory.Grow.Backed.{Reallocates, GrowsBacked, grow_backed}

-- A memory of `len` bytes of the room for `pages` pages; the engine counts what it is told.
abbrev of_len : ℕ → ℕ → MemoryInstance ℕ ℕ
of_len len room = record {
  buffer = record { base = 0; bytes = λ i. 0; len = len; cap = room * 65536 };
  min_pages = 0;
  cap_pages = room;
  max_pages = 3;
  shared = false;
  exp_buffer = none;
  engine = 0;
}

abbrev small : MemoryInstance ℕ ℕ
small = of_len 8 1

small-IsSized : IsSized small
small-IsSized = record { within = omega arith; small = omega arith }

scalars_lem_example :
    Stores read_byte write_byte 1 small 5 (70000 % 2 ^ 8)
    × Stores read_uint16_le write_uint16_le 2 small 5 (70000 % 2 ^ 16)
    × Stores read_uint32_le write_uint32_le 4 small 5 (70000 % 2 ^ 32)
    × Stores read_uint64_le write_uint64_le 8 small 5 (70000 % 2 ^ 64)
scalars_lem_example = scalars_lem small 5 70000 small-IsSized (omega arith)

write_lem_example :
    (2 + 3 ≤ 8
      → (m' : MemoryInstance ℕ ℕ) × (s : Slice) × (write small 2 (1 ∷ 2 ∷ 3 ∷ []) ≡ ok (m', true))
        × (read m' 2 3 ≡ ok (some s, true))
        × (contents s.len s.bytes ≡ 1 ∷ 2 ∷ 3 ∷ [])
        × (s.cap ≡ 3)
        × Patched small m' 2 3)
    × (8 < 2 + 3
        → (write small 2 (1 ∷ 2 ∷ 3 ∷ []) ≡ ok (small, false))
          × (read small 2 3 ≡ ok (none, false)))
write_lem_example = write_lem small 2 (1 ∷ 2 ∷ 3 ∷ []) small-IsSized (omega arith) (omega arith)

abbrev full : MemoryInstance ℕ ℕ
full = of_len (2 ^ 32) 65536

read_end_example : read full (2 ^ 32 - 5) 5 ≡ panic
read_end_example =
    read_end full 5 (record { within = omega arith; small = omega arith }) refl (omega arith)
      (omega arith)

abbrev one_page : MemoryInstance ℕ ℕ
one_page = of_len 65536 1

one_page-IsValid : IsValid one_page
one_page-IsValid = record {
  whole = omega arith;
  within = omega arith;
  bounded = omega arith;
  limited = omega arith;
  room = omega arith;
  fixed = λ s. cc;
  zeros = λ a h. refl;
}

-- An allocator that fails beyond four pages.
abbrev host : ℕ → ℕ → ℕ × Option Slice
host a n = (
  a + 1,
  if leb n 262144 then some (record { base = 0; bytes = λ i. 0; len = n; cap = n }) else none,
)

grow_lem_example :
    (◌≡◌ {A = ℕ} 2 0 → grow host 0 (λ e. e + 1) one_page 2 ≡ ok (one_page, pages one_page, true))
    × (0 < 2
        → pages one_page + 2 ≤ 3
        → (m' : MemoryInstance ℕ ℕ) × (grow host 0 (λ e. e + 1) one_page 2
            ≡ ok (m', pages one_page, true))
          × Grown (λ e. e + 1) one_page m' 2
          × IsValid m')
    × (0 < 2
        → 3 < pages one_page + 2
        → grow host 0 (λ e. e + 1) one_page 2 ≡ ok (one_page, 0, false))
grow_lem_example = grow_lem host 0 (λ e. e + 1) one_page 2 one_page-IsValid refl (omega arith)

abbrev section : MemoryType
section = record { min = 1; cap = 2; max = 3; is_max_encoded = true; is_shared = true }

section_valid : validate section 65536 ≡ Result.ok tt
unfolding validate
section_valid = refl

new_memory_instance_lem_example :
    (m : MemoryInstance ℕ ℕ) × (new_memory_instance host 0 section none 0 ≡ ok m)
    × IsValid m
    × (pages m ≡ 1)
    × ((a : ℕ) → m.buffer.bytes a ≡ 0)
new_memory_instance_lem_example =
    new_memory_instance_lem host 0 section 65536 0 (omega arith) section_valid

abbrev backed : MemoryInstance ℕ ℕ
backed = record (of_len 65536 1) { exp_buffer = some 7; shared = true }

host-zeros : (n : ℕ) (b : Slice) (i : ℕ) → (host 7 n).1 ≡ some b → b.bytes i ≡ 0
host-zeros n b i h = elim (Bool-cases (leb n 262144)) [
  | inl fits ↦
      let given : Option.some (record { base = 0; bytes = λ (a : ℕ). 0; len = n; cap = n })
          ≡ some b =
        rw fits at h in
      let same : record { base = 0; bytes = λ (a : ℕ). 0; len = n; cap = n } ≡ b = cc in
      ap (λ (s : Slice). s.bytes i) (sym same)
  | inr over ↦ absurd (let failed : none ≡ some b = rw over at h in cc)
]

host-Reallocates : Reallocates host 7 backed.buffer true
host-Reallocates = record {
  sized = λ n b h. ground arith;
  kept = λ n b h i low lt. host-zeros n b i h;
  fixed = λ s n b h. ground arith;
}

abbrev two_pages : Slice
two_pages = record { base = 0; bytes = λ i. 0; len = 131072; cap = 131072 }

backed_fits : pages backed + 1 ≤ 3
unfolding pages memory_bytes_num_to_pages
backed_fits = omega arith

two_pages_given : (host 7 (memory_pages_to_bytes_num (pages backed + 1))).1 ≡ some two_pages
unfolding pages memory_bytes_num_to_pages memory_pages_to_bytes_num
two_pages_given = refl

grow_backed_example : GrowsBacked host 0 (λ e. e + 1) backed 7 1 (some two_pages)
grow_backed_example =
    grow_backed host 0 (λ e. e + 1) backed 7 1 (some two_pages) refl host-Reallocates refl
      (omega arith) (omega arith) backed_fits (omega arith) two_pages_given
