-- ===== src/Memory/Grow/Pages.antt =====
-- A memory without an allocator: Grow keeps it valid and never panics.
use andsifr.Common.{
  ℕ, ◌+◌, ◌-◌, ◌*◌, ◌/◌, ◌%◌, ◌^◌, ◌≤◌, ◌<◌, ◌≡◌, refl, sym, ap, ◌∙◌, inl, inr, true, false, ◌||◌,
  Option, none, ltb, leb, ◌==◌, Bool-cases, tests, arith,
}
use andsifr.Common.Outcome.{ok, ◌>>=◌}
use andsifr.Memory.{
  Slice, subslice, MemoryInstance, memory_pages_to_bytes_num, memory_bytes_num_to_pages, pages,
}
use andsifr.Memory.Grow.{append_zeros, grow_buffer, grow_to, grow}

-- The sizes of a memory, and zeros behind its end.
pub record IsValid {ℓ κ} {M : Type ℓ} {E : Type κ} (m : MemoryInstance M E) : Type 0 where
  pub whole : m.buffer.len % 2 ^ 16 ≡ 0
  pub within : m.buffer.len ≤ m.buffer.cap
  pub bounded : m.buffer.len ≤ m.max_pages * 2 ^ 16
  pub limited : m.max_pages ≤ 2 ^ 16
  pub room : m.cap_pages * 2 ^ 16 ≤ m.buffer.cap
  pub fixed : m.shared ≡ true → m.max_pages ≤ m.cap_pages
  pub zeros : (a : ℕ) → m.buffer.len ≤ a → m.buffer.bytes a ≡ 0

module _ {ℓ κ} {M : Type ℓ} {E : Type κ} where
  -- What the memory `m'` is to `m` after it has grown by `delta` pages.
  pub record Grown (memory_grown : E → E) (m m' : MemoryInstance M E) (delta : ℕ)
      : Type (ℓ ⊔ κ) where
    pub longer : pages m' ≡ pages m + delta
    pub whole : m'.buffer.len ≡ pages m' * 2 ^ 16
    pub kept : (a : ℕ) → a < m.buffer.len → m'.buffer.bytes a ≡ m.buffer.bytes a
    pub same : (m'.min_pages ≡ m.min_pages) × (m'.max_pages ≡ m.max_pages) × (m'.shared ≡ m.shared)
    pub told : m'.engine ≡ memory_grown m.engine

  pub pages_lem : (m : MemoryInstance M E) → m.buffer.len ≤ 2 ^ 32 → pages m ≡ m.buffer.len / 2 ^ 16
  unfolding pages memory_bytes_num_to_pages
  pages_lem m h = omega arith

pub bytes_lem : (n : ℕ) → n ≤ 2 ^ 16 → memory_pages_to_bytes_num n ≡ n * 2 ^ 16
unfolding memory_pages_to_bytes_num
bytes_lem n h = omega arith

append_zeros_lem :
    (fresh : ℕ) (s : Slice) (n : ℕ)
    → ((a : ℕ) → s.len ≤ a → s.bytes a ≡ 0)
    → ((append_zeros fresh s n).len ≡ s.len + n)
      × ((append_zeros fresh s n).len ≤ (append_zeros fresh s n).cap)
      × ((a : ℕ) → (append_zeros fresh s n).bytes a ≡ s.bytes a)
unfolding append_zeros
append_zeros_lem fresh s n zeros = elim (Bool-cases (leb (s.len + n) s.cap)) [
  | inl fits ↦ rw fits (refl, ground arith, λ a. ground (arith, zeros a))
  | inr full ↦ rw full (refl, omega arith, λ a. ground (arith, zeros a))
]

subslice_lem :
    (s : Slice) (n : ℕ)
    → n ≤ s.cap
    → (b : Slice) × (subslice s 0 n s.cap ≡ ok b)
      × (b.len ≡ n)
      × (b.cap ≡ s.cap)
      × ((a : ℕ) → b.bytes a ≡ s.bytes a)
unfolding subslice
subslice_lem s n h = (
  record { base = s.base + 0; bytes = λ i. s.bytes (0 + i); len = n - 0; cap = s.cap - 0 },
  ground arith,
  omega arith,
  omega arith,
  λ a. ap s.bytes (omega arith),
)

module _ {ℓ κ} {M : Type ℓ} {E : Type κ} where
  -- The buffer of a valid memory grows, whichever branch Grow takes.
  record Longer (m m' : MemoryInstance M E) (new_pages : ℕ) : Type (ℓ ⊔ κ) where
    len : m'.buffer.len ≡ new_pages * 2 ^ 16
    within : m'.buffer.len ≤ m'.buffer.cap
    room : m'.cap_pages * 2 ^ 16 ≤ m'.buffer.cap
    more : m.cap_pages ≤ m'.cap_pages
    bytes : (a : ℕ) → m'.buffer.bytes a ≡ m.buffer.bytes a
    rest : m' ≡ record m { buffer = m'.buffer; cap_pages = m'.cap_pages }

module _ {ℓ κ} {M : Type ℓ} {E : Type κ} (fresh : ℕ) where
  grow_buffer_lem :
      (m : MemoryInstance M E) (delta : ℕ)
      → IsValid m
      → pages m + delta ≤ m.max_pages
      → (m' : MemoryInstance M E) × (grow_buffer fresh m delta (pages m + delta) ≡ ok m')
        × Longer m m' (pages m + delta)
  unfolding grow_buffer subslice_lem
  grow_buffer_lem m delta v fits =
      let now : pages m * 2 ^ 16 ≡ m.buffer.len =
        omega (arith, pages_lem m, v.whole, v.bounded, v.limited) in
      let size : memory_pages_to_bytes_num (pages m + delta) ≡ (pages m + delta) * 2 ^ 16 =
        bytes_lem (pages m + delta) (omega (arith, v.limited)) in
      let extra : memory_pages_to_bytes_num delta ≡ delta * 2 ^ 16 =
        bytes_lem delta (omega (arith, v.limited)) in
      let appended = append_zeros_lem fresh m.buffer (delta * 2 ^ 16) v.zeros in
      elim (Bool-cases (ltb m.cap_pages (pages m + delta))) [
        | inl over ↦ elim (Bool-cases m.shared) [
          | inl s ↦ absurd (omega (tests, over, v.fixed s))
          | inr s ↦
              let b : Slice = append_zeros fresh m.buffer (delta * 2 ^ 16) in
              (
                record m { buffer = b; cap_pages = pages m + delta },
                rw (over, extra, s),
                record {
                  len = omega (arith, appended.0, now);
                  within = appended.1;
                  room = omega (arith, appended.0, appended.1, now);
                  more = omega (tests, over);
                  bytes = appended.2;
                  rest = refl;
                },
              )
        ]
        | inr under ↦
            let enough : pages m + delta ≤ m.cap_pages = ground arith in
            elim (Bool-cases m.shared) [
              | inl s ↦ (
                record m { buffer = record (m.buffer) { len = (pages m + delta) * 2 ^ 16 } },
                rw (under, size, s),
                record {
                  len = refl;
                  within = omega (arith, v.room);
                  room = v.room;
                  more = omega arith;
                  bytes = λ a. refl;
                  rest = refl;
                },
              )
              | inr s ↦
                  let (b, e, l, c, f) =
                    subslice_lem m.buffer ((pages m + delta) * 2 ^ 16) (omega (arith, v.room)) in
                  (
                    record m { buffer = b },
                    rw (under, size, e, s),
                    record {
                      len = l;
                      within = omega (arith, v.room, l, c);
                      room = omega (arith, v.room, c);
                      more = omega arith;
                      bytes = f;
                      rest = refl;
                    },
                  )
            ]
      ]

module _ {ℓ κ} {M : Type ℓ} {E : Type κ} (reallocate : M → ℕ → M × Option Slice) (fresh : ℕ)
    (memory_grown : E → E) where
  Longer-Grown :
      (m m' : MemoryInstance M E) (delta : ℕ)
      → IsValid m
      → pages m + delta ≤ m.max_pages
      → Longer m m' (pages m + delta)
      → let g = record m' { engine = memory_grown m'.engine } in
        Grown memory_grown m g delta × IsValid g
  unfolding pages
  Longer-Grown m m' delta v fits l =
      let now : pages m * 2 ^ 16 ≡ m.buffer.len =
        omega (arith, pages_lem m, v.whole, v.bounded, v.limited) in
      let max : m'.max_pages ≡ m.max_pages = ap (λ (x : MemoryInstance M E). x.max_pages) l.rest in
      let shared : m'.shared ≡ m.shared = ap (λ (x : MemoryInstance M E). x.shared) l.rest in
      let longer : pages m' ≡ pages m + delta = omega (arith, pages_lem m', l.len, v.limited) in
      (
        record {
          longer = longer;
          whole = omega (arith, longer, l.len);
          kept = λ a h. l.bytes a;
          same = (ap (λ (x : MemoryInstance M E). x.min_pages) l.rest, max, shared);
          told = ap (λ (x : MemoryInstance M E). memory_grown x.engine) l.rest;
        },
        record {
          whole = omega (arith, l.len);
          within = l.within;
          bounded = omega (arith, l.len, max);
          limited = omega (arith, max, v.limited);
          room = l.room;
          fixed = λ s. omega (arith, v.fixed (sym shared ∙ s), l.more, max);
          zeros = λ a h. l.bytes a ∙ v.zeros a (omega (arith, l.len, now));
        },
      )

  -- The guards of Grow at an amount that the memory has room for.
  pub grow-grow_to :
      (m : MemoryInstance M E) (delta : ℕ)
      → pages m ≤ 2 ^ 16
      → m.max_pages ≤ 2 ^ 16
      → 0 < delta
      → pages m + delta ≤ m.max_pages
      → grow reallocate fresh memory_grown m delta
        ≡ grow_to reallocate fresh memory_grown m m.exp_buffer delta (pages m + delta)
  unfolding grow
  grow-grow_to m delta now limited positive fits =
      let nz : (delta == 0) ≡ false = ground arith in
      let exact : (pages m + delta) % 2 ^ 32 ≡ pages m + delta = omega arith in
      let under : ltb m.max_pages (pages m + delta) ≡ false = ground arith in
      let plus : leb (2 ^ 31) delta ≡ false = ground arith in rw (nz, exact, under, plus)

  pub grow_refused :
      (m : MemoryInstance M E) (delta : ℕ)
      → pages m ≤ 2 ^ 16
      → delta < 2 ^ 32
      → 0 < delta
      → m.max_pages < pages m + delta
      → grow reallocate fresh memory_grown m delta ≡ ok (m, 0, false)
  unfolding grow
  grow_refused m delta now small positive over =
      let nz : (delta == 0) ≡ false = ground arith in
      let refused : (ltb m.max_pages ((pages m + delta) % 2 ^ 32) || leb (2 ^ 31) delta) ≡ true =
        ground arith in
      rw (nz, refused)

  -- On a valid memory without an allocator, and any uint32 amount, Grow by 0 answers the size and
  -- changes nothing; Grow within the maximum does not panic, answers the old size, and leaves a
  -- valid memory that is so many pages longer, keeps the old bytes and has told the engine; Grow
  -- beyond the maximum answers false and changes nothing.
  pub grow_lem :
      (m : MemoryInstance M E) (delta : ℕ)
      → IsValid m
      → m.exp_buffer ≡ none
      → delta < 2 ^ 32
      → (delta ≡ 0 → grow reallocate fresh memory_grown m delta ≡ ok (m, pages m, true))
        × (0 < delta
            → pages m + delta ≤ m.max_pages
            → (m' : MemoryInstance M E) × (grow reallocate fresh memory_grown m delta
                ≡ ok (m', pages m, true))
              × Grown memory_grown m m' delta
              × IsValid m')
        × (0 < delta
            → m.max_pages < pages m + delta
            → grow reallocate fresh memory_grown m delta ≡ ok (m, 0, false))
  unfolding grow grow_to
  grow_lem m delta v plain small =
      let now : pages m ≤ 2 ^ 16 = omega (arith, pages_lem m, v.bounded, v.limited) in
      (
        λ z. rw z,
        λ positive fits.
            let (m', e, l) = grow_buffer_lem fresh m delta v fits in
            let grown = Longer-Grown m m' delta v fits l in
            (
              record m' { engine = memory_grown m'.engine },
              grow-grow_to m delta now v.limited positive fits
                  ∙ ap (λ o. grow_to reallocate fresh memory_grown m o delta (pages m + delta))
                      plain
                  ∙ ap
                      (λ r. r >>= λ (x : MemoryInstance M E).
                        ok (record x { engine = memory_grown x.engine }, pages m, true))
                      e,
              grown.0,
              grown.1,
            ),
        λ positive over. grow_refused m delta now small positive over,
      )
