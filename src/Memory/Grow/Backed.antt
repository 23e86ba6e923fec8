-- ===== src/Memory/Grow/Backed.antt =====
-- A memory whose bytes an allocator of the host keeps: Grow relies on what `LinearMemory` documents.
use andsifr.Common.{
  ℕ, ◌+◌, ◌*◌, ◌%◌, ◌^◌, ◌≤◌, ◌<◌, ◌≡◌, refl, sym, ap, ◌∙◌, inl, inr, Bool, true, false, Option,
  none, some, ◌==◌, Bool-cases, arith,
}
use andsifr.Common.Outcome.{ok}
use andsifr.Memory.{
  Slice, MemoryInstance, memory_pages_to_bytes_num, memory_bytes_num_to_pages, pages,
}
use andsifr.Memory.Grow.{adopt, grow_allocated, grow_to, grow}
use andsifr.Memory.Grow.Pages.{Grown, pages_lem, bytes_lem, grow-grow_to}

module _ {ℓ} {M : Type ℓ} (reallocate : M → ℕ → M × Option Slice) where
  -- `Reallocate` of an allocator in the state `a` gives a slice of the size that is asked for, with the
  -- bytes of `s`; under a shared memory it does not move.
  pub record Reallocates (a : M) (s : Slice) (shared : Bool) : Type ℓ where
    pub sized : (n : ℕ) (b : Slice) → (reallocate a n).1 ≡ some b → (b.len ≡ n) × (b.len ≤ b.cap)
    pub kept :
        (n : ℕ) (b : Slice)
        → (reallocate a n).1 ≡ some b
        → (i : ℕ) → i < s.len
        → i < n
        → b.bytes i ≡ s.bytes i
    pub fixed : shared ≡ true → (n : ℕ) (b : Slice) → (reallocate a n).1 ≡ some b → b.base ≡ s.base

  adopt_lem {κ} :
      {E : Type κ} (m next : MemoryInstance M E) (a : M) (new_pages : ℕ) (b : Slice)
      → Reallocates a m.buffer m.shared
      → next.buffer ≡ m.buffer
      → next.shared ≡ m.shared
      → (reallocate a (memory_pages_to_bytes_num new_pages)).1 ≡ some b
      → (m' : MemoryInstance M E) × (adopt next new_pages (some b) ≡ ok (m', true))
        × (m'.buffer ≡ b)
        × (m'.min_pages ≡ next.min_pages)
        × (m'.max_pages ≡ next.max_pages)
        × (m'.shared ≡ next.shared)
        × (m'.engine ≡ next.engine)
  unfolding adopt
  adopt_lem m next a new_pages b r eb es e = elim (Bool-cases next.shared) [
    | inl s ↦
        let base : (b.base == next.buffer.base) ≡ true =
          ground (arith, r.fixed (sym es ∙ s) _ b e, eb) in
        (
          record next { buffer = b; cap_pages = memory_bytes_num_to_pages b.cap },
          rw (s, base),
          refl,
          refl,
          refl,
          refl,
          refl,
        )
    | inr s ↦
        (record next { buffer = b; cap_pages = new_pages }, rw s, refl, refl, refl, refl, refl)
  ]

module _ {ℓ κ} {M : Type ℓ} {E : Type κ} (reallocate : M → ℕ → M × Option Slice) (fresh : ℕ)
    (memory_grown : E → E) where
  -- The two ends of Grow where the allocator is asked.
  abbrev pub GrowsBacked : MemoryInstance M E → M → ℕ → Option Slice → Type (ℓ ⊔ κ)
  GrowsBacked m a delta none =
      grow reallocate fresh memory_grown m delta
      ≡ ok (
        record m {
          exp_buffer = some (reallocate a (memory_pages_to_bytes_num (pages m + delta))).0;
        },
        0,
        false,
      )
  GrowsBacked m a delta (some b) =
      (m' : MemoryInstance M E) × (grow reallocate fresh memory_grown m delta
        ≡ ok (m', pages m, true))
      × (m'.buffer ≡ b)
      × Grown memory_grown m m' delta

  -- Where the allocator does what LinearMemory documents, Grow by a positive amount within the
  -- maximum answers false and keeps the memory if the allocator fails, and else takes its slice,
  -- does not panic, answers the old size, keeps the old bytes and has told the engine.
  pub grow_backed :
      (m : MemoryInstance M E) (a : M) (delta : ℕ) (found : Option Slice)
      → m.exp_buffer ≡ some a
      → Reallocates reallocate a m.buffer m.shared
      → m.buffer.len % 2 ^ 16 ≡ 0
      → m.max_pages ≤ 2 ^ 16
      → 0 < delta
      → pages m + delta ≤ m.max_pages
      → m.buffer.len ≤ 2 ^ 32
      → (reallocate a (memory_pages_to_bytes_num (pages m + delta))).1 ≡ found
      → GrowsBacked m a delta found
  unfolding grow_to grow_allocated adopt pages
  grow_backed m a delta none backed r whole limited positive fits small e =
      grow-grow_to reallocate fresh memory_grown m delta (omega (arith, pages_lem m)) limited
        positive fits
      ∙ ap (λ o. grow_to reallocate fresh memory_grown m o delta (pages m + delta)) backed
      ∙ rw e
  grow_backed m a delta (some b) backed r whole limited positive fits small e =
      let next : MemoryInstance M E = record m {
        exp_buffer = some (reallocate a (memory_pages_to_bytes_num (pages m + delta))).0;
      } in
      let (m', f, l, same_min, same_max, same_shared, same_engine) =
        adopt_lem reallocate m next a (pages m + delta) b r refl refl e in
      let now : pages m * 2 ^ 16 ≡ m.buffer.len = omega (arith, pages_lem m, whole) in
      let size : memory_pages_to_bytes_num (pages m + delta) ≡ (pages m + delta) * 2 ^ 16 =
        bytes_lem (pages m + delta) (omega (arith, limited)) in
      let sized = r.sized _ b e in
      let len : m'.buffer.len ≡ (pages m + delta) * 2 ^ 16 =
        ap (λ (s : Slice). s.len) l ∙ sized.0 ∙ size in
      let longer : pages m' ≡ pages m + delta = omega (arith, pages_lem m', len, limited) in
      (
        record m' { engine = memory_grown m'.engine },
        grow-grow_to reallocate fresh memory_grown m delta (omega (arith, pages_lem m)) limited
              positive fits
            ∙ ap (λ o. grow_to reallocate fresh memory_grown m o delta (pages m + delta)) backed
            ∙ rw (e, f),
        l,
        record {
          longer = longer;
          whole = omega (arith, longer, len);
          kept =
              λ i h. ap (λ (s : Slice). s.bytes i) l ∙ r.kept _ b e i h (omega (arith, now, size));
          same = (same_min, same_max, same_shared);
          told = ap memory_grown same_engine;
        },
      )
