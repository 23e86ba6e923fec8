-- ===== src/Table.antt =====
-- TableInstance of internal/wasm/table.go: a table of references, and its growth.
mod Fill
pub mod Grow
mod Tests
use andsifr.Common.{
  ℕ, zero, suc, ◌+◌, ◌-◌, ◌*◌, ◌%◌, ◌^◌, Bool, true, false, ◌||◌, Option, none, some, List, ◌++◌,
  ltb, leb, ◌==◌, if◌then◌else◌, min, length, set, take, drop, replicate,
}
use andsifr.Common.Outcome.{Outcome, ok, panic, stuck, ◌>>=◌, assign}
use andsifr.Common.Result.{Result}

-- A reference is a number, 0 for null; `max` is none for a nil pointer.
pub record TableInstance : Type 0 where
  pub references : List ℕ
  pub min_size : ℕ
  pub max_size : Option ℕ
  pub type : ℕ

abbrev pub maximum_table_index : ℕ
maximum_table_index = 2 ^ 27

-- `copy(region[i:], region[:i])`, which copies as many as both have.
unfoldable pub copy_behind : ℕ → List ℕ → List ℕ
copy_behind i region =
    let n = min (length region - i) i in take i region ++ (take n region ++ drop (i + n) region)

-- `for i := …; i < len(region); i *= 2`
unfoldable pub fill_loop : ℕ → ℕ → List ℕ → Outcome (List ℕ)
fill_loop zero i region = if ltb i (length region) then stuck else ok region
fill_loop (suc fuel) i region =
    let rest = fill_loop fuel (i * 2) (copy_behind i region) in
    if ltb i (length region) then rest else ok region

-- Whether a table may have `new_len` references.
unfoldable pub too_long : TableInstance → ℕ → Bool
too_long t new_len =
    leb maximum_table_index new_len
    || elim (t.max_size) [ none ↦ false | some most ↦ ltb most new_len ]

unfoldable pub grow : TableInstance → ℕ → ℕ → Outcome (TableInstance × ℕ)
grow t delta initial_ref =
    let current_len = length t.references % 2 ^ 32 in
    if delta == 0
    then ok (t, current_len)
    else if too_long t (current_len + delta)
    then ok (t, 2 ^ 32 - 1)
    else (let longer = t.references ++ replicate delta 0 in
        if initial_ref == 0 then ok (record t { references = longer }, current_len) else (do
          region ← assign (drop current_len longer) 0 initial_ref
          filled ← fill_loop 32 1 region
          ok (record t { references = take current_len longer ++ filled }, current_len)))
