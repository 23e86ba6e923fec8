-- ===== src/Store.antt =====
-- internal/wasm/store_module_list.go, and Store.CloseWithExitCode of internal/wasm/store.go: the
-- modules of a store, in a list linked through the modules themselves, and the map of their names.
-- A pointer to a module is a number; the heap says what stands there.
pub mod Links
pub mod Delete
pub mod Names
pub mod Register
pub mod Unlisted
pub mod Closing
mod Tests
use Prim.Native.String.{String}
use text.Mathlib.Text
use andsifr.Common.{
  ℕ, zero, suc, ◌+◌, ◌*◌, ◌≡◌, Bool, true, false, ◌&&◌, Option, none, some, List, [], ◌∷◌, ltb, leb,
  ◌==◌, if◌then◌else◌, length, max,
}
use andsifr.Common.Outcome.{Outcome, stuck, ◌>>=◌ as ◌>>=ₒ◌}
use andsifr.Common.Result.{Result, ok, err, ◌>>=◌}

-- The fields of ModuleInstance that the store uses.
pub record Node : Type 0 where
  pub prev : Option ℕ
  pub next : Option ℕ
  pub module_name : String

abbrev pub Heap : Type 0
Heap = ℕ → Node

-- `nameToModule` is none once it is nil.
pub record Store : Type 0 where
  pub heap : Heap
  pub module_list : Option ℕ
  pub name_to_module : Option (List (String × ℕ))
  pub name_to_module_cap : ℕ

abbrev pub shrink_threshold : ℕ
shrink_threshold = 100

abbrev pub points_to : Option ℕ → ℕ → Bool
points_to none m = false
points_to (some p) m = p == m

unfoldable pub set_next : Option ℕ → Option ℕ → Heap → Heap
set_next none n h i = h i
set_next (some p) n h i = if p == i then record (h i) { next = n } else h i

unfoldable pub set_prev : Option ℕ → Option ℕ → Heap → Heap
set_prev none p h i = h i
set_prev (some n) p h i = if n == i then record (h i) { prev = p } else h i

-- The map from names to modules: a key that is there stands once.
unfoldable pub find : String → List (String × ℕ) → Option ℕ
find k [] = none
find k ((j, m) ∷ r) = if Text.◌==◌ k j then some m else find k r

unfoldable pub erase : String → List (String × ℕ) → List (String × ℕ)
erase k [] = []
erase k ((j, m) ∷ r) = let rest = erase k r in if Text.◌==◌ k j then rest else (j, m) ∷ rest

abbrev pub entries : Option (List (String × ℕ)) → List (String × ℕ)
entries none = []
entries (some l) = l

-- The links that deleteModule sets: around the module, then its own.
unfoldable pub join_around : ℕ → Heap → Heap
join_around m h = let h1 = set_next (h m).prev (h m).next h in set_prev (h1 m).next (h1 m).prev h1

unfoldable pub unlink : ℕ → Heap → Heap
unlink m h i =
    let h2 = join_around m h in if m == i then record (h2 i) { prev = none; next = none } else h2 i

-- The name's entry goes if it points at the module; a map far larger than its contents is copied.
unfoldable pub forget_name : String → ℕ → Store → Store
forget_name name m s =
    let names : Option (List (String × ℕ)) = elim (s.name_to_module) [
      | none ↦ none
      | some l ↦ some (if points_to (find name l) m then erase name l else l)
    ] in
    let new_cap = max (length (entries names)) shrink_threshold in
    record s {
      name_to_module =
          if leb (new_cap * 2) s.name_to_module_cap then some (entries names) else names;
      name_to_module_cap =
          if leb (new_cap * 2) s.name_to_module_cap then new_cap else s.name_to_module_cap;
    }

unfoldable pub delete_module : ℕ → Store → Store
delete_module m s =
    let s1 : Store = record s {
      heap = unlink m s.heap;
      module_list =
          if points_to s.module_list m then (join_around m s.heap m).next else s.module_list;
    } in
    if Text.◌==◌ (s.heap m).module_name "" then s1 else forget_name (s.heap m).module_name m s1

pub data StoreError : Type 0 where
  already_closed : StoreError
  already_instantiated : String → StoreError
  not_instantiated : String → StoreError

-- The map's part of registerModule.
unfoldable pub claim_name : String → ℕ → Store → List (String × ℕ) → Result StoreError Store
claim_name name m s l = if Text.◌==◌ name "" then ok s else elim (find name l) [
  | some other ↦ err (already_instantiated name)
  | none ↦ ok (record s {
    name_to_module = some ((name, m) ∷ l);
    name_to_module_cap = max (suc (length l)) s.name_to_module_cap;
  })
]

unfoldable pub link_first : ℕ → Store → Store
link_first m s =
    let head = s.module_list in
    record s { heap = set_prev head (some m) (set_next (some m) head s.heap); module_list = some m }

-- registerModule with the map that the store has, if it is open.
unfoldable pub register_in : ℕ → Store → Option (List (String × ℕ)) → Result StoreError Store
register_in m s none = err already_closed
register_in m s (some l) = do s1 ← claim_name (s.heap m).module_name m s l; ok (link_first m s1)

unfoldable pub register_module : ℕ → Store → Result StoreError Store
register_module m s = register_in m s s.name_to_module

-- `module`, which looks the name up.
unfoldable pub lookup_module : String → Store → Result StoreError ℕ
lookup_module name s = elim (find name (entries s.name_to_module)) [
  | none ↦ err (not_instantiated name)
  | some m ↦ ok m
]

-- The modules from a pointer on, by their links; the fuel is at least their number.
unfoldable pub snapshot : ℕ → Heap → Option ℕ → Outcome (List ℕ)
snapshot fuel h none = Outcome.ok []
snapshot zero h (some m) = stuck
snapshot (suc fuel) h (some m) = snapshot fuel h (h m).next >>=ₒ λ ms. Outcome.ok (m ∷ ms)

-- The part of CloseWithExitCode under the lock, with the modules to close, in the order of closing.
unfoldable pub take_modules : ℕ → Store → Outcome (Store × List ℕ)
take_modules fuel s = snapshot fuel s.heap s.module_list >>=ₒ λ ms.
    Outcome.ok (record s { module_list = none; name_to_module = none; name_to_module_cap = 0 }, ms)
