-- ===== src/Store/Closing.antt =====
-- Store.CloseWithExitCode closes every module that the store holds, the latest first.
use Prim.Native.String.{String}
use text.Mathlib.Text
use andsifr.Common.{
  ℕ, zero, suc, ◌≤◌, ◌≡◌, refl, sym, subst, ap, ◌∙◌, Option, none, some, List, [], ◌∷◌, length,
  arith, Bool-cases, inl, inr, if◌then◌else◌,
}
use andsifr.Common.Outcome.{ok, ◌>>=◌}
use andsifr.Common.Result
use andsifr.Store.{
  Heap, Store, already_closed, snapshot, take_modules, register_in, register_module, forget_name,
  delete_module, unlink, join_around, points_to,
}
use andsifr.Store.Links.{Linked}
use andsifr.Store.Names.{Holds}

snapshot_lem :
    (fuel : ℕ) (h : Heap) (p o : Option ℕ) (xs : List ℕ)
    → Linked h p o xs
    → length xs ≤ fuel
    → snapshot fuel h o ≡ ok xs
unfolding snapshot
snapshot_lem fuel h p o [] l e = ap (snapshot fuel h) l
snapshot_lem zero h p o (x ∷ xs) l e = absurd (omega arith)
snapshot_lem (suc fuel) h p o (x ∷ xs) l e =
    ap (snapshot (suc fuel) h) l.0
    ∙ ap (λ r. r >>= λ ms. ok (x ∷ ms))
        (snapshot_lem fuel h (some x) (h x).next xs l.2 (omega arith))

-- What can still come once the store is closed: modules that close, or that are registered.
pub data Call : Type 0 where
  delete_call : ℕ → Call
  register_call : ℕ → Call

-- A registration that fails leaves the store as it is.
unfoldable pub registered : ℕ → Store → Store
registered m s = elim (register_module m s) [ Result.ok s' ↦ s' | Result.err e ↦ s ]

unfoldable pub run : Store → List Call → Store
run s [] = s
run s (delete_call m ∷ cs) = run (delete_module m s) cs
run s (register_call m ∷ cs) = run (registered m s) cs

-- No map of names, and none that deleteModule would make anew.
record IsShut (s : Store) : Type 0 where
  list : s.module_list ≡ none
  names : s.name_to_module ≡ none
  cap : s.name_to_module_cap ≡ 0

register_shut : (m : ℕ) (s : Store) → IsShut s → register_module m s ≡ Result.err already_closed
unfolding register_module register_in
register_shut m s v = ap (register_in m s) v.names

registered_shut : (m : ℕ) (s : Store) → IsShut s → registered m s ≡ s
unfolding registered
registered_shut m s v =
    ap (λ r. elim r [ Result.ok s' ↦ s' | Result.err e ↦ s ]) (register_shut m s v)

forget-IsShut : (name : String) (m : ℕ) (s : Store) → IsShut s → IsShut (forget_name name m s)
unfolding forget_name
forget-IsShut name m s v = record {
  list = v.list;
  names = rw (v.names, v.cap);
  cap = rw (v.names, v.cap);
}

delete-IsShut : (m : ℕ) (s : Store) → IsShut s → IsShut (delete_module m s)
unfolding delete_module
delete-IsShut m s v =
    let s1 : Store = record s {
      heap = unlink m s.heap;
      module_list =
          if points_to s.module_list m then (join_around m s.heap m).next else s.module_list;
    } in
    let v1 : IsShut s1 = record { list = rw v.list; names = v.names; cap = v.cap } in
    elim (Bool-cases (Text.◌==◌ (s.heap m).module_name "")) [
      | inl anonymous ↦ rw anonymous v1
      | inr named ↦ rw named (forget-IsShut (s.heap m).module_name m s1 v1)
    ]

run-IsShut : (s : Store) (cs : List Call) → IsShut s → IsShut (run s cs)
unfolding run
run-IsShut s [] v = v
run-IsShut s (delete_call m ∷ cs) v = run-IsShut (delete_module m s) cs (delete-IsShut m s v)
run-IsShut s (register_call m ∷ cs) v =
    run-IsShut (registered m s) cs (subst IsShut (sym (registered_shut m s v)) v)

-- On a store whose list and map are in step, CloseWithExitCode takes all its modules for closing,
-- the latest first, and leaves an empty list; after it, through any sequence of calls of
-- deleteModule and registerModule, the list stays empty and registerModule answers that the store
-- is closed.
pub take_modules_lem :
    (s : Store) (l : List (String × ℕ)) (xs : List ℕ) (fuel : ℕ) (cs : List Call) (m : ℕ)
    → Holds s l xs
    → length xs ≤ fuel
    → (s' : Store) × (take_modules fuel s ≡ ok (s', xs))
      × (s'.module_list ≡ none)
      × ((run s' cs).module_list ≡ none)
      × (register_module m (run s' cs) ≡ Result.err already_closed)
unfolding take_modules
take_modules_lem s l xs fuel cs m v e =
    let s' : Store = record s {
      module_list = none;
      name_to_module = none;
      name_to_module_cap = 0;
    } in
    let shut = run-IsShut s' cs (record { list = refl; names = refl; cap = refl }) in
    (
      s',
      rw (snapshot_lem fuel s.heap none s.module_list xs v.linked e),
      refl,
      shut.list,
      register_shut m (run s' cs) shut,
    )
