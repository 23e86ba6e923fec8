-- ===== src/Store/Tests.antt =====
-- A store of three modules: "env" (0), one with no name (1), and "app" (2), the latest.
use Prim.Native.String.{String}
use text.Mathlib.Text
use text.Mathlib.TextEquality.{eq_iff}
use andsifr.Common.{
  ℕ, ◌≡◌, refl, true, false, none, some, List, [], ◌∷◌, ◌==◌, if◌then◌else◌, arith, inl, inr,
  Bool-cases, sym, subst, zero, suc,
}
use andsifr.Common.Result.{ok, err}
use andsifr.Store.{
  Heap, Store, already_instantiated, already_closed, take_modules, find, delete_module,
  register_module,
}
use andsifr.Store.Names.{Holds, left, delete_module_lem}
use andsifr.Store.Links.{In, without}
use andsifr.Store.Register.{claimed, register_module_lem}
use andsifr.Common.Outcome
use andsifr.Store.Closing.{Call, delete_call, register_call, run, take_modules_lem}
use andsifr.Store.Unlisted.{delete_module_unlisted}

-- Module 3 is not registered and has the name of module 0; module 4 has a name of its own.
abbrev sample_heap : Heap
sample_heap zero = record { prev = some 1; next = none; module_name = "env" }
sample_heap (suc zero) = record { prev = some 2; next = some 0; module_name = "" }
sample_heap (suc (suc zero)) = record { prev = none; next = some 1; module_name = "app" }
sample_heap (suc (suc (suc zero))) = record { prev = none; next = none; module_name = "env" }
sample_heap (suc (suc (suc (suc n)))) = record { prev = none; next = none; module_name = "new" }

abbrev names : List (String × ℕ)
names = ("app", 2) ∷ ("env", 0) ∷ []

abbrev modules : List ℕ
modules = 2 ∷ 1 ∷ 0 ∷ []

abbrev sample : Store
sample = record {
  heap = sample_heap;
  module_list = some 2;
  name_to_module = some names;
  name_to_module_cap = 100;
}

sample_named :
    (m : ℕ)
    → (if m == 2 then true else if m == 1 then true else if m == 0 then true else false) ≡ true
    → Text.◌==◌ (sample_heap m).module_name "" ≡ false
    → find (sample_heap m).module_name names ≡ some m
unfolding find
sample_named zero i e = refl
sample_named (suc zero) i e = cc
sample_named (suc (suc zero)) i e = refl
sample_named (suc (suc (suc m))) i e = absurd (ground arith)

abbrev Listed : String → ℕ → Type 0
Listed k m = (In m modules ≡ true) × ((sample_heap m).module_name ≡ k) × (Text.◌==◌ k "" ≡ false)

sample-Listed : (k : String) (m : ℕ) → find k names ≡ some m → Listed k m
unfolding find
sample-Listed k m e = elim (Bool-cases (Text.◌==◌ k "app")) [
  | inl app ↦
      let n : k ≡ "app" = (eq_iff k "app").0 app in
      let f : some 2 ≡ some m = rw app at e in
      let same : 2 ≡ m = cc in
      subst (Listed k) same (refl, sym n, subst (λ j. Text.◌==◌ j "" ≡ false) (sym n) refl)
  | inr other ↦ elim (Bool-cases (Text.◌==◌ k "env")) [
    | inl env ↦
        let n : k ≡ "env" = (eq_iff k "env").0 env in
        let f : some 0 ≡ some m = rw (other, env) at e in
        let same : 0 ≡ m = cc in
        subst (Listed k) same (refl, sym n, subst (λ j. Text.◌==◌ j "" ≡ false) (sym n) refl)
    | inr neither ↦ absurd (let f : none ≡ some m = rw (other, neither) at e in cc)
  ]
]

sample-Holds : Holds sample names modules
unfolding find
sample-Holds = record {
  open_map = refl;
  linked = (refl, refl, (refl, refl, (refl, refl, refl)));
  distinct = (refl, (refl, (refl, tt)));
  named = sample_named;
  listed = sample-Listed;
}

delete_module_lem_example : Holds (delete_module 1 sample) (left "" 1 names) (without 1 modules)
delete_module_lem_example = delete_module_lem sample names modules 1 sample-Holds refl

delete_module_unlisted_example : Holds (delete_module 3 sample) names modules
delete_module_unlisted_example =
    delete_module_unlisted sample names modules 3 sample-Holds refl refl refl

register_module_lem_example :
    ((other : ℕ)
      → Text.◌==◌ "new" "" ≡ false
      → find "new" names ≡ some other
      → register_module 4 sample ≡ err (already_instantiated "new"))
    × ((Text.◌==◌ "new" "" ≡ false → find "new" names ≡ none)
        → (s' : Store) × (register_module 4 sample ≡ ok s')
          × Holds s' (claimed "new" 4 names) (4 ∷ modules))
register_module_lem_example = register_module_lem sample names modules 4 sample-Holds refl refl

-- Two modules close behind the store, and a registration comes between them.
abbrev later : List Call
later = delete_call 2 ∷ register_call 4 ∷ delete_call 4 ∷ []

take_modules_lem_example :
    (s' : Store) × (take_modules 3 sample ≡ Outcome.ok (s', modules))
    × (s'.module_list ≡ none)
    × ((run s' later).module_list ≡ none)
    × (register_module 4 (run s' later) ≡ err already_closed)
take_modules_lem_example =
    take_modules_lem sample names modules 3 later 4 sample-Holds (omega arith)
