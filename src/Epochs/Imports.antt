-- ===== src/Epochs/Imports.antt =====
-- unreferencedClosedModules: the search for a live module that imports a closed one. The importers of
-- a module are the keys of its map, in any order; a module is a number.
use andsifr.Common.{
  ℕ, zero, suc, Bool, true, false, not, Option, none, some, List, [], ◌∷◌, ◌++◌, if◌then◌else◌,
}
use andsifr.Common.Outcome.{Outcome, ok, stuck}
use andsifr.Epochs.{at}

pub record Modules : Type 0 where
  pub importers : ℕ → List ℕ
  pub memory_closed : ℕ → Bool

-- The inner loop: the importers that were not seen, and the set of those that are then, or no
-- answer at one that is live.
unfoldable pub scan_importers : Modules → (ℕ → Bool) → List ℕ → Option (List ℕ × (ℕ → Bool))
scan_importers g seen [] = some ([], seen)
scan_importers g seen (y ∷ ys) =
    let rest = scan_importers g (at y true seen) ys in
    let skip = scan_importers g seen ys in
    if not (g.memory_closed y)
    then none
    else if seen y
    then skip
    else elim rest [ none ↦ none | some r ↦ some (y ∷ r.0, r.1) ]

-- The outer loop, at `todo`, the end of `modules` from the index on.
unfoldable pub search : ℕ → Modules → (ℕ → Bool) → List ℕ → List ℕ → Outcome (Option (List ℕ))
search fuel g seen modules [] = ok (some modules)
search zero g seen modules (x ∷ todo) = stuck
search (suc fuel) g seen modules (x ∷ todo) = elim (scan_importers g seen (g.importers x)) [
  | none ↦ ok none
  | some r ↦ search fuel g r.1 (modules ++ r.0) (todo ++ r.0)
]

-- With `n` modules, one round each is enough.
unfoldable pub unreferenced_closed_modules : ℕ → Modules → ℕ → Outcome (Option (List ℕ))
unreferenced_closed_modules n g m = elim (g.importers m) [
  | [] ↦ ok (some (m ∷ []))
  | y ∷ ys ↦ search (suc n) g (at m true (λ x. false)) (m ∷ []) (m ∷ [])
]
