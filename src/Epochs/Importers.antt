-- ===== src/Epochs/Importers.antt =====
-- The search against reachability along imports.
use andsifr.Common.{
  ℕ, zero, suc, ◌+◌, ◌<◌, ◌≤◌, ◌≡◌, ◌⊎◌, refl, sym, subst, inl, inr, Bool, true, false, Option,
  none, some, List, [], ◌∷◌, ◌++◌, length, All, arith, length-append,
}
use andsifr.Common.Outcome.{ok}
use andsifr.Epochs.{at}
use andsifr.Epochs.Order.{In}
use andsifr.Epochs.Imports.{Modules, scan_importers, search, unreferenced_closed_modules}
use andsifr.Epochs.Scan.{
  Reaches, direct, through, unseen, In-append_left, In-append_right, IsScanned, Scans, at-old,
  scan-Scans,
}

-- The state of the search: what was seen is in the list, the modules before the index have all their
-- importers closed and in the list, and all of it reaches `m`.
record IsSearch (g : Modules) (m : ℕ) (seen : ℕ → Bool) (modules todo : List ℕ) : Type 0 where
  root : In m modules
  listed : (y : ℕ) → seen y ≡ true → In y modules
  done :
      (x y : ℕ)
      → In x modules
      → In y (g.importers x)
      → In x todo ⊎ ((g.memory_closed y ≡ true) × In y modules)
  reaches : (x : ℕ) → In x todo → (m ≡ x) ⊎ Reaches g m x

extend : (g : Modules) (m x y : ℕ) → (m ≡ x) ⊎ Reaches g m x → In y (g.importers x) → Reaches g m y
extend g m x y (inl same) h = direct y (subst (λ k. In y (g.importers k)) (sym same) h)
extend g m x y (inr r) h = through x y r h

In-append_cases : (x : ℕ) (xs ys : List ℕ) → In x (xs ++ ys) → In x xs ⊎ In x ys
In-append_cases x [] ys h = inr h
In-append_cases x (z ∷ xs) ys (inl h) = inl (inl h)
In-append_cases x (z ∷ xs) ys (inr h) = elim (In-append_cases x xs ys h) [
  | inl l ↦ inl (inr l)
  | inr r ↦ inr r
]

round_covered :
    (g : Modules) (n x y : ℕ) (seen : ℕ → Bool) (modules found : List ℕ) (seen' : ℕ → Bool)
    → IsScanned g n seen (g.importers x) found seen'
    → ((k : ℕ) → seen k ≡ true → In k modules)
    → In y (g.importers x)
    → (g.memory_closed y ≡ true) × In y (modules ++ found)
round_covered g n x y seen modules found seen' s listed imports =
    let (closed, place) = s.covered y imports in
    (
      closed,
      elim place [
        | inl old ↦ In-append_left y modules found (listed y old)
        | inr new ↦ In-append_right y modules found new
      ],
    )

round-IsSearch :
    (g : Modules) (m n x : ℕ) (seen : ℕ → Bool) (modules todo found : List ℕ) (seen' : ℕ → Bool)
    → IsSearch g m seen modules (x ∷ todo)
    → IsScanned g n seen (g.importers x) found seen'
    → IsSearch g m seen' (modules ++ found) (todo ++ found)
round-IsSearch g m n x seen modules todo found seen' i s = record {
  root = In-append_left m modules found i.root;
  listed = λ y h. elim (s.grown y h) [
    | inl old ↦ In-append_left y modules found (i.listed y old)
    | inr new ↦ In-append_right y modules found new
  ];
  done = λ z y inside imports. elim (In-append_cases z modules found inside) [
    | inr new ↦ inl (In-append_right z todo found new)
    | inl old ↦ elim (i.done z y old imports) [
      | inl (inl same) ↦ inr (
          round_covered g n x y seen modules found seen' s i.listed
            (subst (λ k. In y (g.importers k)) (sym same) imports))
      | inl (inr later) ↦ inl (In-append_left z todo found later)
      | inr (closed, there) ↦ inr (closed, In-append_left y modules found there)
    ]
  ];
  reaches = λ z h. elim (In-append_cases z todo found h) [
    | inl old ↦ i.reaches z (inr old)
    | inr new ↦ inr (extend g m x z (i.reaches x (inl refl)) (s.from z new))
  ];
}

-- What the search comes to: a live module that imports `m`, or a list that has `m` and, for each of
-- its modules, the importers, which are closed.
abbrev Finds : Modules → ℕ → Option (List ℕ) → Type 0
Finds g m none = (z : ℕ) × Reaches g m z × (g.memory_closed z ≡ false)
Finds g m (some ms) =
    In m ms × ((x y : ℕ) → In x ms → In y (g.importers x) → (g.memory_closed y ≡ true) × In y ms)

-- A round, where the rest of the search comes to what it should.
round-Finds :
    (g : Modules) (m n fuel x : ℕ) (seen : ℕ → Bool) (modules todo : List ℕ)
    (o : Option (List ℕ × (ℕ → Bool)))
    → scan_importers g seen (g.importers x) ≡ o
    → Scans g n seen (g.importers x) o
    → (m ≡ x) ⊎ Reaches g m x
    → ((found : List ℕ) (seen' : ℕ → Bool)
        → IsScanned g n seen (g.importers x) found seen'
        → (r : Option (List ℕ)) × (search fuel g seen' (modules ++ found) (todo ++ found) ≡ ok r)
          × Finds g m r)
    → (r : Option (List ℕ)) × (search (suc fuel) g seen modules (x ∷ todo) ≡ ok r) × Finds g m r
unfolding search
round-Finds g m n fuel x seen modules todo none e (y, there, live) reach each =
    (none, rw (search, e) refl, (y, extend g m x y reach there, live))
round-Finds g m n fuel x seen modules todo (some r) e s reach each =
    let (result, same, finds) = each r.0 r.1 s in (result, rw (search, e) same, finds)

search-Finds :
    (g : Modules) (m n fuel : ℕ) (seen : ℕ → Bool) (modules todo : List ℕ)
    → ((x : ℕ) → All (λ y. y < n) (g.importers x))
    → length todo + unseen n seen ≤ fuel
    → IsSearch g m seen modules todo
    → (r : Option (List ℕ)) × (search fuel g seen modules todo ≡ ok r) × Finds g m r
unfolding search
search-Finds g m n fuel seen modules [] small enough i = (
  some modules,
  refl,
  (
    i.root,
    λ x y inside imports. elim (i.done x y inside imports) [
      | inl none_left ↦ absurd none_left
      | inr found ↦ found
    ],
  ),
)
search-Finds g m n zero seen modules (x ∷ todo) small enough i = absurd (omega arith)
search-Finds g m n (suc fuel) seen modules (x ∷ todo) small enough i =
    round-Finds g m n fuel x seen modules todo (scan_importers g seen (g.importers x)) refl
      (scan-Scans g n seen (g.importers x) (small x)) (i.reaches x (inl refl))
      (λ found seen' s.
        search-Finds g m n fuel seen' (modules ++ found) (todo ++ found) small
          (omega (arith, s.measure, length-append todo found))
          (round-IsSearch g m n x seen modules todo found seen' i s))

unseen-le : (n : ℕ) (seen : ℕ → Bool) → unseen n seen ≤ n
unfolding unseen
unseen-le zero seen = omega arith
unseen-le (suc n) seen = ground (arith, unseen-le n seen)

start-IsSearch : (g : Modules) (m : ℕ) → IsSearch g m (at m true (λ x. false)) (m ∷ []) (m ∷ [])
start-IsSearch g m = record {
  root = inl refl;
  listed = λ y h. elim (at-old m y (λ x. false) h) [ inl never ↦ cc | inr same ↦ inl same ];
  done = λ x y inside imports. inl inside;
  reaches = λ x h. elim h [ inl same ↦ inl same | inr never ↦ absurd never ];
}

-- The answer for a module that imports `m`: it is closed and one of the modules that are released
-- together, or there is a live one.
abbrev pub Answers : Modules → ℕ → ℕ → Option (List ℕ) → Type 0
Answers g m y none = (z : ℕ) × Reaches g m z × (g.memory_closed z ≡ false)
Answers g m y (some ms) = (g.memory_closed y ≡ true) × In y ms

reached :
    (g : Modules) (m y : ℕ) (ms : List ℕ)
    → Finds g m (some ms)
    → Reaches g m y
    → (g.memory_closed y ≡ true) × In y ms
reached g m y ms (root, closed) (direct z h) = closed m z root h
reached g m y ms (root, closed) (through x z r h) =
    closed x z (reached g m x ms (root, closed) r).1 h

Finds-Answers :
    (g : Modules) (m y : ℕ) (r : Option (List ℕ)) → Finds g m r → Reaches g m y → Answers g m y r
Finds-Answers g m y none finds reach = finds
Finds-Answers g m y (some ms) finds reach = reached g m y ms finds reach

has_importer : (g : Modules) (m y : ℕ) → Reaches g m y → g.importers m ≡ [] → ⊥
has_importer g m y (direct z h) e = rw e at h
has_importer g m y (through x z r h) e = has_importer g m x r e

importers_answer :
    (g : Modules) (n m y : ℕ) (l : List ℕ)
    → g.importers m ≡ l
    → ((x : ℕ) → All (λ z. z < n) (g.importers x))
    → Reaches g m y
    → (r : Option (List ℕ)) × (unreferenced_closed_modules n g m ≡ ok r) × Answers g m y r
unfolding unreferenced_closed_modules
importers_answer g n m y [] e small reach = absurd (has_importer g m y reach e)
importers_answer g n m y (x ∷ xs) e small reach =
    let seen : ℕ → Bool = at m true (λ k. false) in
    let (r, same, finds) =
      search-Finds g m n (suc n) seen (m ∷ []) (m ∷ []) small (omega (arith, unseen-le n seen))
        (start-IsSearch g m) in
    (r, rw (unreferenced_closed_modules, e) same, Finds-Answers g m y r finds reach)

-- Among n modules, for a module y that imports m, itself or through others,
-- unreferencedClosedModules returns; it answers nil only when some module that imports m so is
-- live, and else a list that has y, which is closed.
pub unreferenced-Answers :
    (g : Modules) (n m y : ℕ)
    → ((x : ℕ) → All (λ z. z < n) (g.importers x))
    → Reaches g m y
    → (r : Option (List ℕ)) × (unreferenced_closed_modules n g m ≡ ok r) × Answers g m y r
unreferenced-Answers g n m y small reach = importers_answer g n m y (g.importers m) refl small reach
