-- ===== src/Store/Register.antt =====
-- registerModule puts a module in front, under its name if it has one, unless the name is taken.
use Prim.Native.String.{String}
use text.Mathlib.Text
use text.Mathlib.TextEquality.{eq_iff}
use andsifr.Common.{
  ℕ, suc, ◌≡◌, ◌≢◌, refl, sym, ap, subst, ◌∙◌, inl, inr, true, false, Option, none, some, List, [],
  ◌∷◌, ◌==◌, if◌then◌else◌, Bool-cases, length, max, arith,
}
use andsifr.Common.Result.{ok, err}
use andsifr.Store.{
  Heap, Store, already_instantiated, points_to, set_next, set_prev, find, claim_name, link_first,
  register_in, register_module,
}
use andsifr.Store.Links.{
  Linked, In, Distinct, Linked-frame, next-set_next, prev-set_next, next-set_prev, prev-set_prev,
  points_to_iff,
}
use andsifr.Store.Names.{Holds, name-set_next, name-set_prev}
use andsifr.Store.Delete.{not_points_to, In-ne}

-- The heap with `m` in front of the list that begins at `head`.
abbrev front : ℕ → Option ℕ → Heap → Heap
front m head h = set_prev head (some m) (set_next (some m) head h)

front-next :
    (m i : ℕ) (head : Option ℕ) (h : Heap)
    → (front m head h i).next ≡ (if m == i then head else (h i).next)
front-next m i head h =
    next-set_prev head (some m) (set_next (some m) head h) i ∙ next-set_next (some m) head h i

front-prev :
    (m i : ℕ) (head : Option ℕ) (h : Heap)
    → (front m head h i).prev ≡ (if points_to head i then some m else (h i).prev)
front-prev m i head h =
    prev-set_prev head (some m) (set_next (some m) head h) i ∙ rw (prev-set_next (some m) head h i)

Linked-behind :
    (h : Heap) (m : ℕ) (head : Option ℕ) (xs : List ℕ)
    → Linked h none head xs
    → In m xs ≡ false
    → Distinct xs
    → Linked (front m head h) (some m) head xs
Linked-behind h m head [] l out d = l
Linked-behind h m head (y ∷ r) l out d =
    let k : Heap = front m head h in
    let other : (m == y) ≡ false = ground arith in
    let next : (k y).next ≡ (h y).next = front-next m y head h ∙ rw other in
    (
      l.0,
      front-prev m y head h ∙ rw ((points_to_iff head y).1 l.0),
      subst (λ n. Linked k (some y) n r) (sym next)
          (Linked-frame h k (some y) (h y).next r
            (λ z i.
              front-prev m z head h
              ∙ rw (not_points_to head z (λ e. let same : y ≡ z = cc in In-ne y z r d.0 i same)))
            (λ z i.
              front-next m z head h
              ∙ (let ne = In-ne m z (y ∷ r) out (ground (arith, i)) in ground (arith, ne)))
            l.2),
    )

Linked-front :
    (h : Heap) (m : ℕ) (head : Option ℕ) (xs : List ℕ)
    → Linked h none head xs
    → In m xs ≡ false
    → Distinct xs
    → (h m).prev ≡ none
    → Linked (front m head h) none (some m) (m ∷ xs)
Linked-front h m head xs l out d first =
    let next : (front m head h m).next ≡ head = front-next m m head h ∙ ground arith in
    (
      refl,
      front-prev m m head h ∙ rw (not_points_to head m (not_head xs l out)) first,
      subst (λ n. Linked (front m head h) (some m) n xs) (sym next)
          (Linked-behind h m head xs l out d),
    )
  where
    not_head : (ys : List ℕ) → Linked h none head ys → In m ys ≡ false → head ≢ some m
    not_head [] k o e = cc
    not_head (y ∷ ys) k o e = let same : y ≡ m = cc in ground (arith, same)

-- What the map is after a module is registered.
abbrev pub claimed : String → ℕ → List (String × ℕ) → List (String × ℕ)
claimed name m l = if Text.◌==◌ name "" then l else (name, m) ∷ l

named_claimed :
    (s : Store) (l : List (String × ℕ)) (xs : List ℕ) (m x : ℕ)
    → Holds s l xs
    → (Text.◌==◌ (s.heap m).module_name "" ≡ false → find (s.heap m).module_name l ≡ none)
    → In x (m ∷ xs) ≡ true
    → Text.◌==◌ (s.heap x).module_name "" ≡ false
    → find (s.heap x).module_name (claimed (s.heap m).module_name m l) ≡ some x
unfolding find
named_claimed s l xs m x v free i nz = elim (Bool-cases (x == m)) [
  | inl same ↦
      let e : x ≡ m = ground arith in
      let n : (s.heap x).module_name ≡ (s.heap m).module_name =
        ap (λ j. (s.heap j).module_name) e in
      let named : Text.◌==◌ (s.heap m).module_name "" ≡ false =
        subst (λ k. Text.◌==◌ k "" ≡ false) n nz in
      let hit : Text.◌==◌ (s.heap x).module_name (s.heap m).module_name ≡ true = (eq_iff _ _).1 n in
      rw (named, hit) (ap some (sym e))
  | inr other ↦
      let mine = v.named x (ground arith) nz in
      elim (Bool-cases (Text.◌==◌ (s.heap m).module_name "")) [
        | inl anonymous ↦ rw anonymous mine
        | inr named ↦ elim (Bool-cases (Text.◌==◌ (s.heap x).module_name (s.heap m).module_name)) [
          | inl clash ↦
              let n : (s.heap x).module_name ≡ (s.heap m).module_name = (eq_iff _ _).0 clash in
              let k : none ≡ some x = sym (free named) ∙ ap (λ j. find j l) (sym n) ∙ mine in cc
          | inr apart ↦ rw (named, apart) mine
        ]
      ]
]

listed_claimed :
    (s : Store) (l : List (String × ℕ)) (xs : List ℕ) (m x : ℕ) (k : String)
    → Holds s l xs
    → find k (claimed (s.heap m).module_name m l) ≡ some x
    → (In x (m ∷ xs) ≡ true) × ((s.heap x).module_name ≡ k) × (Text.◌==◌ k "" ≡ false)
unfolding find
listed_claimed s l xs m x k v e = elim (Bool-cases (Text.◌==◌ (s.heap m).module_name "")) [
  | inl anonymous ↦ old (rw anonymous at e)
  | inr named ↦ elim (Bool-cases (Text.◌==◌ k (s.heap m).module_name)) [
    | inl mine ↦
        let f : some m ≡ some x = rw (named, mine) at e in
        let same : m ≡ x = cc in
        let n : k ≡ (s.heap m).module_name = (eq_iff _ _).0 mine in
        (
          ground (arith, same),
          ap (λ j. (s.heap j).module_name) (sym same) ∙ sym n,
          subst (λ j. Text.◌==◌ j "" ≡ false) (sym n) named,
        )
    | inr other ↦ old (rw (named, other) at e)
  ]
]
  where
    old :
        find k l ≡ some x
        → (In x (m ∷ xs) ≡ true) × ((s.heap x).module_name ≡ k) × (Text.◌==◌ k "" ≡ false)
    old f = let o = v.listed k x f in (ground (arith, o.0), o.1, o.2)

front-Holds :
    (s s1 : Store) (l : List (String × ℕ)) (xs : List ℕ) (m : ℕ)
    → Holds s l xs
    → In m xs ≡ false
    → (s.heap m).prev ≡ none
    → s1.heap ≡ s.heap
    → s1.module_list ≡ s.module_list
    → s1.name_to_module ≡ some (claimed (s.heap m).module_name m l)
    → (Text.◌==◌ (s.heap m).module_name "" ≡ false → find (s.heap m).module_name l ≡ none)
    → Holds (link_first m s1) (claimed (s.heap m).module_name m l) (m ∷ xs)
unfolding link_first
front-Holds s s1 l xs m v out first eh el en free =
    let name : (x : ℕ) → ((link_first m s1).heap x).module_name ≡ (s.heap x).module_name = λ x.
      name-set_prev s1.module_list (some m) (set_next (some m) s1.module_list s1.heap) x
      ∙ name-set_next (some m) s1.module_list s1.heap x
      ∙ ap (λ (h : Heap). (h x).module_name) eh in
    record {
      open_map = en;
      linked =
          subst (λ h. Linked (front m s1.module_list h) none (some m) (m ∷ xs)) (sym eh)
            (subst (λ o. Linked (front m o s.heap) none (some m) (m ∷ xs)) (sym el)
              (Linked-front s.heap m s.module_list xs v.linked out v.distinct first));
      distinct = (out, v.distinct);
      named = λ x i nz.
          subst (λ n. find n (claimed (s.heap m).module_name m l) ≡ some x) (sym (name x))
            (named_claimed s l xs m x v free i (subst (λ n. Text.◌==◌ n "" ≡ false) (name x) nz));
      listed = λ k x e. let r = listed_claimed s l xs m x k v e in (r.0, name x ∙ r.1, r.2);
    }

-- In a store whose list and map are in step, and for a module that it does not hold and that no
-- link leads back from: registerModule fails with the name if another module has it, and else
-- puts the module first in the list, and its name, if it has one, in the map; both are in step
-- again.
pub register_module_lem :
    (s : Store) (l : List (String × ℕ)) (xs : List ℕ) (m : ℕ)
    → Holds s l xs
    → In m xs ≡ false
    → (s.heap m).prev ≡ none
    → ((other : ℕ)
        → Text.◌==◌ (s.heap m).module_name "" ≡ false
        → find (s.heap m).module_name l ≡ some other
        → register_module m s ≡ err (already_instantiated (s.heap m).module_name))
      × ((Text.◌==◌ (s.heap m).module_name "" ≡ false → find (s.heap m).module_name l ≡ none)
          → (s' : Store) × (register_module m s ≡ ok s')
            × Holds s' (claimed (s.heap m).module_name m l) (m ∷ xs))
unfolding register_module register_in claim_name
register_module_lem s l xs m v out first = (
  λ other named taken. ap (register_in m s) v.open_map ∙ rw (named, taken),
  λ free. elim (Bool-cases (Text.◌==◌ (s.heap m).module_name "")) [
    | inl anonymous ↦ (
      link_first m s,
      ap (register_in m s) v.open_map ∙ rw anonymous,
      front-Holds s s l xs m v out first refl refl (v.open_map ∙ rw anonymous) free,
    )
    | inr named ↦
        let s1 : Store = record s {
          name_to_module = some (((s.heap m).module_name, m) ∷ l);
          name_to_module_cap = max (suc (length l)) s.name_to_module_cap;
        } in
        (
          link_first m s1,
          ap (register_in m s) v.open_map ∙ rw (named, free named),
          front-Holds s s1 l xs m v out first refl refl (rw named) free,
        )
  ],
)
