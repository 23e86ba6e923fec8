-- ===== src/Store/Names.antt =====
-- registerModule and deleteModule keep the list and the map of names in step.
use Prim.Native.String.{String}
use text.Mathlib.Text
use text.Mathlib.TextEquality.{eq_iff}
use andsifr.Common.{
  ℕ, ◌≡◌, ◌≢◌, refl, sym, ap, subst, ◌∙◌, inl, inr, Bool, true, false, Option, none, some, List, [],
  ◌∷◌, ◌==◌, if◌then◌else◌, Bool-cases, arith,
}
use andsifr.Store.{
  Heap, Store, points_to, set_next, set_prev, join_around, unlink, find, erase, forget_name,
  delete_module,
}
use andsifr.Store.Links.{Linked, In, Distinct, without, next_self, points_to_iff}
use andsifr.Store.Delete.{skip, Linked-unlink}

-- The store `s` holds the modules `xs`, the latest first, and its map is `l`.
pub record Holds (s : Store) (l : List (String × ℕ)) (xs : List ℕ) : Type 0 where
  pub open_map : s.name_to_module ≡ some l
  pub linked : Linked s.heap none s.module_list xs
  pub distinct : Distinct xs
  pub named :
      (m : ℕ)
      → In m xs ≡ true
      → Text.◌==◌ (s.heap m).module_name "" ≡ false
      → find (s.heap m).module_name l ≡ some m
  pub listed :
      (k : String) (m : ℕ)
      → find k l ≡ some m
      → (In m xs ≡ true) × ((s.heap m).module_name ≡ k) × (Text.◌==◌ k "" ≡ false)

find-erase :
    (k j : String) (l : List (String × ℕ))
    → find k (erase j l) ≡ (if Text.◌==◌ k j then none else find k l)
unfolding find erase
find-erase k j [] = ground arith
find-erase k j ((i, m) ∷ r) = ground (arith, eq_iff k j, eq_iff j i, eq_iff k i, find-erase k j r)

In-without :
    (m x : ℕ) (xs : List ℕ)
    → Distinct xs
    → In x (without m xs) ≡ (if m == x then false else In x xs)
In-without m x [] d = ground arith
In-without m x (y ∷ xs) d = ground (arith, d.0, In-without m x xs d.1)

Distinct-without : (m : ℕ) (xs : List ℕ) → Distinct xs → Distinct (without m xs)
Distinct-without m [] d = tt
Distinct-without m (x ∷ xs) d = elim (Bool-cases (m == x)) [
  | inl same ↦ rw same d.1
  | inr other ↦ rw other (In-without m x xs d.1 ∙ ground (arith, d.0), Distinct-without m xs d.1)
]

pub name-set_next :
    (p n : Option ℕ) (h : Heap) (i : ℕ) → (set_next p n h i).module_name ≡ (h i).module_name
unfolding set_next
name-set_next none n h i = refl
name-set_next (some q) n h i = ground arith

pub name-set_prev :
    (n p : Option ℕ) (h : Heap) (i : ℕ) → (set_prev n p h i).module_name ≡ (h i).module_name
unfolding set_prev
name-set_prev none p h i = refl
name-set_prev (some q) p h i = ground arith

pub name-unlink : (m i : ℕ) (h : Heap) → (unlink m h i).module_name ≡ (h i).module_name
unfolding unlink join_around
name-unlink m i h = elim (Bool-cases (m == i)) [
  | inl same ↦ rw (unlink, same) (name-set_prev _ _ _ i ∙ name-set_next _ _ h i)
  | inr other ↦ rw (unlink, other) (name-set_prev _ _ _ i ∙ name-set_next _ _ h i)
]

-- What deleteModule leaves of the map.
abbrev pub left : String → ℕ → List (String × ℕ) → List (String × ℕ)
left name m l =
    if Text.◌==◌ name "" then l else if points_to (find name l) m then erase name l else l

if_same {ℓ} : {A : Type ℓ} (b : Bool) (x y : A) → x ≡ y → (if b then x else y) ≡ y
if_same true x y e = e
if_same false x y e = refl

names-forget_name :
    (name : String) (m : ℕ) (s : Store) (l : List (String × ℕ))
    → s.name_to_module ≡ some l
    → (forget_name name m s).name_to_module
      ≡ some (if points_to (find name l) m then erase name l else l)
unfolding forget_name
names-forget_name name m s l e = rw e (if_same _ _ _ refl)

pub delete_parts :
    (m : ℕ) (s : Store) (l : List (String × ℕ))
    → s.name_to_module ≡ some l
    → ((delete_module m s).heap ≡ unlink m s.heap)
      × ((delete_module m s).module_list ≡ skip s.heap m s.module_list)
      × ((delete_module m s).name_to_module ≡ some (left (s.heap m).module_name m l))
unfolding delete_module forget_name
delete_parts m s l e =
    let s1 : Store = record s {
      heap = unlink m s.heap;
      module_list =
          if points_to s.module_list m then (join_around m s.heap m).next else s.module_list;
    } in
    let list : s1.module_list ≡ skip s.heap m s.module_list = rw (next_self m s.heap) in
    elim (Bool-cases (Text.◌==◌ (s.heap m).module_name "")) [
      | inl anonymous ↦ rw anonymous (refl, list, e)
      | inr named ↦ rw named (refl, list, names-forget_name (s.heap m).module_name m s1 l e)
    ]

find-left :
    (k name : String) (m : ℕ) (l : List (String × ℕ))
    → find k (left name m l) ≡ (
        if Text.◌==◌ name ""
        then find k l
        else if points_to (find name l) m
        then (if Text.◌==◌ k name then none else find k l)
        else find k l)
find-left k name m l = elim (Bool-cases (Text.◌==◌ name "")) [
  | inl anonymous ↦ rw anonymous
  | inr named ↦ elim (Bool-cases (points_to (find name l) m)) [
    | inl hit ↦ rw (named, hit) (find-erase k name l)
    | inr miss ↦ rw (named, miss)
  ]
]

-- The names of the modules that stay are found as before.
named_left :
    (s : Store) (l : List (String × ℕ)) (xs : List ℕ) (m x : ℕ)
    → Holds s l xs
    → In m xs ≡ true
    → In x xs ≡ true
    → m ≢ x
    → Text.◌==◌ (s.heap x).module_name "" ≡ false
    → find (s.heap x).module_name (left (s.heap m).module_name m l) ≡ some x
named_left s l xs m x v im ix ne nz =
    let mine = v.named x ix nz in
    find-left (s.heap x).module_name (s.heap m).module_name m l
    ∙ elim (Bool-cases (Text.◌==◌ (s.heap m).module_name "")) [
      | inl anonymous ↦ rw anonymous mine
      | inr named ↦ elim (Bool-cases (points_to (find (s.heap m).module_name l) m)) [
        | inl hit ↦ elim (Bool-cases (Text.◌==◌ (s.heap x).module_name (s.heap m).module_name)) [
          | inl clash ↦
              let e : (s.heap x).module_name ≡ (s.heap m).module_name = (eq_iff _ _).0 clash in
              let k : some m ≡ some x =
                sym (v.named m im named) ∙ ap (λ n. find n l) (sym e) ∙ mine in
              absurd (ne (cc))
          | inr apart ↦ rw (named, hit, apart) mine
        ]
        | inr miss ↦ rw (named, miss) mine
      ]
    ]

-- What the map still holds is not the module that goes.
listed_left :
    (s : Store) (l : List (String × ℕ)) (xs : List ℕ) (m x : ℕ) (k : String)
    → Holds s l xs
    → find k (left (s.heap m).module_name m l) ≡ some x
    → (find k l ≡ some x) × (m ≢ x)
listed_left s l xs m x k v e =
    let f : (if Text.◌==◌ (s.heap m).module_name ""
          then find k l
          else if points_to (find (s.heap m).module_name l) m
          then (if Text.◌==◌ k (s.heap m).module_name then none else find k l)
          else find k l)
        ≡ some x =
      sym (find-left k (s.heap m).module_name m l) ∙ e in
    let found : find k l ≡ some x = ground arith in
    (
      found,
      λ same.
          let at : (s.heap m).module_name ≡ k =
            ap (λ i. (s.heap i).module_name) same ∙ (v.listed k x found).1 in
          let named : Text.◌==◌ (s.heap m).module_name "" ≡ false =
            subst (λ n. Text.◌==◌ n "" ≡ false) (sym at) (v.listed k x found).2 in
          let hit : points_to (find (s.heap m).module_name l) m ≡ true =
            (points_to_iff _ m).1 (ap (λ n. find n l) at ∙ found ∙ ap some (sym same)) in
          let clash : Text.◌==◌ k (s.heap m).module_name ≡ true = (eq_iff _ _).1 (sym at) in
          let gone : none ≡ some x = rw (named, hit, clash) at f in cc,
    )

In-without_both :
    (m x : ℕ) (xs : List ℕ) → Distinct xs → In x (without m xs) ≡ true → (In x xs ≡ true) × (m ≢ x)
In-without_both m x xs d i =
    let k = In-without m x xs d in (ground (arith, k), λ e. ground (arith, k, e))

-- In a store whose list and map of names are in step, deleteModule of a module that it holds
-- takes just that module out of the list, and its name, if the map points at it, out of the map;
-- both are in step again.
pub delete_module_lem :
    (s : Store) (l : List (String × ℕ)) (xs : List ℕ) (m : ℕ)
    → Holds s l xs
    → In m xs ≡ true
    → Holds (delete_module m s) (left (s.heap m).module_name m l) (without m xs)
delete_module_lem s l xs m v im =
    let parts = delete_parts m s l v.open_map in
    let name : (x : ℕ) → ((delete_module m s).heap x).module_name ≡ (s.heap x).module_name =
      λ x. ap (λ (h : Heap). (h x).module_name) parts.0 ∙ name-unlink m x s.heap in
    let stays : (x : ℕ) → In x (without m xs) ≡ true → (In x xs ≡ true) × (m ≢ x) =
      λ x i. In-without_both m x xs v.distinct i in
    record {
      open_map = parts.2;
      linked =
          rw (parts.0, parts.1)
            (Linked-unlink s.heap m none s.module_list xs v.linked im v.distinct (λ x e. cc));
      distinct = Distinct-without m xs v.distinct;
      named = λ x i nz.
          subst (λ n. find n (left (s.heap m).module_name m l) ≡ some x) (sym (name x))
            (named_left s l xs m x v im (stays x i).0 (stays x i).1
              (subst (λ n. Text.◌==◌ n "" ≡ false) (name x) nz));
      listed = λ k x e.
          let r = listed_left s l xs m x k v e in
          let o = v.listed k x r.0 in
          (ground (arith, In-without m x xs v.distinct, o.0, r.1), name x ∙ o.1, o.2);
    }
