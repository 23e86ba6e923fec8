-- ===== src/Store/Links.antt =====
-- The linked list of a store stands for a list of modules, and deleteModule takes one out.
use andsifr.Common.{
  ℕ, ◌≡◌, refl, sym, ap, subst, ◌∙◌, ◌⊎◌, ◌↔◌, inl, inr, Bool, true, false, Option, none, some,
  List, [], ◌∷◌, ◌==◌, if◌then◌else◌, Bool-cases, arith,
}
use andsifr.Store.{Heap, points_to, set_next, set_prev, join_around, unlink}

-- The modules from the pointer `o` on, behind the one that `p` points to.
abbrev pub Linked : Heap → Option ℕ → Option ℕ → List ℕ → Type 0
Linked h p o [] = o ≡ none
Linked h p o (x ∷ xs) = (o ≡ some x) × ((h x).prev ≡ p) × Linked h (some x) (h x).next xs

abbrev pub In : ℕ → List ℕ → Bool
In m [] = false
In m (x ∷ xs) = if m == x then true else In m xs

abbrev pub Distinct : List ℕ → Type 0
Distinct [] = Unit {0}
Distinct (x ∷ xs) = (In x xs ≡ false) × Distinct xs

abbrev pub without : ℕ → List ℕ → List ℕ
without m [] = []
without m (x ∷ xs) = if m == x then xs else x ∷ without m xs

-- The list does not see what happens elsewhere in the heap.
pub Linked-frame :
    (h k : Heap) (p o : Option ℕ) (xs : List ℕ)
    → ((x : ℕ) → In x xs ≡ true → (k x).prev ≡ (h x).prev)
    → ((x : ℕ) → In x xs ≡ true → (k x).next ≡ (h x).next)
    → Linked h p o xs
    → Linked k p o xs
Linked-frame h k p o [] f g l = l
Linked-frame h k p o (x ∷ xs) f g l =
    let same : (k x).next ≡ (h x).next = g x (ground arith) in
    (
      l.0,
      f x (ground arith) ∙ l.1,
      subst (λ n. Linked k (some x) n xs) (sym same)
          (Linked-frame h k (some x) (h x).next xs (λ y i. f y (ground arith))
            (λ y i. g y (ground arith)) l.2),
    )

-- What the links of `unlink` come to, at each module.
pub next-set_next :
    (p n : Option ℕ) (h : Heap) (i : ℕ)
    → (set_next p n h i).next ≡ (if points_to p i then n else (h i).next)
unfolding set_next
next-set_next none n h i = refl
next-set_next (some q) n h i = ground arith

pub prev-set_next : (p n : Option ℕ) (h : Heap) (i : ℕ) → (set_next p n h i).prev ≡ (h i).prev
unfolding set_next
prev-set_next none n h i = refl
prev-set_next (some q) n h i = ground arith

pub next-set_prev : (n p : Option ℕ) (h : Heap) (i : ℕ) → (set_prev n p h i).next ≡ (h i).next
unfolding set_prev
next-set_prev none p h i = refl
next-set_prev (some q) p h i = ground arith

pub prev-set_prev :
    (n p : Option ℕ) (h : Heap) (i : ℕ)
    → (set_prev n p h i).prev ≡ (if points_to n i then p else (h i).prev)
unfolding set_prev
prev-set_prev none p h i = refl
prev-set_prev (some q) p h i = ground arith

next-join_around :
    (m i : ℕ) (h : Heap)
    → (join_around m h i).next ≡ (if points_to (h m).prev i then (h m).next else (h i).next)
unfolding join_around
next-join_around m i h =
    let h1 : Heap = set_next (h m).prev (h m).next h in
    next-set_prev (h1 m).next (h1 m).prev h1 i ∙ next-set_next (h m).prev (h m).next h i

pub next_self : (m : ℕ) (h : Heap) → (join_around m h m).next ≡ (h m).next
next_self m h = next-join_around m m h ∙ ground arith

prev-join_around :
    (m i : ℕ) (h : Heap)
    → (join_around m h i).prev ≡ (if points_to (h m).next i then (h m).prev else (h i).prev)
unfolding join_around
prev-join_around m i h =
    let h1 : Heap = set_next (h m).prev (h m).next h in
    let self : (h1 m).next ≡ (h m).next = next-set_next (h m).prev (h m).next h m ∙ ground arith in
    prev-set_prev (h1 m).next (h1 m).prev h1 i
    ∙ rw (self, prev-set_next (h m).prev (h m).next h m, prev-set_next (h m).prev (h m).next h i)

pub next-unlink :
    (m i : ℕ) (h : Heap)
    → (m == i) ≡ false
    → (unlink m h i).next ≡ (if points_to (h m).prev i then (h m).next else (h i).next)
unfolding unlink
next-unlink m i h ne = rw (unlink, ne) (next-join_around m i h)

pub prev-unlink :
    (m i : ℕ) (h : Heap)
    → (m == i) ≡ false
    → (unlink m h i).prev ≡ (if points_to (h m).next i then (h m).prev else (h i).prev)
unfolding unlink
prev-unlink m i h ne = rw (unlink, ne) (prev-join_around m i h)

pub points_to_iff : (o : Option ℕ) (m : ℕ) → (points_to o m ≡ true) ↔ (o ≡ some m)
points_to_iff none m = ground arith
points_to_iff (some p) m = ground arith

-- The module behind `m` points back at it.
pub successor :
    (h : Heap) (m y : ℕ) (p o : Option ℕ) (xs : List ℕ)
    → Linked h p o xs
    → In m xs ≡ true
    → (h m).next ≡ some y
    → (In y xs ≡ true) × ((h y).prev ≡ some m)
successor h m y p o [] l i e = cc
successor h m y p o (x ∷ []) l i e = ground arith
successor h m y p o (x ∷ (z ∷ r)) l i e = elim (Bool-cases (m == x)) [
  | inl same ↦
      let here : m ≡ x = ground arith in
      let n : some z ≡ some y = sym (l.2.0) ∙ ap (λ k. (h k).next) (sym here) ∙ e in
      let second : z ≡ y = cc in
      (ground arith, ap (λ k. (h k).prev) (sym second) ∙ l.2.1 ∙ ap some (sym here))
  | inr other ↦
      let rest = successor h m y (some x) (h x).next (z ∷ r) l.2 (ground arith) e in
      (ground (arith, rest.0), rest.1)
]

-- The module before `m` points at it.
pub predecessor :
    (h : Heap) (m x : ℕ) (p o : Option ℕ) (xs : List ℕ)
    → Linked h p o xs
    → In m xs ≡ true
    → (h m).prev ≡ some x
    → ((p ≡ some x) × (o ≡ some m)) ⊎ ((In x xs ≡ true) × ((h x).next ≡ some m))
predecessor h m x p o [] l i e = cc
predecessor h m x p o (z ∷ r) l i e = elim (Bool-cases (m == z)) [
  | inl same ↦
      let here : m ≡ z = ground arith in
      inl (sym l.1 ∙ ap (λ k. (h k).prev) (sym here) ∙ e, l.0 ∙ ap some (sym here))
  | inr other ↦ elim (predecessor h m x (some z) (h z).next r l.2 (ground arith) e) [
    | inl (q, n) ↦ let here : z ≡ x = cc in inr (ground arith, ap (λ k. (h k).next) (sym here) ∙ n)
    | inr (q, n) ↦ inr (ground (arith, q), n)
  ]
]
