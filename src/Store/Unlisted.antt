-- ===== src/Store/Unlisted.antt =====
-- deleteModule of a module that was never registered: a registration that failed closes such a one.
use Prim.Native.String.{String}
use text.Mathlib.Text
use andsifr.Common.{
  ℕ, ◌≡◌, ◌≢◌, sym, ap, subst, ◌∙◌, inl, inr, true, false, Option, none, some, List, [], ◌∷◌, ◌==◌,
  Bool-cases, arith,
}
use andsifr.Store.{Heap, Store, points_to, unlink, find, delete_module}
use andsifr.Store.Links.{Linked, In, Linked-frame, next-unlink, prev-unlink}
use andsifr.Store.Delete.{skip, not_points_to}
use andsifr.Store.Names.{Holds, left, delete_parts, name-unlink}

head-ne :
    (h : Heap) (m : ℕ) (p o : Option ℕ) (xs : List ℕ)
    → Linked h p o xs
    → In m xs ≡ false
    → o ≢ some m
head-ne h m p o [] k i e = cc
head-ne h m p o (y ∷ ys) k i e = let same : y ≡ m = cc in ground (arith, same)

apart : (m x : ℕ) (xs : List ℕ) → In m xs ≡ false → In x xs ≡ true → (m == x) ≡ false
apart m x xs out i = elim (Bool-cases (m == x)) [
  | inl same ↦
      let e : m ≡ x = ground arith in
      let k : In x xs ≡ false = subst (λ z. In z xs ≡ false) e out in cc
  | inr other ↦ other
]

-- deleteModule of a module that the store does not hold and that is not linked leaves the list
-- and the map as they are, also where another module has its name.
pub delete_module_unlisted :
    (s : Store) (l : List (String × ℕ)) (xs : List ℕ) (m : ℕ)
    → Holds s l xs
    → In m xs ≡ false
    → (s.heap m).prev ≡ none
    → (s.heap m).next ≡ none
    → Holds (delete_module m s) l xs
delete_module_unlisted s l xs m v out first last =
    let parts = delete_parts m s l v.open_map in
    let name : (x : ℕ) → ((delete_module m s).heap x).module_name ≡ (s.heap x).module_name =
      λ x. ap (λ (h : Heap). (h x).module_name) parts.0 ∙ name-unlink m x s.heap in
    let miss : points_to (find (s.heap m).module_name l) m ≡ false =
      not_points_to _ m (λ e. let i = (v.listed (s.heap m).module_name m e).0 in cc) in
    let kept : left (s.heap m).module_name m l ≡ l = keeps (s.heap m).module_name miss in
    let head : skip s.heap m s.module_list ≡ s.module_list =
      rw (not_points_to s.module_list m (head-ne s.heap m none s.module_list xs v.linked out)) in
    record {
      open_map = parts.2 ∙ ap some kept;
      linked =
          subst (λ h. Linked h none (delete_module m s).module_list xs) (sym parts.0)
            (subst (λ o. Linked (unlink m s.heap) none o xs) (sym (parts.1 ∙ head))
              (Linked-frame s.heap (unlink m s.heap) none s.module_list xs
                (λ x i. prev-unlink m x s.heap (apart m x xs out i) ∙ rw last)
                (λ x i. next-unlink m x s.heap (apart m x xs out i) ∙ rw first) v.linked));
      distinct = v.distinct;
      named = λ x i nz.
          subst (λ n. find n l ≡ some x) (sym (name x))
            (v.named x i (subst (λ n. Text.◌==◌ n "" ≡ false) (name x) nz));
      listed = λ k x e. let o = v.listed k x e in (o.0, name x ∙ o.1, o.2);
    }
  where
    keeps : (n : String) → points_to (find n l) m ≡ false → left n m l ≡ l
    keeps n miss = elim (Bool-cases (Text.◌==◌ n "")) [
      | inl anonymous ↦ rw anonymous
      | inr named ↦ rw (named, miss)
    ]
