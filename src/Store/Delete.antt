-- ===== src/Store/Delete.antt =====
-- deleteModule takes one module out of the list, and leaves the list whole.
use andsifr.Common.{
  ℕ, ◌≡◌, ◌≢◌, sym, ap, subst, ◌∙◌, inl, inr, true, false, Option, some, List, [], ◌∷◌, ◌==◌,
  if◌then◌else◌, Bool-cases, arith,
}
use andsifr.Store.{Heap, points_to, unlink}
use andsifr.Store.Links.{
  Linked, In, Distinct, without, Linked-frame, next-unlink, prev-unlink, points_to_iff, successor,
  predecessor,
}

-- Where the link that led to `m` leads to afterwards.
abbrev pub skip : Heap → ℕ → Option ℕ → Option ℕ
skip h m o = if points_to o m then (h m).next else o

pub not_points_to : (o : Option ℕ) (m : ℕ) → o ≢ some m → points_to o m ≡ false
not_points_to o m h = elim (Bool-cases (points_to o m)) [
  | inl hit ↦ absurd (h ((points_to_iff o m).0 hit))
  | inr miss ↦ miss
]

pub In-ne : (x y : ℕ) (xs : List ℕ) → In x xs ≡ false → In y xs ≡ true → x ≢ y
In-ne x y xs out inside e = let k : In y xs ≡ false = subst (λ z. In z xs ≡ false) e out in cc

-- The list behind `m` once `m` is the first.
unlink_first :
    (h : Heap) (m : ℕ) (p : Option ℕ) (r : List ℕ)
    → (h m).prev ≡ p
    → Linked h (some m) (h m).next r
    → In m r ≡ false
    → Distinct r
    → ((x : ℕ) → p ≡ some x → In x r ≡ false)
    → Linked (unlink m h) p (h m).next r
unlink_first h m p [] first l out d before = l
unlink_first h m p (y ∷ r) first l out d before =
    let other : (m == y) ≡ false = ground arith in
    let hit : points_to (h m).next y ≡ true = (points_to_iff (h m).next y).1 l.0 in
    let miss : points_to (h m).prev y ≡ false =
      not_points_to (h m).prev y (λ e. let k = before y (sym first ∙ e) in ground (arith, k)) in
    let next : (unlink m h y).next ≡ (h y).next = next-unlink m y h other ∙ rw miss in
    (
      l.0,
      prev-unlink m y h other ∙ rw (hit, first),
      subst (λ n. Linked (unlink m h) (some y) n r) (sym next)
          (Linked-frame h (unlink m h) (some y) (h y).next r
            (λ z i.
              prev-unlink m z h
                (let ne = In-ne m z (y ∷ r) out (ground (arith, i)) in ground (arith, ne))
              ∙ rw (not_points_to (h m).next z (λ e. let k : y ≡ z = cc in In-ne y z r d.0 i k)))
            (λ z i.
              next-unlink m z h
                (let ne = In-ne m z (y ∷ r) out (ground (arith, i)) in ground (arith, ne))
              ∙ rw (
                  not_points_to (h m).prev z
                    (λ e. let k = before z (sym first ∙ e) in ground (arith, k, i))))
            l.2),
    )

-- The link of the module `x`, which stays.
after_link :
    (h : Heap) (m : ℕ) (p o : Option ℕ) (x : ℕ) (r : List ℕ)
    → Linked h p o (x ∷ r)
    → In m (x ∷ r) ≡ true
    → (m == x) ≡ false
    → In x r ≡ false
    → (if points_to (h m).prev x then (h m).next else (h x).next) ≡ skip h m (h x).next
after_link h m p o x r l i other out =
    let inside : In m r ≡ true = ground arith in
    elim (Bool-cases (points_to (h m).prev x)) [
      | inl hit ↦
          elim (predecessor h m x (some x) (h x).next r l.2 inside
            ((points_to_iff (h m).prev x).0 hit)) [
              | inl (q, n) ↦ rw (hit, (points_to_iff (h x).next m).1 n)
              | inr (q, n) ↦ absurd (let k = q in cc)
            ]
      | inr miss ↦ rw (
        miss,
        not_points_to (h x).next m (λ e.
            let k =
              (points_to_iff (h m).prev x).1 (successor h x m p o (x ∷ r) l (ground arith) e).1 in
            cc),
      )
    ]

pub Linked-unlink :
    (h : Heap) (m : ℕ) (p o : Option ℕ) (xs : List ℕ)
    → Linked h p o xs
    → In m xs ≡ true
    → Distinct xs
    → ((x : ℕ) → p ≡ some x → In x xs ≡ false)
    → Linked (unlink m h) p (skip h m o) (without m xs)
Linked-unlink h m p o [] l i d before = cc
Linked-unlink h m p o (x ∷ r) l i d before = elim (Bool-cases (m == x)) [
  | inl same ↦
      let here : x ≡ m = ground arith in
      let hit : points_to o m ≡ true = (points_to_iff o m).1 (l.0 ∙ ap some here) in
      rw (same, hit)
        (unlink_first h m p r (ap (λ k. (h k).prev) (sym here) ∙ l.1)
          (subst (λ k. Linked h (some k) (h k).next r) here l.2)
          (subst (λ k. In k r ≡ false) here d.0) d.1 (λ y e. ground (arith, before y)))
  | inr other ↦
      let miss : points_to o m ≡ false =
        not_points_to o m (λ e. let k : x ≡ m = cc in ground (arith, k)) in
      let inside : In m r ≡ true = ground arith in
      let back : points_to (h m).next x ≡ false =
        not_points_to (h m).next x
          (λ e. let k = (successor h m x (some x) (h x).next r l.2 inside e).0 in cc) in
      let link : (unlink m h x).next ≡ skip h m (h x).next =
        next-unlink m x h other ∙ after_link h m p o x r l i other d.0 in
      rw (other, miss)
        (
          l.0,
          prev-unlink m x h other ∙ rw back l.1,
          subst (λ n. Linked (unlink m h) (some x) n (without m r)) (sym link)
              (Linked-unlink h m (some x) (h x).next r l.2 inside d.1
                (λ y e. let k : x ≡ y = cc in subst (λ z. In z r ≡ false) k d.0)),
        )
]
