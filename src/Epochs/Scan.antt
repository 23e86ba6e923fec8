-- ===== src/Epochs/Scan.antt =====
-- The inner loop of the search, and reachability along imports.
use andsifr.Common.{
  ℕ, zero, suc, ◌+◌, ◌<◌, ◌≤◌, ◌≡◌, ◌⊎◌, refl, ap, ◌∙◌, subst, inl, inr, Bool, true, false, Option,
  none, some, List, [], ◌∷◌, ◌++◌, ◌==◌, if◌then◌else◌, length, All, Bool-cases, arith,
}
use andsifr.Epochs.{at}
use andsifr.Epochs.Order.{In}
use andsifr.Epochs.Imports.{Modules, scan_importers}

-- `y` imports `m`, itself or through others.
pub data Reaches (g : Modules) (m : ℕ) : ℕ → Type 0 where
  direct : (y : ℕ) → In y (g.importers m) → Reaches g m y
  through : (x y : ℕ) → Reaches g m x → In y (g.importers x) → Reaches g m y

unfoldable pub unseen : ℕ → (ℕ → Bool) → ℕ
unseen zero seen = 0
unseen (suc n) seen = (if seen n then 0 else 1) + unseen n seen

unseen-at_above : (n y : ℕ) (seen : ℕ → Bool) → n ≤ y → unseen n (at y true seen) ≡ unseen n seen
unfolding unseen
unseen-at_above zero y seen h = refl
unseen-at_above (suc n) y seen h =
    let other : (n == y) ≡ false = ground arith in
    rw other (ap (λ k. (if seen n then 0 else 1) + k) (unseen-at_above n y seen (omega arith)))

unseen-at :
    (n y : ℕ) (seen : ℕ → Bool)
    → y < n
    → seen y ≡ false
    → unseen n (at y true seen) + 1 ≡ unseen n seen
unfolding unseen
unseen-at zero y seen h new = absurd (omega arith)
unseen-at (suc n) y seen h new = elim (Bool-cases (n == y)) [
  | inl same ↦
      let eq : n ≡ y = ground arith in
      let fresh : seen n ≡ false = ap seen eq ∙ new in
      rw (same, fresh) (omega (arith, unseen-at_above n y seen (omega arith)))
  | inr other ↦ rw other (omega (arith, unseen-at n y seen (ground arith) new))
]

pub In-append_left : (x : ℕ) (xs ys : List ℕ) → In x xs → In x (xs ++ ys)
In-append_left x (z ∷ xs) ys (inl h) = inl h
In-append_left x (z ∷ xs) ys (inr h) = inr (In-append_left x xs ys h)
In-append_left x [] ys h = absurd h

pub In-append_right : (x : ℕ) (xs ys : List ℕ) → In x ys → In x (xs ++ ys)
In-append_right x [] ys h = h
In-append_right x (z ∷ xs) ys h = inr (In-append_right x xs ys h)

-- What the inner loop found: where the importers were all closed, each is seen or found.
pub record IsScanned (g : Modules) (n : ℕ) (seen : ℕ → Bool) (ys : List ℕ) (found : List ℕ)
    (seen' : ℕ → Bool) : Type 0 where
  pub covered : (y : ℕ) → In y ys → (g.memory_closed y ≡ true) × ((seen y ≡ true) ⊎ In y found)
  pub from : (y : ℕ) → In y found → In y ys
  pub grown : (y : ℕ) → seen' y ≡ true → (seen y ≡ true) ⊎ In y found
  pub measure : length found + unseen n seen' ≡ unseen n seen

abbrev pub Scans :
    (g : Modules) (n : ℕ) (seen : ℕ → Bool) (ys : List ℕ) → Option (List ℕ × (ℕ → Bool)) → Type 0
Scans g n seen ys none = (y : ℕ) × In y ys × (g.memory_closed y ≡ false)
Scans g n seen ys (some r) = IsScanned g n seen ys r.0 r.1

old-Scans :
    (g : Modules) (n y : ℕ) (seen : ℕ → Bool) (ys : List ℕ) (o : Option (List ℕ × (ℕ → Bool)))
    → g.memory_closed y ≡ true
    → seen y ≡ true
    → Scans g n seen ys o
    → Scans g n seen (y ∷ ys) o
old-Scans g n y seen ys none closed old (x, there, live) = (x, inr there, live)
old-Scans g n y seen ys (some r) closed old s = record {
  covered = λ x h. elim h [
    | inl same ↦ (
      subst (λ k. g.memory_closed k ≡ true) same closed,
      inl (subst (λ k. seen k ≡ true) same old),
    )
    | inr there ↦ s.covered x there
  ];
  from = λ x h. inr (s.from x h);
  grown = s.grown;
  measure = s.measure;
}

pub at-old : (y x : ℕ) (seen : ℕ → Bool) → at y true seen x ≡ true → (seen x ≡ true) ⊎ (y ≡ x)
at-old y x seen h = elim (Bool-cases (x == y)) [
  | inl same ↦ inr (ground arith)
  | inr other ↦ inl (rw other at h)
]

new-Scans :
    (g : Modules) (n y : ℕ) (seen : ℕ → Bool) (ys : List ℕ) (o : Option (List ℕ × (ℕ → Bool)))
    → g.memory_closed y ≡ true
    → seen y ≡ false
    → y < n
    → Scans g n (at y true seen) ys o
    → Scans g n seen (y ∷ ys) (elim o [ none ↦ none | some r ↦ some (y ∷ r.0, r.1) ])
new-Scans g n y seen ys none closed new small (x, there, live) = (x, inr there, live)
new-Scans g n y seen ys (some r) closed new small s = record {
  covered = λ x h. elim h [
    | inl same ↦ (subst (λ k. g.memory_closed k ≡ true) same closed, inr (inl same))
    | inr there ↦
        let (shut, place) = s.covered x there in
        (
          shut,
          elim place [
            | inl marked ↦ elim (at-old y x seen marked) [
              | inl old ↦ inl old
              | inr same ↦ inr (inl same)
            ]
            | inr found ↦ inr (inr found)
          ],
        )
  ];
  from = λ x h. elim h [ inl same ↦ inl same | inr there ↦ inr (s.from x there) ];
  grown = λ x h. elim (s.grown x h) [
    | inl marked ↦ elim (at-old y x seen marked) [ inl old ↦ inl old | inr same ↦ inr (inl same) ]
    | inr found ↦ inr (inr found)
  ];
  measure = omega (arith, s.measure, unseen-at n y seen small new);
}

pub scan-Scans :
    (g : Modules) (n : ℕ) (seen : ℕ → Bool) (ys : List ℕ)
    → All (λ y. y < n) ys
    → Scans g n seen ys (scan_importers g seen ys)
unfolding scan_importers
scan-Scans g n seen [] small = record {
  covered = λ y h. absurd h;
  from = λ y h. absurd h;
  grown = λ y h. inl h;
  measure = omega arith;
}
scan-Scans g n seen (y ∷ ys) small = elim (Bool-cases (g.memory_closed y)) [
  | inr live ↦ rw live (y, inl refl, live)
  | inl closed ↦ rw closed (elim (Bool-cases (seen y)) [
    | inl old ↦ rw old (
        old-Scans g n y seen ys (scan_importers g seen ys) closed old
          (scan-Scans g n seen ys small.1))
    | inr new ↦ rw new (
        new-Scans g n y seen ys (scan_importers g (at y true seen) ys) closed new small.0
          (scan-Scans g n (at y true seen) ys small.1))
  ])
]
