-- ===== src/Table/Fill.antt =====
-- Copying a filled part behind itself, twice as long each time, fills the region.
use andsifr.Common.{
  ℕ, zero, suc, ◌+◌, ◌-◌, ◌*◌, ◌^◌, ◌≤◌, ◌<◌, ◌≡◌, refl, sym, ap, ◌∙◌, inl, inr, List, [], ◌∷◌,
  ◌++◌, ltb, min, length, take, drop, replicate, length-append, length-replicate, length-drop,
  append_assoc, append-nil, Bool-cases, arith,
}
use andsifr.Common.Outcome.{ok}
use andsifr.Table.{copy_behind, fill_loop}
use native.Mathlib.Nat.{pow-suc}

take-replicate_append :
    (n k : ℕ) (r : ℕ) (rest : List ℕ) → k ≤ n → take k (replicate n r ++ rest) ≡ replicate k r
take-replicate_append n zero r rest h = refl
take-replicate_append zero (suc k) r rest h = absurd (omega arith)
take-replicate_append (suc n) (suc k) r rest h =
    ap (λ l. r ∷ l) (take-replicate_append n k r rest (omega arith))

drop-replicate_append :
    (n k : ℕ) (r : ℕ) (rest : List ℕ) → drop (n + k) (replicate n r ++ rest) ≡ drop k rest
drop-replicate_append zero k r rest = let e : 0 + k ≡ k = omega arith in rw e
drop-replicate_append (suc n) k r rest =
    let e : suc n + k ≡ suc (n + k) = omega arith in rw e (drop-replicate_append n k r rest)

drop_all : (k : ℕ) (l : List ℕ) → length l ≤ k → drop k l ≡ []
drop_all zero [] h = refl
drop_all zero (x ∷ l) h = absurd (omega arith)
drop_all (suc k) [] h = refl
drop_all (suc k) (x ∷ l) h = drop_all k l (omega arith)

replicate-add : (n k r : ℕ) → replicate n r ++ replicate k r ≡ replicate (n + k) r
replicate-add zero k r = let e : 0 + k ≡ k = omega arith in rw e
replicate-add (suc n) k r =
    let e : suc n + k ≡ suc (n + k) = omega arith in rw e (ap (λ l. r ∷ l) (replicate-add n k r))

copy_behind_lem :
    (i r : ℕ) (rest : List ℕ)
    → copy_behind i (replicate i r ++ rest)
      ≡ replicate (i + min (length rest) i) r ++ drop (min (length rest) i) rest
unfolding copy_behind
copy_behind_lem i r rest =
    let size : length (replicate i r ++ rest) - i ≡ length rest =
      omega (arith, length-append (replicate i r) rest, length-replicate i r) in
    rw
      (
        size,
        take-replicate_append i i r rest (omega arith),
        take-replicate_append i (min (length rest) i) r rest (omega arith),
        drop-replicate_append i (min (length rest) i) r rest,
      )
      (sym (append_assoc (replicate i r) _ _)
        ∙ ap (λ l. l ++ drop (min (length rest) i) rest) (replicate-add i (min (length rest) i) r))

fill_done : (fuel i : ℕ) (region : List ℕ) → length region ≤ i → fill_loop fuel i region ≡ ok region
unfolding fill_loop
fill_done zero i region h = ground arith
fill_done (suc fuel) i region h = ground arith

fill_step :
    (fuel i : ℕ) (region : List ℕ)
    → i < length region
    → fill_loop (suc fuel) i region ≡ fill_loop fuel (i * 2) (copy_behind i region)
unfolding fill_loop
fill_step fuel i region h = ground arith

length-filled : (i r : ℕ) (rest : List ℕ) → length (replicate i r ++ rest) ≡ i + length rest
length-filled i r rest = omega (arith, length-append (replicate i r) rest, length-replicate i r)

-- The loop from a region whose first `i` references are filled.
pub fill_loop_lem :
    (fuel i r : ℕ) (rest : List ℕ)
    → 0 < i
    → i + length rest ≤ i * 2 ^ fuel
    → fill_loop fuel i (replicate i r ++ rest) ≡ ok (replicate (i + length rest) r)
fill_loop_lem fuel i r [] pos h =
    let e : i + 0 ≡ i = omega arith in
    rw (append-nil {A = ℕ}, e)
      (fill_done fuel i (replicate i r) (omega (arith, length-replicate i r)))
fill_loop_lem zero i r (x ∷ rest) pos h = absurd (omega arith)
fill_loop_lem (suc fuel) i r (x ∷ rest) pos h =
    let n = suc (length rest) in
    let first =
      fill_step fuel i (replicate i r ++ (x ∷ rest)) (omega (arith, length-filled i r (x ∷ rest)))
      ∙ ap (fill_loop fuel (i * 2)) (copy_behind_lem i r (x ∷ rest)) in
    let twice : i * 2 ^ suc fuel ≡ i * 2 * 2 ^ fuel =
      omega (arith, ap (λ (t : ℕ). i * t) (pow-suc 2 fuel)) in
    elim (Bool-cases (ltb n i)) [
      | inl short ↦
          let least : min n i ≡ n = ground arith in
          first
          ∙ rw (least, drop_all n (x ∷ rest) (omega arith), append-nil {A = ℕ})
              (fill_done fuel (i * 2) (replicate (i + n) r)
                (ground (arith, length-replicate (i + n) r)))
      | inr long ↦
          let least : min n i ≡ i = ground arith in
          let double : i + i ≡ i * 2 = omega arith in
          let left : length (drop i (x ∷ rest)) ≡ n - i = length-drop i (x ∷ rest) in
          let whole : i * 2 + (n - i) ≡ i + n = ground arith in
          first
          ∙ rw (least, double)
              (fill_loop_lem fuel (i * 2) r (drop i (x ∷ rest)) (omega arith)
                (ground (arith, left, twice)))
          ∙ ap (λ k. ok (replicate (i * 2 + k) r)) left
          ∙ ap (λ k. ok (replicate k r)) whole
    ]
