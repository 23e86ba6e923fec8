-- ===== src/Table/Grow.antt =====
-- What table.grow does: the table gets so many copies of the reference, or stays as it is.
use andsifr.Common.{
  ℕ, zero, suc, ◌+◌, ◌-◌, ◌%◌, ◌^◌, ◌≤◌, ◌<◌, ◌≡◌, refl, ap, ◌∙◌, inl, inr, true, false, Option,
  none, some, List, [], ◌∷◌, ◌++◌, ◌==◌, length, take, replicate, length-replicate,
  drop-append_length, append-nil, Bool-cases, arith,
}
use andsifr.Common.Outcome.{Outcome, ok, ◌>>=◌, assign, assign_in_range}
use andsifr.Table.{TableInstance, too_long, grow, fill_loop, maximum_table_index}
use andsifr.Table.Fill.{fill_loop_lem}

take-append_length : (xs ys : List ℕ) → take (length xs) (xs ++ ys) ≡ xs
take-append_length [] ys = refl
take-append_length (x ∷ xs) ys = ap (λ l. x ∷ l) (take-append_length xs ys)

-- The lengths that a table may have.
abbrev pub Allowed : TableInstance → ℕ → Type 0
Allowed t n = (n < maximum_table_index) × ((most : ℕ) → t.max_size ≡ some most → n ≤ most)

too_long-Allowed : (t : TableInstance) (n : ℕ) → Allowed t n → too_long t n ≡ false
unfolding too_long
too_long-Allowed t n a = by_max t.max_size refl
  where
    by_max : (o : Option ℕ) → t.max_size ≡ o → too_long t n ≡ false
    by_max none e = ground (arith, e, a.0)
    by_max (some most) e = ground (arith, e, a.0, a.1 most)

of_Allowed : (t : TableInstance) (n : ℕ) → too_long t n ≡ false → Allowed t n
unfolding too_long
of_Allowed t n h = (ground arith, λ most e. ground arith)

refused_lem : (t : TableInstance) (n : ℕ) → ¬ Allowed t n → too_long t n ≡ true
refused_lem t n refused = elim (Bool-cases (too_long t n)) [
  | inl long ↦ long
  | inr short ↦ absurd (refused (of_Allowed t n short))
]

-- The two steps of filling the new part.
fill_new :
    (r k : ℕ)
    → 0 < k
    → k ≤ 2 ^ 32
    → (region : List ℕ) × (assign (replicate k 0) 0 r ≡ ok region)
      × (fill_loop 32 1 region ≡ ok (replicate k r))
fill_new r zero h small = absurd (omega arith)
fill_new r (suc k) h small =
    let e : 1 + k ≡ suc k = omega arith in
    let size : length (replicate k 0) ≡ k = length-replicate k 0 in
    (
      r ∷ replicate k 0,
      assign_in_range (replicate (suc k) 0) 0 r (omega arith),
      fill_loop_lem 32 1 r (replicate k 0) (omega arith) (omega (arith, size))
          ∙ ap (λ n. ok (replicate (1 + n) r)) size
          ∙ ap (λ n. ok (replicate n r)) e,
    )

-- Grow to a length that is allowed (below MaximumTableIndex and at most the maximum) answers the
-- old length and puts as many copies of the reference behind the old ones as asked, the loop of
-- doubling copies ending; Grow by a positive amount to any other length, counted from the low 32
-- bits of the old one, answers 0xffffffff and changes nothing.
pub grow-replicate :
    (t : TableInstance) (delta r : ℕ)
    → (Allowed t (length t.references + delta)
        → grow t delta r
          ≡ ok (record t { references = t.references ++ replicate delta r }, length t.references))
      × (0 < delta
          → ¬ Allowed t (length t.references % 2 ^ 32 + delta)
          → grow t delta r ≡ ok (t, 2 ^ 32 - 1))
unfolding grow
grow-replicate t delta r = (
  λ a.
      let n = length t.references in
      let whole : n % 2 ^ 32 ≡ n = omega (arith, a.0) in
      elim (Bool-cases (delta == 0)) [
        | inl none_new ↦
            let e : delta ≡ 0 = ground arith in rw (whole, none_new, e, append-nil t.references)
        | inr some_new ↦ elim (Bool-cases (r == 0)) [
          | inl null ↦
              let e : r ≡ 0 = ground arith in
              rw (whole, some_new, too_long-Allowed t (n + delta) a, null, e)
          | inr given ↦
              let new = fill_new r delta (ground arith) (omega (arith, a.0)) in
              let finish : List ℕ → Outcome (TableInstance × ℕ) =
                λ filled. ok (record t { references = t.references ++ filled }, n) in
              rw
                (
                  whole,
                  some_new,
                  too_long-Allowed t (n + delta) a,
                  given,
                  drop-append_length t.references (replicate delta 0),
                  take-append_length t.references (replicate delta 0),
                )
                (ap (λ o. o >>= λ region. fill_loop 32 1 region >>= finish) new.1
                  ∙ ap (λ o. o >>= finish) new.2)
        ]
      ],
  λ pos refused.
      let some_new : (delta == 0) ≡ false = ground arith in
      rw (some_new, refused_lem t (length t.references % 2 ^ 32 + delta) refused),
)
