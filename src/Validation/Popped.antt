-- ===== src/Validation/Popped.antt =====
-- The loop of requireStackValues on the frame of the innermost block.
use andsifr.Common.{
  ℕ, zero, suc, ◌+◌, ◌-◌, ◌≤◌, ◌<◌, ◌≡◌, ◌⊎◌, refl, ap, ◌∙◌, inl, inr, Bool, true, false, Option,
  none, some, List, [], ◌∷◌, ◌++◌, ◌==◌, length, drop, length-append, append_assoc, append-nil,
  arith,
}
use andsifr.Validation.Types.{ValueType}
use andsifr.Validation.Stack.{unknown, ValueTypeStack, limit, try_pop, pop_values, at_limit}
use andsifr.Validation.Frame.{floor, frame, Represents, not_floor, try_pop-Pops}

-- What `n` pops of a frame give, the top first.
abbrev pub popped : ℕ → List ValueType → List ValueType
popped zero vs = []
popped (suc n) [] = unknown ∷ popped n []
popped (suc n) (v ∷ vs) = v ∷ popped n vs

drop_nil : (n : ℕ) → drop {A = ValueType} n [] ≡ []
drop_nil zero = refl
drop_nil (suc n) = refl

-- A round of the loop, from what tryPop returned.
pop_values_round :
    (n : ℕ) (s : ValueTypeStack) (taken : List ValueType) (x : Option ValueType × ValueTypeStack)
    → try_pop s ≡ x
    → pop_values (suc n) s taken
      ≡ elim x.0 [ none ↦ ((false, taken), x.1) | some t ↦ pop_values n x.1 (taken ++ (t ∷ [])) ]
unfolding pop_values
pop_values_round n s taken x e =
    ap
      (λ y. elim y.0 [
        | none ↦ ((false, taken), y.1)
        | some t ↦ pop_values n y.1 (taken ++ (t ∷ []))
      ])
      e

pub popped_enough :
    (n : ℕ) (vs : List ValueType) (p : Bool) (outer taken : List ValueType) (s : ValueTypeStack)
    → Represents (frame vs p) outer s
    → (p ≡ true) ⊎ (n ≤ length vs)
    → (s' : ValueTypeStack) × (pop_values n s taken ≡ ((true, taken ++ popped n vs), s'))
      × Represents (frame (drop n vs) p) outer s'
unfolding pop_values
popped_enough zero vs p outer taken s r h = (s, rw (append-nil taken) refl, r)
popped_enough (suc n) [] false outer taken s r (inl h) = cc
popped_enough (suc n) [] false outer taken s r (inr h) = absurd (omega arith)
popped_enough (suc n) [] true outer taken s r h =
    let (s', pops, r') = try_pop-Pops [] true outer s r in
    let (s2, same, r2) = popped_enough n [] true outer (taken ++ (unknown ∷ [])) s' r' (inl refl) in
    (
      s2,
      (pop_values_round n s taken _ pops
          ∙ same
          ∙ ap (λ l. ((true, l), s2)) (append_assoc taken (unknown ∷ []) (popped n []))),
      rw (drop_nil n) at r2,
    )
popped_enough (suc n) (v ∷ vs) p outer taken s r h =
    let (s', pops, r') = try_pop-Pops (v ∷ vs) p outer s r in
    let (s2, same, r2) =
      popped_enough n vs p outer (taken ++ (v ∷ [])) s' r'
        (elim h [ inl poly ↦ inl poly | inr within ↦ inr (omega arith) ]) in
    (
      s2,
      (pop_values_round n s taken _ pops
          ∙ same
          ∙ ap (λ l. ((true, l), s2)) (append_assoc taken (v ∷ []) (popped n vs))),
      r2,
    )

pub popped_short :
    (n : ℕ) (vs : List ValueType) (outer taken : List ValueType) (s : ValueTypeStack)
    → Represents (frame vs false) outer s
    → length vs < n
    → (t : List ValueType) × (s' : ValueTypeStack) × (pop_values n s taken ≡ ((false, t), s'))
unfolding pop_values
popped_short zero vs outer taken s r h = absurd (omega arith)
popped_short (suc n) [] outer taken s r h =
    (taken, s, pop_values_round n s taken _ (try_pop-Pops [] false outer s r))
popped_short (suc n) (v ∷ vs) outer taken s r h =
    let (s', pops, r') = try_pop-Pops (v ∷ vs) false outer s r in
    let (t, s2, same) = popped_short n vs outer (taken ++ (v ∷ [])) s' r' (omega arith) in
    (t, s2, pop_values_round n s taken _ pops ∙ same)

abbrev pub is_empty : List ValueType → Bool
is_empty [] = true
is_empty (v ∷ vs) = false

pub at_limit_lem :
    (vs : List ValueType) (p : Bool) (outer : List ValueType) (s : ValueTypeStack)
    → Represents (frame vs p) outer s
    → at_limit s ≡ is_empty vs
unfolding at_limit
at_limit_lem [] false outer s r = ground (arith, r.bound, ap length r.parts)
at_limit_lem [] true outer s r =
    let low : (limit s == length s.stack) ≡ false = ground (arith, r.bound, ap length r.parts) in
    let last : (limit s + 1 == length s.stack) ≡ true =
      ground (arith, r.bound, ap length r.parts) in
    let place : length s.stack - 1 - limit s ≡ 0 = omega (arith, r.bound, ap length r.parts) in
    rw (low, last, place, r.parts) refl
at_limit_lem (v ∷ vs) p outer s r =
    let size : length s.stack ≡ suc (length vs + (length (floor p) + length outer)) = omega (
      arith,
      ap length r.parts,
      length-append vs (floor p ++ outer),
      length-append (floor p) outer,
    ) in
    let low : (limit s == length s.stack) ≡ false = ground (arith, r.bound, size) in
    rw low (ground (arith, not_floor v vs p outer s r size))
