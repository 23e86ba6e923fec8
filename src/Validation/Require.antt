-- ===== src/Validation/Require.antt =====
-- requireStackValues against the frame of the innermost block.
use andsifr.Common.{
  ℕ, suc, ◌≤◌, ◌<◌, ◌≡◌, ◌≢◌, ◌⊎◌, refl, sym, ap, ◌∙◌, subst, inl, inr, Bool, true, false, not,
  ◌&&◌, ◌||◌, Option, none, some, List, [], ◌∷◌, ◌++◌, ltb, if◌then◌else◌, length, drop, Bool-cases,
  length-reverse, arith,
}
use mathlib.Core.List.{reverse}
use andsifr.Validation.Types.{ValueType}
use andsifr.Validation.Stack.{
  unknown, ValueTypeStack, Error, type_count, pop_values, mismatched, check_values, at_limit,
  require_stack_values,
}
use andsifr.Validation.Frame.{frame, Represents}
use andsifr.Validation.Popped.{popped, popped_enough, popped_short, is_empty, at_limit_lem}

unknown-mismatched :
    (equivalent : ℕ → ℕ → Bool) (w : ValueType) → mismatched equivalent unknown w ≡ false
unfolding mismatched
unknown-mismatched equivalent w = refl

abbrev pub is_none : Option Error → Bool
is_none none = true
is_none (some e) = false

-- The wanted types, the last one first, against the values of a frame: in unreachable code its floor
-- stands for any number of values of any type.
module _ (equivalent : ℕ → ℕ → Bool) where
  abbrev pub matches : List ValueType → List ValueType → Bool → Bool
  matches [] vs p = true
  matches (w ∷ wants) [] p = p
  matches (w ∷ wants) (v ∷ vs) p = not (mismatched equivalent v w) && matches wants vs p

  -- Whether the frame has the wanted values on top, and nothing else where `above` asks that.
  abbrev pub accepts : List ValueType → Bool → List ValueType → Bool → Bool
  accepts want above vs p =
      matches (reverse want) vs p && (not above || is_empty (drop (length want) vs))

  check_poly :
      (i : ℕ) (wants : List ValueType)
      → is_none (check_values equivalent i (popped (length wants) []) wants) ≡ true
  unfolding check_values
  check_poly i [] = refl
  check_poly i (w ∷ wants) = rw (unknown-mismatched equivalent w) (check_poly (suc i) wants)

  check_matches :
      (i : ℕ) (wants vs : List ValueType) (p : Bool)
      → (p ≡ true) ⊎ (length wants ≤ length vs)
      → is_none (check_values equivalent i (popped (length wants) vs) wants) ≡ matches wants vs p
  unfolding check_values
  check_matches i [] vs p h = refl
  check_matches i (w ∷ wants) [] p (inl h) = check_poly i (w ∷ wants) ∙ sym h
  check_matches i (w ∷ wants) [] p (inr h) = absurd (omega arith)
  check_matches i (w ∷ wants) (v ∷ vs) p h = elim (Bool-cases (mismatched equivalent v w)) [
    | inl differ ↦ rw differ refl
    | inr same ↦ rw same (
        check_matches (suc i) wants vs p
          (elim h [ inl poly ↦ inl poly | inr within ↦ inr (omega arith) ]))
  ]

  matches_short :
      (wants vs : List ValueType) → length vs < length wants → matches wants vs false ≡ false
  matches_short [] vs h = absurd (omega arith)
  matches_short (w ∷ wants) [] h = refl
  matches_short (w ∷ wants) (v ∷ vs) h = ground (arith, matches_short wants vs (omega arith))

-- The stack behind an accepted call is the rest of the frame; a call that is not accepted is an error.
abbrev pub Answers :
    (want vs : List ValueType) (p : Bool) (outer : List ValueType)
    → Bool
    → Option Error × ValueTypeStack
    → Type 0
Answers want vs p outer true r =
    (r.0 ≡ none) × Represents (frame (drop (length want) vs) p) outer r.1
Answers want vs p outer false r = r.0 ≢ none

is_none-Answers :
    (want vs : List ValueType) (p : Bool) (outer : List ValueType) (b : Bool) (e : Option Error)
    (s : ValueTypeStack)
    → is_none e ≡ b
    → Represents (frame (drop (length want) vs) p) outer s
    → Answers want vs p outer b (e, s)
is_none-Answers want vs p outer true none s h r = (refl, r)
is_none-Answers want vs p outer true (some e) s h r = cc
is_none-Answers want vs p outer false none s h r = cc
is_none-Answers want vs p outer false (some e) s h r = λ k. cc

guarded :
    (a l m : Bool) (e : Option Error) (x : Error)
    → is_none e ≡ m
    → is_none (if a && not l then some x else e) ≡ (m && (not a || l))
guarded true true m e x h = h ∙ ground arith
guarded true false m e x h = ground arith
guarded false l m e x h = h ∙ ground arith

-- The rest of requireStackValues, behind its first loop.
finish_require :
    (ℕ → ℕ → Bool)
    → List ValueType
    → Bool
    → (Bool × List ValueType) × ValueTypeStack
    → Option Error × ValueTypeStack
finish_require equivalent want above x = (
  if not x.0.0
      then some (type_count x.0.1 want)
      else if above && not (at_limit x.1)
      then some (type_count (reverse x.1.stack ++ want) want)
      else check_values equivalent 0 x.0.1 (reverse want),
  x.1,
)

require_rest :
    (equivalent : ℕ → ℕ → Bool) (s : ValueTypeStack) (want : List ValueType) (above : Bool)
    (x : (Bool × List ValueType) × ValueTypeStack)
    → pop_values (length want) s [] ≡ x
    → require_stack_values equivalent s want above ≡ finish_require equivalent want above x
unfolding require_stack_values finish_require
require_rest equivalent s want above x e = ap (finish_require equivalent want above) e

short_fails :
    (equivalent : ℕ → ℕ → Bool) (want taken : List ValueType) (above : Bool) (s : ValueTypeStack)
    → (finish_require equivalent want above ((false, taken), s)).0 ≢ none
unfolding finish_require
short_fails equivalent want taken above s e = cc

finish-Answers :
    (equivalent : ℕ → ℕ → Bool) (want vs : List ValueType) (p above : Bool) (outer : List ValueType)
    (s : ValueTypeStack)
    → (p ≡ true) ⊎ (length want ≤ length vs)
    → Represents (frame (drop (length want) vs) p) outer s
    → Answers want vs p outer
        (accepts equivalent want above vs p)
        (finish_require equivalent want above ((true, popped (length want) vs), s))
unfolding finish_require
finish-Answers equivalent want vs p above outer s h r =
    let size : length (reverse want) ≡ length want = length-reverse want in
    let checked : is_none (check_values equivalent 0 (popped (length want) vs) (reverse want))
        ≡ matches equivalent (reverse want) vs p =
      subst
        (λ n.
          is_none (check_values equivalent 0 (popped n vs) (reverse want))
          ≡ matches equivalent (reverse want) vs p)
        size
        (check_matches equivalent 0 (reverse want) vs p
          (elim h [ inl poly ↦ inl poly | inr within ↦ inr (omega arith) ])) in
    let empty : at_limit s ≡ is_empty (drop (length want) vs) =
      at_limit_lem (drop (length want) vs) p outer s r in
    is_none-Answers want vs p outer (accepts equivalent want above vs p) _ s
      (guarded above (at_limit s) (matches equivalent (reverse want) vs p) _ _ checked
        ∙ ap (λ b. matches equivalent (reverse want) vs p && (not above || b)) empty)
      r

-- On a stack that represents a frame, requireStackValues returns no error exactly when the types
-- wanted match the values on top of the frame, in unreachable code those of its floor too, and
-- when asked nothing is left above the limit; it then leaves the stack of the rest of the frame.
pub require_stack_values-Answers :
    (equivalent : ℕ → ℕ → Bool) (want vs : List ValueType) (p above : Bool) (outer : List ValueType)
    (s : ValueTypeStack)
    → Represents (frame vs p) outer s
    → Answers want vs p outer
        (accepts equivalent want above vs p)
        (require_stack_values equivalent s want above)
require_stack_values-Answers equivalent want vs true above outer s r =
    let (s', pops, r') = popped_enough (length want) vs true outer [] s r (inl refl) in
    rw (require_rest equivalent s want above _ pops)
      (finish-Answers equivalent want vs true above outer s' (inl refl) r')
require_stack_values-Answers equivalent want vs false above outer s r =
    elim (Bool-cases (ltb (length vs) (length want))) [
      | inl short ↦
          let (t, s', pops) = popped_short (length want) vs outer [] s r (ground arith) in
          let none_left : matches equivalent (reverse want) vs false ≡ false =
            matches_short equivalent (reverse want) vs (ground (arith, length-reverse want)) in
          rw (require_rest equivalent s want above _ pops, none_left)
            (short_fails equivalent want t above s')
      | inr enough ↦
          let (s', pops, r') =
            popped_enough (length want) vs false outer [] s r (inr (ground arith)) in
          rw (require_rest equivalent s want above _ pops)
            (finish-Answers equivalent want vs false above outer s' (inr (ground arith)) r')
    ]
