-- ===== src/Validation/Blocks.antt =====
-- The operations that open, close and leave blocks, on the frame that the stack represents.
use andsifr.Common.{
  ℕ, ◌+◌, ◌-◌, ◌≤◌, ◌≡◌, ◌≢◌, refl, sym, ap, ◌∙◌, Bool, true, false, some, List, [], ◌∷◌, ◌++◌, ltb,
  length, take, drop, All, length-append, append_assoc, drop-append_length, take-append_drop,
  length-drop, arith,
}
use andsifr.Validation.Types.{ValueType}
use andsifr.Validation.Stack.{
  unknown, ValueTypeStack, limit, push, reset_at_stack_limit, unreachable, pop_stack_limit,
  push_stack_limit,
}
use andsifr.Validation.Frame.{floor, frame, Known, Represents}

Known-cons :
    (p : Bool) (v : ValueType) (vs : List ValueType) → v ≢ unknown → Known p vs → Known p (v ∷ vs)
Known-cons true v vs h k = tt
Known-cons false v vs h k = (h, k)

push-Represents :
    (vs : List ValueType) (p : Bool) (outer : List ValueType) (s : ValueTypeStack) (v : ValueType)
    → v ≢ unknown
    → Represents (frame vs p) outer s
    → Represents (frame (v ∷ vs) p) outer (push s v)
unfolding push limit
push-Represents vs p outer s v h r = record {
  parts = ap (λ l. v ∷ l) r.parts;
  bound = r.bound;
  known = Known-cons p v vs h r.known;
}

unreachable-Represents :
    (vs : List ValueType) (p : Bool) (outer : List ValueType) (s : ValueTypeStack)
    → Represents (frame vs p) outer s
    → Represents (frame [] true) outer (unreachable s)
unfolding unreachable reset_at_stack_limit limit
unreachable-Represents vs p outer s r =
    let whole : s.stack ≡ (vs ++ floor p) ++ outer =
      r.parts ∙ sym (append_assoc vs (floor p) outer) in
    let above : length s.stack - limit s ≡ length (vs ++ floor p) =
      omega (arith, r.bound, ap length whole, length-append (vs ++ floor p) outer) in
    let kept : drop (length s.stack - limit s) s.stack ≡ outer =
      ap (λ n. drop n s.stack) above
      ∙ ap (drop (length (vs ++ floor p))) whole
      ∙ drop-append_length (vs ++ floor p) outer in
    record { parts = ap (λ l. unknown ∷ l) kept; bound = r.bound; known = tt }

block-Represents :
    (vs : List ValueType) (p : Bool) (outer : List ValueType) (s : ValueTypeStack) (params : ℕ)
    → params ≤ length vs
    → All (λ v. v ≢ unknown) (take params vs)
    → Represents (frame vs p) outer s
    → (s' : ValueTypeStack) × (push_stack_limit s params ≡ some s')
      × Represents (frame (take params vs) false) (drop params vs ++ (floor p ++ outer)) s'
      × (pop_stack_limit s' ≡ s)
unfolding push_stack_limit pop_stack_limit limit
block-Represents vs p outer s params h known r =
    let rest : List ValueType = floor p ++ outer in
    let size : length s.stack ≡ length vs + length rest =
      ap length r.parts ∙ length-append vs rest in
    let fits : ltb (length s.stack) params ≡ false = ground (arith, size) in
    let bound : length s.stack - params ≡ length (drop params vs ++ rest) =
      omega (arith, size, length-append (drop params vs) rest, length-drop params vs) in
    let parts : s.stack ≡ take params vs ++ (drop params vs ++ rest) =
      r.parts
      ∙ ap (λ l. l ++ rest) (take-append_drop params vs)
      ∙ append_assoc (take params vs) (drop params vs) rest in
    (
      record s { limits = (length s.stack - params) ∷ s.limits },
      rw (push_stack_limit, fits) refl,
      record { parts = parts; bound = bound; known = known },
      refl,
    )

-- On a stack that represents a frame: push puts a known type on the frame; unreachable leaves the
-- empty frame of unreachable code above the same outer values; pushStackLimit with as many
-- parameters as the frame has at least, of known types, opens the block that has these as its
-- values and the rest below it, and popStackLimit takes that back.
pub stack-Represents :
    (vs : List ValueType) (p : Bool) (outer : List ValueType) (s : ValueTypeStack) (v : ValueType)
    (params : ℕ)
    → Represents (frame vs p) outer s
    → v ≢ unknown
    → params ≤ length vs
    → All (λ v. v ≢ unknown) (take params vs)
    → Represents (frame (v ∷ vs) p) outer (push s v)
      × Represents (frame [] true) outer (unreachable s)
      × (s' : ValueTypeStack) × (push_stack_limit s params ≡ some s')
      × Represents (frame (take params vs) false) (drop params vs ++ (floor p ++ outer)) s'
      × (pop_stack_limit s' ≡ s)
stack-Represents vs p outer s v params r h fits known =
    let (s', opened, inner, back) = block-Represents vs p outer s params fits known r in
    (
      push-Represents vs p outer s v h r,
      unreachable-Represents vs p outer s r,
      s',
      opened,
      inner,
      back,
    )
