-- ===== src/Validation/Frame.antt =====
-- The operand stack as the specification has it: the values of the innermost block, and whether
-- the code there is unreachable.
use andsifr.Common.{
  suc, ◌+◌, ◌-◌, ◌≡◌, ◌≢◌, refl, ap, Bool, true, false, ◌&&◌, Option, none, some, List, [], ◌∷◌,
  ◌++◌, leb, ◌==◌, if◌then◌else◌, length, All, length-append, arith,
}
use andsifr.Validation.Types.{ValueType}
use andsifr.Validation.Stack.{unknown, ValueTypeStack, limit, from_bottom, try_pop}

pub record Frame : Type 0 where
  pub values : List ValueType
  pub polymorphic : Bool

abbrev pub floor : Bool → List ValueType
floor true = unknown ∷ []
floor false = []

-- Reachable code has no unknown values.
abbrev pub Known : Bool → List ValueType → Type 0
Known true values = Unit {0}
Known false values = All (λ v. v ≢ unknown) values

-- The stack is the frame on top of the values of the outer blocks.
pub record Represents (f : Frame) (outer : List ValueType) (s : ValueTypeStack) : Type 0 where
  pub parts : s.stack ≡ f.values ++ (floor f.polymorphic ++ outer)
  pub bound : limit s ≡ length outer
  pub known : Known f.polymorphic f.values

abbrev pub pop_frame : Frame → Option (ValueType × Frame)
pop_frame f = elim f.values [
  | [] ↦ (if f.polymorphic then some (unknown, f) else none)
  | v ∷ vs ↦ some (v, record f { values = vs })
]

-- What tryPop comes to for what the frame has.
abbrev pub Pops : List ValueType → ValueTypeStack → Option (ValueType × Frame) → Type 0
Pops outer s none = try_pop s ≡ (none, s)
Pops outer s (some (v, f')) =
    (s' : ValueTypeStack) × (try_pop s ≡ (some v, s')) × Represents f' outer s'

abbrev pub frame : List ValueType → Bool → Frame
frame values polymorphic = record { values = values; polymorphic = polymorphic }

Known-tail : (p : Bool) (v : ValueType) (vs : List ValueType) → Known p (v ∷ vs) → Known p vs
Known-tail true v vs k = tt
Known-tail false v vs k = k.1

-- Where the frame has a value, the top is not the unknown value of its floor.
pub not_floor :
    (v : ValueType) (vs : List ValueType) (p : Bool) (outer : List ValueType) (s : ValueTypeStack)
    → Represents (frame (v ∷ vs) p) outer s
    → length s.stack ≡ suc (length vs + (length (floor p) + length outer))
    → ((length s.stack == limit s + 1) && (from_bottom s (limit s) == unknown)) ≡ false
not_floor v vs true outer s r size =
    let high : (length s.stack == limit s + 1) ≡ false = ground (arith, r.bound, size) in
    rw high refl
not_floor v [] false outer s r size =
    let place : length s.stack - 1 - limit s ≡ 0 = omega (arith, r.bound, size) in
    let top : from_bottom s (limit s) ≡ v = rw (place, r.parts) refl in
    let other : (from_bottom s (limit s) == unknown) ≡ false = ground (arith, top, r.known.0) in
    ground (arith, other)
not_floor v (w ∷ vs) false outer s r size =
    let high : (length s.stack == limit s + 1) ≡ false = ground (arith, r.bound, size) in
    rw high refl

pub try_pop-Pops :
    (vs : List ValueType) (p : Bool) (outer : List ValueType) (s : ValueTypeStack)
    → Represents (frame vs p) outer s
    → Pops outer s (pop_frame (frame vs p))
unfolding try_pop limit
try_pop-Pops [] false outer s r =
    let none_left : leb (length s.stack) (limit s) ≡ true =
      ground (arith, r.bound, ap length r.parts) in
    rw (try_pop, none_left) refl
try_pop-Pops [] true outer s r =
    let some_left : leb (length s.stack) (limit s) ≡ false =
      ground (arith, r.bound, ap length r.parts) in
    let last : (length s.stack == limit s + 1) ≡ true =
      ground (arith, r.bound, ap length r.parts) in
    let place : length s.stack - 1 - limit s ≡ 0 = omega (arith, r.bound, ap length r.parts) in
    let top : (from_bottom s (limit s) == unknown) ≡ true = rw (place, r.parts) refl in
    (s, rw (try_pop, some_left, last, top) refl, r)
try_pop-Pops (v ∷ vs) p outer s r =
    let size : length s.stack ≡ suc (length vs + (length (floor p) + length outer)) = omega (
      arith,
      ap length r.parts,
      length-append vs (floor p ++ outer),
      length-append (floor p) outer,
    ) in
    let some_left : leb (length s.stack) (limit s) ≡ false = ground (arith, r.bound, size) in
    let inner : ((length s.stack == limit s + 1) && (from_bottom s (limit s) == unknown)) ≡ false =
      not_floor v vs p outer s r size in
    (
      record s { stack = vs ++ (floor p ++ outer) },
      rw (try_pop, some_left, inner, r.parts) refl,
      record { parts = refl; bound = r.bound; known = Known-tail p v vs r.known },
    )
