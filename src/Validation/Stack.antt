-- ===== src/Validation/Stack.antt =====
-- valueTypeStack of internal/wasm/func_validation.go. The stacks have their tops first, where the
-- slices have them last.
use andsifr.Common.{
  ℕ, zero, suc, ◌+◌, ◌-◌, Bool, true, false, not, ◌&&◌, ◌||◌, Option, none, some, List, [], ◌∷◌,
  ◌++◌, ltb, leb, ◌==◌, if◌then◌else◌, length, get_or, drop,
}
use mathlib.Core.List.{reverse}
use andsifr.Validation.Types.{ValueType, is_ref_subtype_of}

abbrev pub unknown : ValueType
unknown = 0xff

pub record ValueTypeStack : Type 0 where
  pub stack : List ValueType
  pub limits : List ℕ
  pub maximum : ℕ

-- The innermost limit, 0 outside all blocks.
unfoldable pub limit : ValueTypeStack → ℕ
limit s = elim s.limits [ [] ↦ 0 | l ∷ ls ↦ l ]

-- `stack[i]` from the bottom.
abbrev pub from_bottom : ValueTypeStack → ℕ → ValueType
from_bottom s i = get_or s.stack (length s.stack - 1 - i) 0

unfoldable pub try_pop : ValueTypeStack → Option ValueType × ValueTypeStack
try_pop s =
    if leb (length s.stack) (limit s)
    then (none, s)
    else if (length s.stack == limit s + 1) && (from_bottom s (limit s) == unknown)
    then (some unknown, s)
    else elim s.stack [ [] ↦ (none, s) | v ∷ rest ↦ (some v, record s { stack = rest }) ]

-- At which length and limit there was nothing to pop.
pub data Error : Type 0 where
  pop_failed : ℕ → ℕ → Error
  missing : ValueType → Error
  unexpected : ValueType → ValueType → Error
  type_mismatch : ValueType → ValueType → ℕ → Error
  type_count : List ValueType → List ValueType → Error

unfoldable pub pop : ValueTypeStack → (Option ValueType × Option Error) × ValueTypeStack
pop s =
    let (v, s') = try_pop s in
    (
      elim v [
        | none ↦ (none, some (pop_failed (length s'.stack) (limit s')))
        | some t ↦ (some t, none)
      ],
      s',
    )

unfoldable pub push : ValueTypeStack → ValueType → ValueTypeStack
push s v =
    let sp = suc (length s.stack) in
    record s { stack = v ∷ s.stack; maximum = if ltb s.maximum sp then sp else s.maximum }

-- The values below the innermost limit; a limit is never above the length.
unfoldable pub reset_at_stack_limit : ValueTypeStack → ValueTypeStack
reset_at_stack_limit s = record s { stack = drop (length s.stack - limit s) s.stack }

unfoldable pub unreachable : ValueTypeStack → ValueTypeStack
unreachable s = let s' = reset_at_stack_limit s in record s' { stack = unknown ∷ s'.stack }

unfoldable pub pop_stack_limit : ValueTypeStack → ValueTypeStack
pop_stack_limit s = record s { limits = drop 1 s.limits }

-- No answer where the limit would be negative, a limit that the source keeps as it is: the validator
-- opens a block only when the parameters of its type are on the stack.
unfoldable pub push_stack_limit : ValueTypeStack → ℕ → Option ValueTypeStack
push_stack_limit s params =
    if ltb (length s.stack) params
    then none
    else some (record s { limits = (length s.stack - params) ∷ s.limits })

-- The loop of requireStackValues that takes the values off, the first popped first.
unfoldable pub pop_values :
    ℕ → ValueTypeStack → List ValueType → (Bool × List ValueType) × ValueTypeStack
pop_values zero s taken = ((true, taken), s)
pop_values (suc n) s taken =
    let (v, s') = try_pop s in
    elim v [ none ↦ ((false, taken), s') | some t ↦ pop_values n s' (taken ++ (t ∷ [])) ]

-- Nothing is left above the limit, but for the unknown value of unreachable code.
unfoldable pub at_limit : ValueTypeStack → Bool
at_limit s =
    limit s == length s.stack
    || ((limit s + 1 == length s.stack) && (from_bottom s (limit s) == unknown))

-- `equivalent` is structurallyEquivalentTypes of the module.
module _ (equivalent : ℕ → ℕ → Bool) where
  unfoldable pub mismatched : ValueType → ValueType → Bool
  mismatched have want =
      not (have == unknown)
      && (not (want == unknown) && not (is_ref_subtype_of equivalent have want))

  unfoldable pub pop_and_verify_type : ValueTypeStack → ValueType → Option Error × ValueTypeStack
  pop_and_verify_type s expected =
      let (v, s') = try_pop s in
      (
        elim v [
          | none ↦ some (missing expected)
          | some have ↦ if mismatched have expected then some (unexpected expected have) else none
        ],
        s',
      )

  -- The last loop of requireStackValues, on the wanted types from the last one on.
  unfoldable pub check_values : ℕ → List ValueType → List ValueType → Option Error
  check_values i [] wants = none
  check_values i (v ∷ taken) [] = none
  check_values i (v ∷ taken) (w ∷ wants) =
      let rest = check_values (suc i) taken wants in
      if mismatched v w then some (type_mismatch v w i) else rest

  unfoldable pub require_stack_values :
      ValueTypeStack → List ValueType → Bool → Option Error × ValueTypeStack
  require_stack_values s want above =
      let ((enough, taken), s') = pop_values (length want) s [] in
      (
        if not enough
            then some (type_count taken want)
            else if above && not (at_limit s')
            then some (type_count (reverse s'.stack ++ want) want)
            else check_values 0 taken (reverse want),
        s',
      )
