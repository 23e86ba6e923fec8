-- ===== src/Validation/Tests.antt =====
-- Value types and stacks on concrete words.
use andsifr.Common.{List, ℕ, ◌≡◌, refl, Bool, true, false, none, some, [], ◌∷◌, arith}
use andsifr.Validation.Types.{
  ValueType, is_ref_subtype_of, are_ref_types_compatible, as_non_nullable, type_index,
}
use andsifr.Validation.Forms.{index, func, reference, word}
use andsifr.Validation.Subtyping.{is_ref_subtype_of-below}
use andsifr.Validation.Stack.{
  ValueTypeStack, Error, try_pop, pop, pop_and_verify_type, require_stack_values, push,
  push_stack_limit, pop_stack_limit, unreachable, unknown, unexpected, type_count, type_mismatch,
}
use andsifr.Validation.Frame.{frame, Represents}
use andsifr.Validation.Require.{Answers, require_stack_values-Answers}
use andsifr.Common.Result.{ok, err}
use andsifr.Validation.BlockType.{
  FunctionType, no_result, one_result, decode_block_type, unknown_type, multi_value_disabled,
}
use andsifr.Validation.BlockResult.{IsBlock, decode_block_type-IsBlock}
use andsifr.Validation.Blocks.{stack-Represents}

abbrev none_equivalent : ℕ → ℕ → Bool
none_equivalent x y = false

-- i32 on top of i64 in a block, above an f32.
abbrev three : ValueTypeStack
three = record { stack = 0x7f ∷ (0x7e ∷ (0x7d ∷ [])); limits = 1 ∷ []; maximum = 3 }

three-Represents : Represents (frame (0x7f ∷ (0x7e ∷ [])) false) (0x7d ∷ []) three
unfolding andsifr.Validation.Stack.limit
three-Represents = record {
  parts = refl;
  bound = refl;
  known = ((λ e. absurd (omega (arith, e))), ((λ e. absurd (omega (arith, e))), tt));
}

popped_all : (require_stack_values none_equivalent three (0x7e ∷ (0x7f ∷ [])) true).0 ≡ none
unfolding require_stack_values andsifr.Validation.Stack.pop_values try_pop
    andsifr.Validation.Stack.limit andsifr.Validation.Stack.at_limit
    andsifr.Validation.Stack.check_values andsifr.Validation.Stack.mismatched is_ref_subtype_of
popped_all = refl

wrong_order :
    (require_stack_values none_equivalent three (0x7f ∷ (0x7e ∷ [])) true).0
    ≡ some (type_mismatch 0x7f 0x7e 0)
unfolding require_stack_values andsifr.Validation.Stack.pop_values try_pop
    andsifr.Validation.Stack.limit andsifr.Validation.Stack.at_limit
    andsifr.Validation.Stack.check_values andsifr.Validation.Stack.mismatched is_ref_subtype_of
    andsifr.Validation.Types.as_nullable andsifr.Validation.Types.is_concrete_ref
wrong_order = refl

too_many :
    (require_stack_values none_equivalent three (0x7f ∷ (0x7e ∷ (0x7d ∷ []))) false).0
    ≡ some (type_count (0x7f ∷ (0x7e ∷ [])) (0x7f ∷ (0x7e ∷ (0x7d ∷ []))))
unfolding require_stack_values andsifr.Validation.Stack.pop_values try_pop
    andsifr.Validation.Stack.limit
too_many = refl

-- In unreachable code any values are there.
dead_code :
    (require_stack_values none_equivalent (unreachable three) (0x7b ∷ (0x7c ∷ [])) true).0 ≡ none
unfolding require_stack_values andsifr.Validation.Stack.pop_values try_pop unreachable
    andsifr.Validation.Stack.reset_at_stack_limit andsifr.Validation.Stack.limit
    andsifr.Validation.Stack.at_limit andsifr.Validation.Stack.check_values
    andsifr.Validation.Stack.mismatched
dead_code = refl

one_popped :
    pop_and_verify_type none_equivalent three 0x7e
    ≡ (some (unexpected 0x7e 0x7f), record three { stack = 0x7e ∷ (0x7d ∷ []) })
unfolding pop_and_verify_type try_pop andsifr.Validation.Stack.limit
    andsifr.Validation.Stack.mismatched is_ref_subtype_of andsifr.Validation.Types.as_nullable
    andsifr.Validation.Types.is_concrete_ref
one_popped = refl

funcref_not_null : as_non_nullable 0x70 ≡ 0x170
unfolding as_non_nullable
funcref_not_null = refl

compatible : are_ref_types_compatible none_equivalent 0x70 0x170 ≡ true
unfolding are_ref_types_compatible is_ref_subtype_of andsifr.Validation.Types.as_nullable
    andsifr.Validation.Types.is_nullable andsifr.Validation.Types.is_ref
    andsifr.Validation.Types.kind andsifr.Validation.Types.is_concrete_ref
compatible = refl

is_ref_subtype_of-below_example :
    is_ref_subtype_of none_equivalent
      (word (reference (index 3) false))
      (word (reference func true))
    ≡ true
is_ref_subtype_of-below_example =
    is_ref_subtype_of-below none_equivalent (reference (index 3) false) (reference func true)
      (omega arith) tt

require_stack_values-Answers_example :
    Answers
      (0x7e ∷ (0x7f ∷ []))
      (0x7f ∷ (0x7e ∷ []))
      false
      (0x7d ∷ [])
      true
      (require_stack_values none_equivalent three (0x7e ∷ (0x7f ∷ [])) true)
unfolding andsifr.Validation.Stack.mismatched is_ref_subtype_of
require_stack_values-Answers_example =
    require_stack_values-Answers none_equivalent (0x7e ∷ (0x7f ∷ [])) (0x7f ∷ (0x7e ∷ [])) false
      true (0x7d ∷ []) three three-Represents

stack-Represents_example :
    Represents (frame (0x7c ∷ (0x7f ∷ (0x7e ∷ []))) false) (0x7d ∷ []) (push three 0x7c)
    × Represents (frame [] true) (0x7d ∷ []) (unreachable three)
    × (s' : ValueTypeStack) × (push_stack_limit three 1 ≡ some s')
    × Represents (frame (0x7f ∷ []) false) (0x7e ∷ (0x7d ∷ [])) s'
    × (pop_stack_limit s' ≡ three)
stack-Represents_example =
    stack-Represents (0x7f ∷ (0x7e ∷ [])) false (0x7d ∷ []) three 0x7c 1 three-Represents
      (λ e. absurd (omega (arith, e))) (omega arith) ((λ e. absurd (omega (arith, e))), tt)

-- A module with one type, which takes an i32.
abbrev one_type : List FunctionType
one_type = record no_result { params = 0x7f ∷ []; param_num_in_uint64 = 1; rec_group_size = 1 } ∷ []

block_of_i64 : decode_block_type one_type false (0x7e ∷ []) ≡ ok (one_result 0x7e 1, 1)
unfolding decode_block_type andsifr.Validation.BlockType.block_type
    andsifr.Leb128.decode_int33_as_int64 andsifr.Leb128.decode_int33_loop
    andsifr.Leb128.finish_int33
block_of_i64 = refl

block_of_ref : decode_block_type one_type false (0x64 ∷ (0 ∷ [])) ≡ ok (one_result 0x370 1, 2)
unfolding decode_block_type andsifr.Validation.BlockType.block_type
    andsifr.Leb128.decode_int33_as_int64 andsifr.Leb128.decode_int33_loop
    andsifr.Leb128.finish_int33 andsifr.Validation.BlockType.block_ref
    andsifr.ConstExpr.Machine.concrete_ref
block_of_ref = refl

block_unknown : decode_block_type one_type true (0x63 ∷ (1 ∷ [])) ≡ err unknown_type
unfolding decode_block_type andsifr.Validation.BlockType.block_type
    andsifr.Leb128.decode_int33_as_int64 andsifr.Leb128.decode_int33_loop
    andsifr.Leb128.finish_int33 andsifr.Validation.BlockType.block_ref
block_unknown = refl

block_index_off : decode_block_type one_type false (0 ∷ []) ≡ err multi_value_disabled
unfolding decode_block_type andsifr.Validation.BlockType.block_type
    andsifr.Leb128.decode_int33_as_int64 andsifr.Leb128.decode_int33_loop
    andsifr.Leb128.finish_int33 andsifr.Validation.BlockType.block_index
block_index_off = refl

decode_block_type-IsBlock_example :
    IsBlock one_type true (decode_block_type one_type true (0x64 ∷ (0 ∷ [])))
decode_block_type-IsBlock_example = decode_block_type-IsBlock one_type true (0x64 ∷ (0 ∷ []))
