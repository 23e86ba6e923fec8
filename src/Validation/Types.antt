-- ===== src/Validation/Types.antt =====
-- internal/wasm/module.go: value types as 64-bit words, and the subtyping of references. A flag is
-- one bit, which is read and cleared by division.
use andsifr.Common.{
  ℕ, ◌+◌, ◌-◌, ◌*◌, ◌/◌, ◌%◌, ◌^◌, Bool, true, false, not, ◌&&◌, ◌||◌, ◌==◌, if◌then◌else◌,
}
use andsifr.ConstExpr.Machine.{type_funcref, type_externref, type_exnref}

-- A value type is a word.
abbrev pub ValueType : Type 0
ValueType = ℕ

unfoldable pub kind : ValueType → ℕ
kind v = v % 2 ^ 8

-- `v & flagNonNullable` and `v & flagConcreteRef`, as 0 or 1.
abbrev pub non_nullable : ValueType → ℕ
non_nullable v = v / 2 ^ 8 % 2

abbrev pub concrete : ValueType → ℕ
concrete v = v / 2 ^ 9 % 2

unfoldable pub is_concrete_ref : ValueType → Bool
is_concrete_ref v = not (concrete v == 0)

unfoldable pub is_ref : ValueType → Bool
is_ref v =
    kind v == type_funcref
    || (kind v == type_externref || (kind v == type_exnref || not (concrete v == 0)))

unfoldable pub is_nullable : ValueType → Bool
is_nullable v = is_ref v && (non_nullable v == 0)

unfoldable pub type_index : ValueType → ℕ
type_index v = v / 2 ^ 32 % 2 ^ 32

-- Sets and clears the flag.
unfoldable pub as_non_nullable : ValueType → ValueType
as_non_nullable v = v + (1 - non_nullable v) * 2 ^ 8

unfoldable pub as_nullable : ValueType → ValueType
as_nullable v = v - non_nullable v * 2 ^ 8

-- `equivalent` is structurallyEquivalentTypes of the module, on type indexes.
module _ (equivalent : ℕ → ℕ → Bool) where
  unfoldable pub is_ref_subtype_of : ValueType → ValueType → Bool
  is_ref_subtype_of actual expected =
      if actual == expected
      then true
      else if (as_nullable actual == as_nullable expected) && is_nullable expected
      then true
      else if is_concrete_ref actual && is_concrete_ref expected
      then (if is_nullable actual && not (is_nullable expected)
          then false
          else equivalent (type_index actual) (type_index expected))
      else if is_concrete_ref actual
          && (not (is_concrete_ref expected) && (kind expected == kind type_funcref))
      then not (is_nullable actual) || is_nullable expected
      else false

  unfoldable pub are_ref_types_compatible : ValueType → ValueType → Bool
  are_ref_types_compatible a b = is_ref_subtype_of a b || is_ref_subtype_of b a
