-- ===== src/ConstExpr/Decode.antt =====
-- decodeConstantExpression of internal/wasm/binary/const_expr.go. A reader is the list of the bytes
-- that are still to come.
use andsifr.Common.{
  ℕ, zero, suc, ◌-◌, Bool, not, ◌||◌, List, [], ◌∷◌, ltb, ◌==◌, if◌then◌else◌, length, take, drop,
}
use andsifr.Common.Outcome.{Outcome, stuck}
use andsifr.Common.Result.{Result, ok, err}
use andsifr.Leb128.{Decoded, load_uint32, load_int32, load_int64}
use andsifr.Leb128

-- The features that constant expressions ask for.
pub record Features : Type 0 where
  pub extended_const : Bool
  pub bulk_memory : Bool
  pub simd : Bool

pub data Error : Type 0 where
  no_opcode : Error
  feature_disabled : ℕ → Error
  read_value : Leb128.Error → Error
  read_float : ℕ → Error
  no_ref_type : Error
  invalid_ref_type : ℕ → Error
  no_vector_opcode : Error
  invalid_vector : ℕ → Error
  short_vector : ℕ → Error
  invalid_opcode : ℕ → Error

-- How the loop goes on behind an opcode: at the bytes that are left, or not.
pub data Step : Type 0 where
  continue : List ℕ → Step
  complete : List ℕ → Step
  refuse : Error → Step

unfoldable pub read_immediate : (Leb128.Error → Error) → Decoded → List ℕ → Step
read_immediate wrap (ok (v, n)) r = continue (drop n r)
read_immediate wrap (err e) r = refuse (wrap e)

-- `io.ReadFull` of a constant of floating point.
unfoldable pub read_full : ℕ → List ℕ → Step
read_full n r = if ltb (length r) n then refuse (read_float n) else continue (drop n r)

unfoldable pub extended : Features → ℕ → List ℕ → Step
extended f op r = if not f.extended_const then refuse (feature_disabled op) else continue r

unfoldable pub read_ref_null : Features → List ℕ → Step
read_ref_null f r = if not f.bulk_memory then refuse (feature_disabled 0xd0) else elim r [
  | [] ↦ refuse no_ref_type
  | b ∷ r' ↦
      if b == 0x70 || (b == 0x6f || b == 0x69)
      then continue r'
      else read_immediate (λ e. invalid_ref_type b) (load_uint32 (b ∷ r')) (b ∷ r')
]

-- A reader at its end gives an error, and else as many of the 16 bytes as it has.
unfoldable pub read_vector : Features → List ℕ → Step
read_vector f r = if not f.simd then refuse (feature_disabled 0xfd) else elim r [
  | [] ↦ refuse no_vector_opcode
  | op ∷ r' ↦
      if not (op == 0x0c)
      then refuse (invalid_vector op)
      else if ltb (length r') 16
      then refuse (short_vector (length r'))
      else continue (drop 16 r')
]

unfoldable pub read_opcode : Features → ℕ → List ℕ → Step
read_opcode f op r =
    if op == 0x41
    then read_immediate read_value (load_int32 r) r
    else if op == 0x6a || (op == 0x6b || op == 0x6c)
    then extended f op r
    else if op == 0x42
    then read_immediate read_value (load_int64 r) r
    else if op == 0x7c || (op == 0x7d || op == 0x7e)
    then extended f op r
    else if op == 0x43
    then read_full 4 r
    else if op == 0x44
    then read_full 8 r
    else if op == 0x23
    then read_immediate read_value (load_uint32 r) r
    else if op == 0xd0
    then read_ref_null f r
    else if op == 0xd2
    then (if not f.bulk_memory
        then refuse (feature_disabled op)
        else read_immediate read_value (load_uint32 r) r)
    else if op == 0xfd
    then read_vector f r
    else if op == 0x0b
    then complete r
    else refuse (invalid_opcode op)

-- The bytes behind the expression.
unfoldable pub read_loop : ℕ → Features → List ℕ → Outcome (Result Error (List ℕ))
read_loop fuel f [] = Outcome.ok (err no_opcode)
read_loop zero f (op ∷ r) = stuck
read_loop (suc fuel) f (op ∷ r) = elim (read_opcode f op r) [
  | continue r' ↦ read_loop fuel f r'
  | complete r' ↦ Outcome.ok (ok r')
  | refuse e ↦ Outcome.ok (err e)
]

-- The expression is what was read, up to its end; the reader stands behind it.
unfoldable pub expression :
    List ℕ → Outcome (Result Error (List ℕ)) → Outcome (Result Error (List ℕ × List ℕ))
expression r (Outcome.ok (ok rest)) = Outcome.ok (ok (take (length r - length rest) r, rest))
expression r (Outcome.ok (err e)) = Outcome.ok (err e)
expression r Outcome.panic = Outcome.panic
expression r stuck = stuck

unfoldable pub decode_constant_expression :
    Features → List ℕ → Outcome (Result Error (List ℕ × List ℕ))
decode_constant_expression f r = expression r (read_loop (length r) f r)
