-- ===== src/Validation/BlockType.antt =====
-- DecodeBlockType of internal/wasm/func_validation.go. Its numbers are words of 64 bits; a negative one
-- is at least 2 ^ 63.
use andsifr.Common.{
  ℕ, ◌+◌, ◌-◌, ◌%◌, ◌^◌, Bool, true, false, not, ◌||◌, List, [], ◌∷◌, leb, ◌==◌, if◌then◌else◌,
  length, get_or, drop,
}
use andsifr.Common.Result.{Result, ok, err}
use andsifr.Leb128.{Decoded, decode_int33_as_int64}
use andsifr.Leb128
use andsifr.ConstExpr.Machine.{
  type_i32, type_i64, type_f32, type_f64, type_v128, type_funcref, type_externref, type_exnref,
  concrete_ref,
}
use andsifr.Validation.Types.{ValueType, as_non_nullable}

-- `string` is a cache of the text and not kept.
pub record FunctionType : Type 0 where
  pub params : List ValueType
  pub results : List ValueType
  pub param_num_in_uint64 : ℕ
  pub result_num_in_uint64 : ℕ
  pub rec_group_size : ℕ
  pub rec_group_position : ℕ

pub data BlockError : Type 0 where
  read_block : Leb128.Error → BlockError
  read_heap_type : Leb128.Error → BlockError
  unknown_heap_type : ℕ → BlockError
  unknown_type : BlockError
  multi_value_disabled : BlockError
  out_of_range : ℕ → BlockError

-- `-n` as a word.
abbrev pub negative : ℕ → ℕ
negative n = 2 ^ 64 - n

abbrev pub no_result : FunctionType
no_result = record {
  params = [];
  results = [];
  param_num_in_uint64 = 0;
  result_num_in_uint64 = 0;
  rec_group_size = 0;
  rec_group_position = 0;
}

abbrev pub one_result : ValueType → ℕ → FunctionType
one_result t words = record no_result { results = t ∷ []; result_num_in_uint64 = words }

abbrev pub abstract_ref : Bool → ValueType → ValueType
abstract_ref nullable t = if nullable then t else as_non_nullable t

-- The heap type behind the byte of a reference, in both cases of nullability.
unfoldable pub block_ref :
    List FunctionType → Bool → ℕ → Decoded → Result BlockError (FunctionType × ℕ)
block_ref types nullable num (err e) = err (read_heap_type e)
block_ref types nullable num (ok (ht, ht_num)) =
    if ht == negative 23
    then ok (one_result (abstract_ref nullable type_exnref) 1, num + ht_num)
    else if ht == negative 16
    then ok (one_result (abstract_ref nullable type_funcref) 1, num + ht_num)
    else if ht == negative 17
    then ok (one_result (abstract_ref nullable type_externref) 1, num + ht_num)
    else if leb (2 ^ 63) ht
    then err (unknown_heap_type ht)
    else if leb (length types) ht
    then err unknown_type
    else ok (one_result (concrete_ref (ht % 2 ^ 32) nullable) 1, num + ht_num)

unfoldable pub block_index : List FunctionType → Bool → ℕ → ℕ → Result BlockError (FunctionType × ℕ)
block_index types multi_value raw num =
    if not multi_value
    then err multi_value_disabled
    else if leb (2 ^ 63) raw || leb (length types) raw
    then err (out_of_range raw)
    else ok (get_or types raw no_result, num)

unfoldable pub block_type :
    List FunctionType → Bool → List ℕ → Decoded → Result BlockError (FunctionType × ℕ)
block_type types multi_value r (err e) = err (read_block e)
block_type types multi_value r (ok (raw, num)) =
    if raw == negative 64
    then ok (no_result, num)
    else if raw == negative 1
    then ok (one_result type_i32 1, num)
    else if raw == negative 2
    then ok (one_result type_i64 1, num)
    else if raw == negative 3
    then ok (one_result type_f32 1, num)
    else if raw == negative 4
    then ok (one_result type_f64 1, num)
    else if raw == negative 5
    then ok (one_result type_v128 2, num)
    else if raw == negative 16
    then ok (one_result type_funcref 1, num)
    else if raw == negative 17
    then ok (one_result type_externref 1, num)
    else if raw == negative 23
    then ok (one_result type_exnref 1, num)
    else if raw == negative 29
    then block_ref types true num (decode_int33_as_int64 (drop num r))
    else if raw == negative 28
    then block_ref types false num (decode_int33_as_int64 (drop num r))
    else block_index types multi_value raw num

unfoldable pub decode_block_type :
    List FunctionType → Bool → List ℕ → Result BlockError (FunctionType × ℕ)
decode_block_type types multi_value r = block_type types multi_value r (decode_int33_as_int64 r)
