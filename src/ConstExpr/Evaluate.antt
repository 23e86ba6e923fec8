-- ===== src/ConstExpr/Evaluate.antt =====
-- evaluateConstExpr: the cases that ask the resolvers, and the loop over the opcodes.
use andsifr.Common.{ℕ, zero, suc, List, [], ◌∷◌, ◌==◌, if◌then◌else◌, length}
use andsifr.Common.Outcome.{Outcome, stuck}
use andsifr.Common.Result.{Result}
use andsifr.Leb128.{load_uint32}
use andsifr.ConstExpr.Machine.{
  type_v128, type_funcref, Run, go, fail, ◌>>=◌, immediate, resolved, State, Progress, more,
  finished, push, i32_const, i64_const, f32_const, f64_const, ref_null, vec_const, i32_add, i32_sub,
  i32_mul, i64_add, i64_sub, i64_mul, end_case, read_failed, invalid_opcode, unexpected_eof,
}

module _ {X : Type 0} (global : ℕ → Outcome (Result X (ℕ × ℕ × ℕ)))
    (func_ref : ℕ → Outcome (Result X ℕ)) where
  unfoldable pub global_get : State → Run X Progress
  global_get s = do
    (v, rest) ← immediate read_failed (load_uint32 s.rest) s.rest
    (type, lo, hi) ← resolved (global v)
    go (push s rest (if type == type_v128 then hi ∷ lo ∷ [] else lo ∷ []) type)

  unfoldable pub ref_func : State → Run X Progress
  ref_func s = do
    (v, rest) ← immediate read_failed (load_uint32 s.rest) s.rest
    ref ← resolved (func_ref v)
    go (push s rest (ref ∷ []) type_funcref)

  -- The switch on the opcode, behind which the machine stands.
  unfoldable pub dispatch : ℕ → State → Run X Progress
  dispatch op s =
      if op == 0x41
      then i32_const s
      else if op == 0x42
      then i64_const s
      else if op == 0x43
      then f32_const s
      else if op == 0x44
      then f64_const s
      else if op == 0x23
      then global_get s
      else if op == 0xd0
      then ref_null s
      else if op == 0xd2
      then ref_func s
      else if op == 0xfd
      then vec_const s.rest s
      else if op == 0x6a
      then i32_add s
      else if op == 0x6b
      then i32_sub s
      else if op == 0x6c
      then i32_mul s
      else if op == 0x7c
      then i64_add s
      else if op == 0x7d
      then i64_sub s
      else if op == 0x7e
      then i64_mul s
      else if op == 0x0b
      then end_case s s.types
      else fail (invalid_opcode op)

  -- One round of the loop, at the bytes that are left.
  unfoldable pub round : List ℕ → State → Run X Progress
  round [] s = fail unexpected_eof
  round (op ∷ r) s = dispatch op (record s { rest = r })

  unfoldable pub loop : ℕ → State → Run X (List ℕ × ℕ)
  loop zero s = stuck
  loop (suc fuel) s = round s.rest s >>= λ p. elim p [
    | more s' ↦ loop fuel s'
    | finished values type ↦ go (values, type)
  ]

  -- Each round reads a byte: one more than there are is enough.
  unfoldable pub evaluate : List ℕ → Run X (List ℕ × ℕ)
  evaluate code = loop (suc (length code)) (record { rest = code; stack = []; types = [] })
