-- ===== src/ConstExpr/Safety.antt =====
-- The evaluator on a well-formed expression, from its first opcode to its end.
use andsifr.Common.{
  ℕ, zero, suc, ◌≤◌, ◌≡◌, refl, ◌⊎◌, inl, inr, true, ◌||◌, List, [], ◌++◌, ◌==◌, length,
  length-append, arith,
}
use andsifr.Common.Outcome.{Outcome, panic, stuck}
use andsifr.Common.Result.{Result}
use andsifr.ConstExpr.Machine.{
  type_i32, type_i64, Run, go, ◌>>=◌, State, Progress, more, finished, i32_add, i32_sub, i32_mul,
  i64_add, i64_sub, i64_mul, end_case,
}
use andsifr.ConstExpr.Evaluate.{dispatch, round, loop, evaluate}
use andsifr.ConstExpr.Walk.{
  Immediate, int32, int64, float32, float64, null_abstract, null_concrete, func, vector,
  arithmetic32, arithmetic64, width, widths, IsLevel, After, Next, Ends, Walk, finish, opcode,
}
use andsifr.ConstExpr.Cases.{
  at, i32_const-After, i64_const-After, f32_const-After, f64_const-After, null_abstract-After,
  null_concrete-After, vector-After, binary-After, end-After, global-After, func-After, Returns,
}

-- The end of a run: an error of the machine, or as many words as a value of the type takes.
abbrev pub IsSettled : {X : Type 0} → Run X (List ℕ × ℕ) → Type 0
IsSettled (Outcome.ok (Result.ok (values, type))) = length values ≡ width type
IsSettled (Outcome.ok (Result.err e)) = Unit {0}
IsSettled panic = ⊥
IsSettled stuck = ⊥

pub one_of_three :
    (op a b c : ℕ) → (op == a || (op == b || op == c)) ≡ true → (op ≡ a) ⊎ ((op ≡ b) ⊎ (op ≡ c))
one_of_three op a b c h = grind arith

module _ {X : Type 0} (global : ℕ → Outcome (Result X (ℕ × ℕ × ℕ)))
    (func_ref : ℕ → Outcome (Result X ℕ)) (globals : (i : ℕ) → Returns (global i))
    (funcs : (i : ℕ) → Returns (func_ref i)) where
  arithmetic32-After :
      (op : ℕ) (next stack types : List ℕ)
      → length stack ≡ widths types
      → (op == 0x6a || (op == 0x6b || op == 0x6c)) ≡ true
      → After (Next next) Ends (dispatch global func_ref op (at next stack types))
  unfolding dispatch i32_add i32_sub i32_mul
  arithmetic32-After op next stack types level h = elim (one_of_three op 0x6a 0x6b 0x6c h) [
    | inl e ↦ rw e (binary-After X next next refl 0x6a type_i32 _ stack types refl level)
    | inr (inl e) ↦ rw e (binary-After X next next refl 0x6b type_i32 _ stack types refl level)
    | inr (inr e) ↦ rw e (binary-After X next next refl 0x6c type_i32 _ stack types refl level)
  ]

  arithmetic64-After :
      (op : ℕ) (next stack types : List ℕ)
      → length stack ≡ widths types
      → (op == 0x7c || (op == 0x7d || op == 0x7e)) ≡ true
      → After (Next next) Ends (dispatch global func_ref op (at next stack types))
  unfolding dispatch i64_add i64_sub i64_mul
  arithmetic64-After op next stack types level h = elim (one_of_three op 0x7c 0x7d 0x7e h) [
    | inl e ↦ rw e (binary-After X next next refl 0x7c type_i64 _ stack types refl level)
    | inr (inl e) ↦ rw e (binary-After X next next refl 0x7d type_i64 _ stack types refl level)
    | inr (inr e) ↦ rw e (binary-After X next next refl 0x7e type_i64 _ stack types refl level)
  ]

  immediate-After :
      (op : ℕ) (imm next stack types : List ℕ)
      → length stack ≡ widths types
      → Immediate op imm next
      → After (Next next) Ends (dispatch global func_ref op (at (imm ++ next) stack types))
  unfolding dispatch
  immediate-After op imm next stack types level (int32 v o e) =
      rw o (i32_const-After X stack types imm next level v e)
  immediate-After op imm next stack types level (int64 v o e) =
      rw o (i64_const-After X stack types imm next level v e)
  immediate-After op imm next stack types level (float32 o e) =
      rw o (f32_const-After X stack types imm next level e)
  immediate-After op imm next stack types level (float64 o e) =
      rw o (f64_const-After X stack types imm next level e)
  immediate-After op imm next stack types level (Immediate.global v o e) =
      rw o (global-After global func_ref v stack types imm next level e globals)
  immediate-After op imm next stack types level (null_abstract b o e h) =
      rw o (null_abstract-After X stack types imm next level b e h)
  immediate-After op imm next stack types level (null_concrete b v r o e h l) =
      rw o (null_concrete-After X stack types imm next level b v r e h l)
  immediate-After op imm next stack types level (func v o e) =
      rw o (func-After global func_ref v stack types imm next level e funcs)
  immediate-After op imm next stack types level (vector r o e l) =
      rw o (vector-After X stack types imm next level r e l)
  immediate-After op imm next stack types level (arithmetic32 o e) =
      rw e (arithmetic32-After op next stack types level o)
  immediate-After op imm next stack types level (arithmetic64 o e) =
      rw e (arithmetic64-After op next stack types level o)

  settle :
      (Q : State → Type 0) (fuel : ℕ) (r : Run X Progress)
      → After Q Ends r
      → ((s : State) → Q s → IsSettled (loop global func_ref fuel s))
      → IsSettled (
          r >>= λ p. elim p [
            | more s' ↦ loop global func_ref fuel s'
            | finished values type ↦ go (values, type)
          ])
  settle Q fuel (Outcome.ok (Result.ok (more s))) after each = each s after
  settle Q fuel (Outcome.ok (Result.ok (finished v t))) after each = after
  settle Q fuel (Outcome.ok (Result.err e)) after each = tt
  settle Q fuel panic after each = after
  settle Q fuel stuck after each = after

  loop-IsSettled :
      (code : List ℕ)
      → Walk code
      → (fuel : ℕ) (s : State) → length code ≤ fuel
      → s.rest ≡ code
      → IsLevel s
      → IsSettled (loop global func_ref fuel s)
  unfolding loop round dispatch
  loop-IsSettled code (finish op o) zero s fits here level = absurd (omega arith)
  loop-IsSettled code (opcode op imm next i walk) zero s fits here level = absurd (omega arith)
  loop-IsSettled code (finish op o) (suc fuel) s fits here level =
      rw (here, o)
        (settle (λ s'. ⊥) fuel (end_case {X = X} (record s { rest = [] }) s.types)
          (end-After X [] [] refl s.stack s.types level.level) (λ s' never. absurd never))
  loop-IsSettled code (opcode op imm next i walk) (suc fuel) s fits here level = rw here (
      settle (Next next) fuel (dispatch global func_ref op (record s { rest = imm ++ next }))
        (immediate-After op imm next s.stack s.types level.level i)
        (λ s' after.
          loop-IsSettled next walk fuel s' (omega (arith, length-append imm next)) after.0 after.1))

  pub evaluate-IsSettled : (code : List ℕ) → Walk code → IsSettled (evaluate global func_ref code)
  unfolding evaluate
  evaluate-IsSettled code walk =
      loop-IsSettled code walk (suc (length code)) _ (omega arith) refl (record { level = refl })
