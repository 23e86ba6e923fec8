-- ===== src/ConstExpr/Machine.antt =====
-- evaluateConstExpr: one definition for each case of its switch.
use andsifr.Common.{
  ℕ, ◌+◌, ◌-◌, ◌*◌, ◌%◌, ◌^◌, Bool, true, not, ◌||◌, List, [], ◌∷◌, ◌++◌, ltb, ◌==◌, if◌then◌else◌,
  length, get_or, drop, bit_or,
}
use mathlib.Core.List.{reverse}
use andsifr.Common.Outcome.{Outcome, panic, stuck}
use andsifr.Common.Result.{Result}
use andsifr.Leb128.{Decoded, load_uint32, load_int32, load_int64}
use andsifr.Leb128
use andsifr.Memory.{le_value}

abbrev pub type_i32 : ℕ
type_i32 = 0x7f

abbrev pub type_i64 : ℕ
type_i64 = 0x7e

abbrev pub type_f32 : ℕ
type_f32 = 0x7d

abbrev pub type_f64 : ℕ
type_f64 = 0x7c

abbrev pub type_v128 : ℕ
type_v128 = 0x7b

abbrev pub type_funcref : ℕ
type_funcref = 0x70

abbrev pub type_externref : ℕ
type_externref = 0x6f

abbrev pub type_exnref : ℕ
type_exnref = 0x69

-- ValueTypeConcreteRef: the index of a type in the high bits.
unfoldable pub concrete_ref : ℕ → Bool → ℕ
concrete_ref index nullable =
    let v = bit_or (bit_or type_funcref (2 ^ 9)) (index * 2 ^ 32 % 2 ^ 64) in
    if nullable then v else bit_or v (2 ^ 8)

-- `X` is what the resolvers of the caller answer as errors.
pub data Error (X : Type 0) : Type 0 where
  unexpected_eof : Error X
  read_failed : Leb128.Error → Error X
  resolver_failed : X → Error X
  short_ref_type : Error X
  invalid_ref_type : ℕ → Error X
  invalid_vector : ℕ → Error X
  short_vector : ℕ → Error X
  underflow : ℕ → Error X
  mismatch : ℕ → ℕ → ℕ → Error X
  leftover : Error X
  invalid_opcode : ℕ → Error X

abbrev pub Run : Type 0 → Type 0 → Type 0
Run X A = Outcome (Result (Error X) A)

abbrev pub go : {X A : Type 0} → A → Run X A
go a = Outcome.ok (Result.ok a)

abbrev pub fail : {X A : Type 0} → Error X → Run X A
fail e = Outcome.ok (Result.err e)

infixl 5 ◌>>=◌
abbrev pub ◌>>=◌ : {X A B : Type 0} → Run X A → (A → Run X B) → Run X B
Outcome.ok (Result.ok a) >>= f = f a
Outcome.ok (Result.err e) >>= f = fail e
panic >>= f = panic
stuck >>= f = stuck

-- An immediate, and what the machine reads next.
unfoldable pub immediate :
    {X : Type 0} → (Leb128.Error → Error X) → Decoded → List ℕ → Run X (ℕ × List ℕ)
immediate wrap (Result.ok (v, n)) rest = go (v, drop n rest)
immediate wrap (Result.err e) rest = fail (wrap e)

-- The results of a resolver.
unfoldable pub resolved : {X A : Type 0} → Outcome (Result X A) → Run X A
resolved (Outcome.ok (Result.ok a)) = go a
resolved (Outcome.ok (Result.err x)) = fail (resolver_failed x)
resolved panic = panic
resolved stuck = stuck

pub record State : Type 0 where
  pub rest : List ℕ
  pub stack : List ℕ
  pub types : List ℕ

pub data Progress : Type 0 where
  more : State → Progress
  finished : List ℕ → ℕ → Progress

-- Values, the top first, of one type, on the stacks.
abbrev pub push : State → List ℕ → List ℕ → ℕ → Progress
push s rest values type =
    more (record { rest = rest; stack = values ++ s.stack; types = type ∷ s.types })

abbrev pub uint_at : ℕ → ℕ → List ℕ → ℕ
uint_at n from xs = le_value n (λ i. get_or xs (from + i) 0)

-- The two values on top, the upper first: slices that are too short panic.
unfoldable pub top_two : List ℕ → Outcome (ℕ × ℕ × List ℕ)
top_two (b ∷ (a ∷ l)) = Outcome.ok (b, a, l)
top_two (b ∷ []) = panic
top_two [] = panic

module _ {X : Type 0} where
  unfoldable pub i32_const : State → Run X Progress
  i32_const s = do
    (v, rest) ← immediate read_failed (load_int32 s.rest) s.rest
    go (push s rest (v ∷ []) type_i32)

  unfoldable pub i64_const : State → Run X Progress
  i64_const s = do
    (v, rest) ← immediate read_failed (load_int64 s.rest) s.rest
    go (push s rest (v ∷ []) type_i64)

  unfoldable pub f32_const : State → Run X Progress
  f32_const s =
      if ltb (length s.rest) 4
      then fail unexpected_eof
      else go (push s (drop 4 s.rest) (uint_at 4 0 s.rest ∷ []) type_f32)

  unfoldable pub f64_const : State → Run X Progress
  f64_const s =
      if ltb (length s.rest) 8
      then fail unexpected_eof
      else go (push s (drop 8 s.rest) (uint_at 8 0 s.rest ∷ []) type_f64)

  -- The type of a null reference, at the position of its first byte.
  unfoldable pub ref_null_type : List ℕ → Run X (ℕ × List ℕ)
  ref_null_type [] = fail short_ref_type
  ref_null_type (b ∷ r) =
      if b == type_funcref || (b == type_externref || b == type_exnref) then go (b, r) else (do
        (index, rest) ← immediate (λ e. invalid_ref_type b) (load_uint32 (b ∷ r)) (b ∷ r)
        go (concrete_ref index true, rest))

  unfoldable pub ref_null : State → Run X Progress
  ref_null s = do (type, rest) ← ref_null_type s.rest; go (push s rest (0 ∷ []) type)

  -- `data[pc]` is read without a test. The message names the byte before it, the prefix.
  unfoldable pub vec_const : List ℕ → State → Run X Progress
  vec_const [] s = panic
  vec_const (b ∷ r) s =
      if not (b == 0x0c)
      then fail (invalid_vector 0xfd)
      else if ltb (length r) 16
      then fail (short_vector (length r))
      else go (push s (drop 16 r) (uint_at 8 8 r ∷ uint_at 8 0 r ∷ []) type_v128)

  abbrev pub operate : ℕ → (ℕ → ℕ → ℕ) → State → List ℕ → Outcome (ℕ × ℕ × List ℕ) → Run X Progress
  operate type f s types (Outcome.ok (b, a, l)) =
      go (more (record { rest = s.rest; stack = f a b ∷ l; types = type ∷ types }))
  operate type f s types panic = panic
  operate type f s types stuck = stuck

  -- A case of two operands of a type.
  unfoldable pub binary : ℕ → ℕ → (ℕ → ℕ → ℕ) → State → List ℕ → Run X Progress
  binary op type f s [] = fail (underflow op)
  binary op type f s (v1 ∷ []) = fail (underflow op)
  binary op type f s (v1 ∷ (v2 ∷ types)) =
      if not (v1 == type) || not (v2 == type)
      then fail (mismatch op v2 v1)
      else operate type f s types (top_two s.stack)

  unfoldable pub i32_add : State → Run X Progress
  i32_add s = binary 0x6a type_i32 (λ a b. (a % 2 ^ 32 + b % 2 ^ 32) % 2 ^ 32) s s.types

  unfoldable pub i32_sub : State → Run X Progress
  i32_sub s = binary 0x6b type_i32 (λ a b. (a % 2 ^ 32 + (2 ^ 32 - b % 2 ^ 32)) % 2 ^ 32) s s.types

  unfoldable pub i32_mul : State → Run X Progress
  i32_mul s = binary 0x6c type_i32 (λ a b. a % 2 ^ 32 * (b % 2 ^ 32) % 2 ^ 32) s s.types

  unfoldable pub i64_add : State → Run X Progress
  i64_add s = binary 0x7c type_i64 (λ a b. (a + b) % 2 ^ 64) s s.types

  unfoldable pub i64_sub : State → Run X Progress
  i64_sub s = binary 0x7d type_i64 (λ a b. (a + (2 ^ 64 - b)) % 2 ^ 64) s s.types

  unfoldable pub i64_mul : State → Run X Progress
  i64_mul s = binary 0x7e type_i64 (λ a b. a * b % 2 ^ 64) s s.types

  unfoldable pub end_case : State → List ℕ → Run X Progress
  end_case s [] = fail leftover
  end_case s (t ∷ []) = go (finished (reverse s.stack) t)
  end_case s (t ∷ (u ∷ types)) = fail leftover
