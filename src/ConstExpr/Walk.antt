-- ===== src/ConstExpr/Walk.antt =====
-- What constant expressions are, as sequences of opcodes and immediates; the evaluator on these.
use andsifr.Common.{
  ℕ, ◌+◌, ◌≡◌, true, false, ◌||◌, List, [], ◌∷◌, ◌++◌, ◌==◌, if◌then◌else◌, length,
}
use andsifr.Common.Outcome.{Outcome, panic, stuck}
use andsifr.Common.Result.{Result}
use andsifr.Leb128.{load_uint32, load_int32, load_int64}
use andsifr.ConstExpr.Machine.{type_v128, Run, State, Progress, more, finished}

-- The bytes `imm` behind the opcode `op`, in front of `next`.
pub data Immediate (op : ℕ) (imm next : List ℕ) : Type 0 where
  int32 :
      (v : ℕ)
      → op ≡ 0x41
      → load_int32 (imm ++ next) ≡ Result.ok (v, length imm)
      → Immediate op imm next
  int64 :
      (v : ℕ)
      → op ≡ 0x42
      → load_int64 (imm ++ next) ≡ Result.ok (v, length imm)
      → Immediate op imm next
  float32 : op ≡ 0x43 → length imm ≡ 4 → Immediate op imm next
  float64 : op ≡ 0x44 → length imm ≡ 8 → Immediate op imm next
  global :
      (v : ℕ)
      → op ≡ 0x23
      → load_uint32 (imm ++ next) ≡ Result.ok (v, length imm)
      → Immediate op imm next
  null_abstract :
      (b : ℕ)
      → op ≡ 0xd0
      → imm ≡ b ∷ []
      → (b == 0x70 || (b == 0x6f || b == 0x69)) ≡ true
      → Immediate op imm next
  null_concrete :
      (b v : ℕ) (r : List ℕ)
      → op ≡ 0xd0
      → imm ≡ b ∷ r
      → (b == 0x70 || (b == 0x6f || b == 0x69)) ≡ false
      → load_uint32 (imm ++ next) ≡ Result.ok (v, length imm)
      → Immediate op imm next
  func :
      (v : ℕ)
      → op ≡ 0xd2
      → load_uint32 (imm ++ next) ≡ Result.ok (v, length imm)
      → Immediate op imm next
  vector : (r : List ℕ) → op ≡ 0xfd → imm ≡ 0x0c ∷ r → length r ≡ 16 → Immediate op imm next
  arithmetic32 :
      (op == 0x6a || (op == 0x6b || op == 0x6c)) ≡ true → imm ≡ [] → Immediate op imm next
  arithmetic64 :
      (op == 0x7c || (op == 0x7d || op == 0x7e)) ≡ true → imm ≡ [] → Immediate op imm next

pub data Walk : List ℕ → Type 0 where
  finish : (op : ℕ) → op ≡ 0x0b → Walk (op ∷ [])
  opcode :
      (op : ℕ) (imm next : List ℕ) → Immediate op imm next → Walk next → Walk (op ∷ (imm ++ next))

-- How many values a type takes on the stack.
abbrev pub width : ℕ → ℕ
width t = if t == type_v128 then 2 else 1

abbrev pub widths : List ℕ → ℕ
widths [] = 0
widths (t ∷ ts) = width t + widths ts

pub record IsLevel (s : State) : Type 0 where
  pub level : length s.stack ≡ widths s.types

-- What a round comes to: an error of the machine, or the state `Q`, or the end `R`.
abbrev pub After : {X : Type 0} → (State → Type 0) → (List ℕ → ℕ → Type 0) → Run X Progress → Type 0
After Q R (Outcome.ok (Result.ok (more s))) = Q s
After Q R (Outcome.ok (Result.ok (finished v t))) = R v t
After Q R (Outcome.ok (Result.err e)) = Unit {0}
After Q R panic = ⊥
After Q R stuck = ⊥

abbrev pub Next : List ℕ → State → Type 0
Next next s = (s.rest ≡ next) × IsLevel s

abbrev pub Ends : List ℕ → ℕ → Type 0
Ends values t = length values ≡ width t
