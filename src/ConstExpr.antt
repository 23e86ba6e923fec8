-- ===== src/ConstExpr.antt =====
-- internal/wasm/const_expr.go: the constant expressions of globals, tables and segments. Machine and
-- Evaluate are the evaluator, here stand the constructors and the scan for global.get, and Decode is
-- internal/wasm/binary/const_expr.go, which reads the expressions from a binary.
pub mod Machine
pub mod Evaluate
pub mod Decode
pub mod Walk
pub mod Cases
pub mod Safety
pub mod Accept
pub mod Opcodes
pub mod Reading
pub mod Independence
pub mod Termination
pub mod RoundTrip
pub mod Accepted
mod Tests
use andsifr.Common.{
  ℕ, zero, suc, ◌+◌, Bool, true, false, ◌||◌, Option, none, some, List, [], ◌∷◌, ◌++◌, ◌==◌,
  if◌then◌else◌, length, drop,
}
use andsifr.Common.Outcome.{Outcome, ok, stuck}
use andsifr.Common.Result
use andsifr.Leb128.{Decoded, encode_int32, encode_int64, load_int32, load_int64}

-- What one opcode says of the question whether an expression has a global.get.
pub data Verdict : Type 0 where
  answer : Bool → Verdict
  go_on : List ℕ → Verdict

unfoldable pub skip_immediate : Decoded → List ℕ → Verdict
skip_immediate (Result.ok (v, n)) rest = go_on (drop n rest)
skip_immediate (Result.err e) rest = answer true

unfoldable pub scan_opcode : ℕ → List ℕ → Verdict
scan_opcode op rest =
    if op == 0x23
    then answer true
    else if op == 0x0b
    then answer false
    else if op == 0x41
    then skip_immediate (load_int32 rest) rest
    else if op == 0x42
    then skip_immediate (load_int64 rest) rest
    else if (op == 0x6a || (op == 0x6b || op == 0x6c)) || (op == 0x7c || (op == 0x7d || op == 0x7e))
    then go_on rest
    else answer true

unfoldable pub scan : ℕ → List ℕ → Outcome Bool
scan fuel [] = ok true
scan zero (op ∷ rest) = stuck
scan (suc fuel) (op ∷ rest) = elim (scan_opcode op rest) [
  | answer b ↦ ok b
  | go_on rest' ↦ scan fuel rest'
]

-- Each round reads a byte.
unfoldable pub references_global : List ℕ → Outcome Bool
references_global code = scan (length code) code

-- NewConstantExpressionFromOpcode.
unfoldable pub from_opcode : ℕ → List ℕ → List ℕ
from_opcode opcode operands =
    (if opcode == 0x0c then 0xfd ∷ [] else []) ++ (opcode ∷ (operands ++ (0x0b ∷ [])))

unfoldable pub from_i32 : ℕ → Option (List ℕ)
from_i32 value = elim (encode_int32 value) [ none ↦ none | some buf ↦ some (from_opcode 0x41 buf) ]

unfoldable pub from_i64 : ℕ → Option (List ℕ)
from_i64 value = elim (encode_int64 value) [ none ↦ none | some buf ↦ some (from_opcode 0x42 buf) ]
