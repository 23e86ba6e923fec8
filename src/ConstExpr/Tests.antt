-- ===== src/ConstExpr/Tests.antt =====
-- Constant expressions on concrete bytes.
use andsifr.Common.{ℕ, ◌-◌, ◌^◌, ◌≡◌, ◌≢◌, refl, true, false, some, List, [], ◌∷◌, ◌++◌, arith}
use andsifr.Common.Outcome.{Outcome, ok, panic, stuck}
use andsifr.Common.Result.{Result}
use andsifr.ConstExpr.{references_global, from_i64, from_i32}
use andsifr.ConstExpr.Decode
use andsifr.ConstExpr.Decode.{Features, decode_constant_expression}
use andsifr.ConstExpr.Machine
use andsifr.ConstExpr.Evaluate
use andsifr.ConstExpr.Evaluate.{evaluate}
use andsifr.ConstExpr.Safety.{IsSettled}
use andsifr.ConstExpr.Accepted.{decode-evaluate, decode_returns}
use andsifr.ConstExpr.Independence.{references_global-evaluate}
use andsifr.ConstExpr.Termination.{evaluate_ends}
use andsifr.ConstExpr.RoundTrip.{from_i64_lem}

abbrev all : Features
all = record { extended_const = true; bulk_memory = true; simd = true }

abbrev old : Features
old = record { extended_const = false; bulk_memory = false; simd = false }

-- Globals that hold their index as an i32, and no functions.
abbrev global : ℕ → Outcome (Result ℕ (ℕ × ℕ × ℕ))
global i = ok (Result.ok (0x7f, i, 0))

abbrev no_global : ℕ → Outcome (Result ℕ (ℕ × ℕ × ℕ))
no_global i = ok (Result.err i)

abbrev func : ℕ → Outcome (Result ℕ ℕ)
func i = ok (Result.err i)

-- (global.get 5) + (i32.const 2)
abbrev sum : List ℕ
sum = 0x23 ∷ (5 ∷ (0x41 ∷ (2 ∷ (0x6a ∷ (0x0b ∷ [])))))

-- (i32.const -1) - (i32.const 2)
abbrev difference : List ℕ
difference = 0x41 ∷ (0x7f ∷ (0x41 ∷ (2 ∷ (0x6b ∷ (0x0b ∷ [])))))

sum_runs : evaluate global func sum ≡ ok (Result.ok (7 ∷ [], 0x7f))
unfolding evaluate Evaluate.loop Evaluate.round Evaluate.dispatch Evaluate.global_get
    Machine.immediate andsifr.Leb128.load_uint32 andsifr.Leb128.decode_uint32_loop Machine.resolved
    Machine.i32_const andsifr.Leb128.load_int32 andsifr.Leb128.decode_int32_loop
    andsifr.Leb128.check_int32 Machine.i32_add Machine.binary Machine.top_two Machine.end_case
sum_runs = refl

sum_fails : evaluate no_global func sum ≡ ok (Result.err (Machine.resolver_failed 5))
unfolding evaluate Evaluate.loop Evaluate.round Evaluate.dispatch Evaluate.global_get
    Machine.immediate andsifr.Leb128.load_uint32 andsifr.Leb128.decode_uint32_loop Machine.resolved
sum_fails = refl

difference_runs : evaluate global func difference ≡ ok (Result.ok ((2 ^ 32 - 3) ∷ [], 0x7f))
unfolding evaluate Evaluate.loop Evaluate.round Evaluate.dispatch Machine.i32_const
    Machine.immediate andsifr.Leb128.load_int32 andsifr.Leb128.decode_int32_loop
    andsifr.Leb128.check_int32 Machine.i32_sub Machine.binary Machine.top_two Machine.end_case
difference_runs = refl

-- i64.add of two i32.
mixed :
    evaluate global func (0x41 ∷ (1 ∷ (0x41 ∷ (2 ∷ (0x7c ∷ (0x0b ∷ []))))))
    ≡ ok (Result.err (Machine.mismatch 0x7c 0x7f 0x7f))
unfolding evaluate Evaluate.loop Evaluate.round Evaluate.dispatch Machine.i32_const
    Machine.immediate andsifr.Leb128.load_int32 andsifr.Leb128.decode_int32_loop
    andsifr.Leb128.check_int32 Machine.i64_add Machine.binary
mixed = refl

unfinished : evaluate global func (0x41 ∷ (1 ∷ [])) ≡ ok (Result.err Machine.unexpected_eof)
unfolding evaluate Evaluate.loop Evaluate.round Evaluate.dispatch Machine.i32_const
    Machine.immediate andsifr.Leb128.load_int32 andsifr.Leb128.decode_int32_loop
    andsifr.Leb128.check_int32
unfinished = refl

-- A vector prefix at the end of the bytes, which the decoder refuses.
cut_vector : evaluate global func (0xfd ∷ []) ≡ panic
unfolding evaluate Evaluate.loop Evaluate.round Evaluate.dispatch Machine.vec_const
cut_vector = refl

cut_vector_refused :
    decode_constant_expression all (0xfd ∷ []) ≡ ok (Result.err Decode.no_vector_opcode)
unfolding decode_constant_expression Decode.expression Decode.read_loop Decode.read_opcode
    Decode.read_vector
cut_vector_refused = refl

sum_decoded :
    decode_constant_expression all (sum ++ (1 ∷ (2 ∷ []))) ≡ ok (Result.ok (sum, 1 ∷ (2 ∷ [])))
unfolding decode_constant_expression Decode.expression Decode.read_loop Decode.read_opcode
    Decode.read_immediate andsifr.Leb128.load_uint32 andsifr.Leb128.decode_uint32_loop
    andsifr.Leb128.load_int32 andsifr.Leb128.decode_int32_loop andsifr.Leb128.check_int32
    Decode.extended
sum_decoded = refl

sum_refused : decode_constant_expression old sum ≡ ok (Result.err (Decode.feature_disabled 0x6a))
unfolding decode_constant_expression Decode.expression Decode.read_loop Decode.read_opcode
    Decode.read_immediate andsifr.Leb128.load_uint32 andsifr.Leb128.decode_uint32_loop
    andsifr.Leb128.load_int32 andsifr.Leb128.decode_int32_loop andsifr.Leb128.check_int32
    Decode.extended
sum_refused = refl

difference_free : references_global difference ≡ ok false
unfolding references_global andsifr.ConstExpr.scan andsifr.ConstExpr.scan_opcode
    andsifr.ConstExpr.skip_immediate andsifr.Leb128.load_int32 andsifr.Leb128.decode_int32_loop
    andsifr.Leb128.check_int32
difference_free = refl

sum_bound : references_global sum ≡ ok true
unfolding references_global andsifr.ConstExpr.scan andsifr.ConstExpr.scan_opcode
sum_bound = refl

small : from_i32 100 ≡ some (0x41 ∷ (0xe4 ∷ (0x00 ∷ (0x0b ∷ []))))
unfolding from_i32 andsifr.Leb128.encode_int32 andsifr.Leb128.encode_int64
    andsifr.Leb128.encode_int64_loop andsifr.Leb128.shift_right_int64 andsifr.Leb128.extend_int32
    andsifr.ConstExpr.from_opcode
small = refl

decode-evaluate_example :
    (sum ++ (1 ∷ (2 ∷ [])) ≡ sum ++ (1 ∷ (2 ∷ []))) × IsSettled (evaluate global func sum)
decode-evaluate_example =
    decode-evaluate all (sum ++ (1 ∷ (2 ∷ []))) sum (1 ∷ (2 ∷ [])) global func sum_decoded (λ i. tt)
      (λ i. tt)

decode_returns_example :
    (result : Result Decode.Error (List ℕ × List ℕ)) × (decode_constant_expression old sum
      ≡ ok result)
decode_returns_example = decode_returns old sum

references_global-evaluate_example :
    evaluate global func difference ≡ evaluate no_global (λ i. panic) difference
references_global-evaluate_example =
    references_global-evaluate global no_global func (λ i. panic) difference difference_free

evaluate_ends_example : evaluate no_global func (0xfd ∷ (0xd2 ∷ sum)) ≢ stuck
evaluate_ends_example = evaluate_ends no_global func (λ i e. cc) (λ i e. cc) (0xfd ∷ (0xd2 ∷ sum))

from_i64_lem_example :
    (code : List ℕ) × (from_i64 (2 ^ 63) ≡ some code)
    × (decode_constant_expression old (code ++ (7 ∷ [])) ≡ ok (Result.ok (code, 7 ∷ [])))
    × (evaluate global func code ≡ ok (Result.ok ((2 ^ 63) ∷ [], 0x7e)))
from_i64_lem_example = from_i64_lem global func old (2 ^ 63) (7 ∷ []) (omega arith)
