-- ===== src/ConstExpr/RoundTrip.antt =====
-- The expressions of NewConstantExpressionFromI64, read and evaluated.
use andsifr.Common.{
  ℕ, suc, ◌+◌, ◌-◌, ◌<◌, ◌^◌, ◌≡◌, refl, sym, ap, ◌∙◌, some, List, [], ◌∷◌, ◌++◌, length, take,
  append_assoc, length-append, drop-append_length, arith,
}
use andsifr.Common.Outcome.{Outcome}
use andsifr.Common.Result.{Result}
use andsifr.Leb128.{load_int64}
use andsifr.Leb128.Int64.{load_int64-encode}
use andsifr.ConstExpr.{from_opcode, from_i64}
use andsifr.ConstExpr.Decode.{
  Features, continue, complete, refuse, read_value, read_immediate, read_opcode, read_loop,
  expression, decode_constant_expression,
}
use andsifr.ConstExpr.Reading.{taken}
use andsifr.ConstExpr.Machine.{type_i64, go, immediate, i64_const, end_case}
use andsifr.ConstExpr.Evaluate.{dispatch, round, loop, evaluate}

read_round :
    (f : Features) (n v : ℕ) (buf next : List ℕ)
    → load_int64 (buf ++ next) ≡ Result.ok (v, length buf)
    → read_loop (suc n) f (0x42 ∷ (buf ++ next)) ≡ read_loop n f next
unfolding read_loop read_opcode read_immediate
read_round f n v buf next e =
    ap
      (λ d. elim (read_immediate read_value d (buf ++ next)) [
        | continue r' ↦ read_loop n f r'
        | complete r' ↦ Outcome.ok (Result.ok r')
        | refuse x ↦ Outcome.ok (Result.err x)
      ])
      e
    ∙ ap (read_loop n f) (drop-append_length buf next)

read_end :
    (f : Features) (n : ℕ) (rest : List ℕ)
    → read_loop (suc n) f (0x0b ∷ rest) ≡ Outcome.ok (Result.ok rest)
unfolding read_loop read_opcode
read_end f n rest = refl

read_i64 :
    (f : Features) (v : ℕ) (buf rest : List ℕ)
    → load_int64 (buf ++ (0x0b ∷ rest)) ≡ Result.ok (v, length buf)
    → read_loop (suc (length (buf ++ (0x0b ∷ rest)))) f (0x42 ∷ (buf ++ (0x0b ∷ rest)))
      ≡ Outcome.ok (Result.ok rest)
read_i64 f v buf rest e =
    let more : length (buf ++ (0x0b ∷ rest)) ≡ suc (length buf + length rest) =
      omega (arith, length-append buf (0x0b ∷ rest)) in
    read_round f (length (buf ++ (0x0b ∷ rest))) v buf (0x0b ∷ rest) e
    ∙ ap (λ n. read_loop n f (0x0b ∷ rest)) more
    ∙ read_end f (length buf + length rest) rest

decode_i64 :
    (f : Features) (v : ℕ) (buf rest : List ℕ)
    → load_int64 (buf ++ (0x0b ∷ rest)) ≡ Result.ok (v, length buf)
    → decode_constant_expression f (from_opcode 0x42 buf ++ rest)
      ≡ Outcome.ok (Result.ok (from_opcode 0x42 buf, rest))
unfolding decode_constant_expression expression from_opcode
decode_i64 f v buf rest e =
    let joined : (buf ++ (0x0b ∷ [])) ++ rest ≡ buf ++ (0x0b ∷ rest) =
      append_assoc buf (0x0b ∷ []) rest in
    let part : take (suc (length (buf ++ (0x0b ∷ rest))) - length rest)
          (0x42 ∷ (buf ++ (0x0b ∷ rest)))
        ≡ 0x42 ∷ (buf ++ (0x0b ∷ [])) =
      taken (0x42 ∷ (buf ++ (0x0b ∷ rest))) (0x42 ∷ (buf ++ (0x0b ∷ []))) rest
        (ap (λ l. 0x42 ∷ l) (sym joined)) in
    rw (joined, read_i64 f v buf rest e, part) refl

evaluate_i64 :
    {X : Type 0} (global : ℕ → Outcome (Result X (ℕ × ℕ × ℕ))) (func_ref : ℕ → Outcome (Result X ℕ))
    (v : ℕ) (buf : List ℕ)
    → load_int64 (buf ++ (0x0b ∷ [])) ≡ Result.ok (v, length buf)
    → evaluate global func_ref (from_opcode 0x42 buf) ≡ go (v ∷ [], type_i64)
unfolding evaluate loop round dispatch i64_const immediate end_case from_opcode
evaluate_i64 global func_ref v buf e = rw (e, drop-append_length buf (0x0b ∷ [])) refl

-- On every int64 NewConstantExpressionFromI64 returns; the decoder reads the expression from the
-- front of any longer input, whatever features are enabled, and it evaluates to the number.
pub from_i64_lem :
    {X : Type 0} (global : ℕ → Outcome (Result X (ℕ × ℕ × ℕ))) (func_ref : ℕ → Outcome (Result X ℕ))
    (f : Features) (v : ℕ) (rest : List ℕ)
    → v < 2 ^ 64
    → (code : List ℕ) × (from_i64 v ≡ some code)
      × (decode_constant_expression f (code ++ rest) ≡ Outcome.ok (Result.ok (code, rest)))
      × (evaluate global func_ref code ≡ go (v ∷ [], type_i64))
unfolding from_i64
from_i64_lem global func_ref f v rest h =
    let (buf, encoded, loaded) = load_int64-encode v (0x0b ∷ rest) h in
    let (buf', encoded', loaded') = load_int64-encode v (0x0b ∷ []) h in
    let same : buf' ≡ buf = cc in
    (
      from_opcode 0x42 buf,
      rw (from_i64, encoded) refl,
      decode_i64 f v buf rest loaded,
      evaluate_i64 global func_ref v buf (rw same at loaded'),
    )
