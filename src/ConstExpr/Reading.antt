-- ===== src/ConstExpr/Reading.antt =====
-- The loop of decodeConstantExpression: it ends, and what it accepts is a well-formed expression.
use andsifr.Common.{
  ℕ, zero, suc, ◌-◌, ◌≤◌, ◌≡◌, sym, ap, subst, ◌∙◌, List, [], ◌∷◌, ◌++◌, length, take, append_assoc,
  length-append, take-append_length, arith,
}
use andsifr.Common.Outcome.{Outcome, panic, stuck}
use andsifr.Common.Result.{Result, ok, err}
use andsifr.ConstExpr.Decode.{
  Features, Error, Step, continue, complete, refuse, read_opcode, read_loop,
  decode_constant_expression, expression,
}
use andsifr.ConstExpr.Cases.{Returns}
use andsifr.ConstExpr.Walk.{Walk, finish, opcode}
use andsifr.ConstExpr.Accept.{Says}
use andsifr.ConstExpr.Opcodes.{opcode-Says}

Reads : List ℕ → List ℕ → Type 0
Reads r rest = (d : List ℕ) × (r ≡ d ++ rest) × Walk d

read_step-Reads :
    (fuel : ℕ) (f : Features) (op : ℕ) (r rest : List ℕ) (step : Step)
    → Says op r step
    → ((r' : List ℕ) → read_loop fuel f r' ≡ Outcome.ok (ok rest) → Reads r' rest)
    → elim step [
      | continue r' ↦ read_loop fuel f r'
      | complete r' ↦ Outcome.ok (ok r')
      | refuse e ↦ Outcome.ok (err e)
    ]
      ≡ Outcome.ok (ok rest)
    → Reads (op ∷ r) rest
unfolding Reads
read_step-Reads fuel f op r rest (continue r') (imm, read) each e =
    let (d, behind, walk) = each r' e in
    (
      op ∷ (imm ++ d),
      ap (λ l. op ∷ l) (read.parts ∙ ap (λ l. imm ++ l) behind ∙ sym (append_assoc imm d rest)),
      opcode op imm d (read.immediate d rest behind) walk,
    )
read_step-Reads fuel f op r rest (complete r') (o, same) each e = (op ∷ [], cc, finish op o)
read_step-Reads fuel f op r rest (refuse x) says each e = cc

read_loop-Reads :
    (fuel : ℕ) (f : Features) (r rest : List ℕ)
    → read_loop fuel f r ≡ Outcome.ok (ok rest)
    → Reads r rest
unfolding read_loop
read_loop-Reads fuel f [] rest e = cc
read_loop-Reads zero f (op ∷ r) rest e = cc
read_loop-Reads (suc fuel) f (op ∷ r) rest e =
    read_step-Reads fuel f op r rest (read_opcode f op r) (opcode-Says f op r)
      (λ r'. read_loop-Reads fuel f r' rest) e

-- Each round reads a byte: as many rounds as there are bytes are enough.
step-Returns :
    (fuel : ℕ) (f : Features) (op : ℕ) (r : List ℕ) (step : Step)
    → Says op r step
    → ((r' : List ℕ) → length r' ≤ length r → Returns (read_loop fuel f r'))
    → Returns (elim step [
      | continue r' ↦ read_loop fuel f r'
      | complete r' ↦ Outcome.ok (ok r')
      | refuse e ↦ Outcome.ok (err e)
    ])
step-Returns fuel f op r (continue r') (imm, read) each =
    each r' (omega (arith, length-append imm r', ap length read.parts))
step-Returns fuel f op r (complete r') says each = tt
step-Returns fuel f op r (refuse x) says each = tt

read_loop-Returns :
    (fuel : ℕ) (f : Features) (r : List ℕ) → length r ≤ fuel → Returns (read_loop fuel f r)
unfolding read_loop
read_loop-Returns fuel f [] h = ground arith
read_loop-Returns zero f (op ∷ r) h = absurd (omega arith)
read_loop-Returns (suc fuel) f (op ∷ r) h =
    step-Returns fuel f op r (read_opcode f op r) (opcode-Says f op r)
      (λ r' fits. read_loop-Returns fuel f r' (omega arith))

pub taken : (r d rest : List ℕ) → r ≡ d ++ rest → take (length r - length rest) r ≡ d
taken r d rest e =
    let n : length r - length rest ≡ length d = omega (arith, ap length e, length-append d rest) in
    rw (n, e) (take-append_length d rest)

expression_lem :
    (r code rest : List ℕ) (x : Outcome (Result Error (List ℕ)))
    → expression r x ≡ Outcome.ok (ok (code, rest))
    → (x ≡ Outcome.ok (ok rest)) × (take (length r - length rest) r ≡ code)
unfolding expression
expression_lem r code rest (Outcome.ok (ok rest')) e =
    let same : rest' ≡ rest = cc in
    let part : take (length r - length rest') r ≡ code = cc in
    (ap (λ l. Outcome.ok (ok l)) same, rw same at part)
expression_lem r code rest (Outcome.ok (err x)) e = cc
expression_lem r code rest panic e = cc
expression_lem r code rest stuck e = cc

pub decode-Walk :
    (f : Features) (r code rest : List ℕ)
    → decode_constant_expression f r ≡ Outcome.ok (ok (code, rest))
    → (r ≡ code ++ rest) × Walk code
unfolding decode_constant_expression Reads
decode-Walk f r code rest e =
    let (ends, part) = expression_lem r code rest (read_loop (length r) f r) e in
    let (d, whole, walk) = read_loop-Reads (length r) f r rest ends in
    let same : d ≡ code = sym (taken r d rest whole) ∙ part in
    (whole ∙ ap (λ l. l ++ rest) same, subst Walk same walk)

expression-Returns :
    (r : List ℕ) (x : Outcome (Result Error (List ℕ))) → Returns x → Returns (expression r x)
unfolding expression
expression-Returns r (Outcome.ok (ok rest)) h = tt
expression-Returns r (Outcome.ok (err e)) h = tt
expression-Returns r panic h = h
expression-Returns r stuck h = h

pub decode-Returns : (f : Features) (r : List ℕ) → Returns (decode_constant_expression f r)
unfolding decode_constant_expression
decode-Returns f r =
    expression-Returns r (read_loop (length r) f r) (read_loop-Returns (length r) f r (omega arith))
