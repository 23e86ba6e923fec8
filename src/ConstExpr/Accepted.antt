-- ===== src/ConstExpr/Accepted.antt =====
-- The decoder of constant expressions and their evaluator together.
use andsifr.Common.{ℕ, ◌≡◌, List, ◌++◌, refl}
use andsifr.Common.Outcome.{Outcome, ok, panic, stuck}
use andsifr.Common.Result.{Result}
use andsifr.ConstExpr.Cases.{Returns}
use andsifr.ConstExpr.Decode.{Features, Error, decode_constant_expression}
use andsifr.ConstExpr.Evaluate.{evaluate}
use andsifr.ConstExpr.Reading.{decode-Walk, decode-Returns}
use andsifr.ConstExpr.Safety.{IsSettled, evaluate-IsSettled}

-- An expression that the decoder accepts is the front of its input, and the evaluator does not
-- panic on it: with resolvers that return, it returns an error, or as many words of the stack as
-- the type that it names takes, two for a v128 and one for any other.
pub decode-evaluate :
    {X : Type 0} (f : Features) (r code rest : List ℕ) (global : ℕ → Outcome (Result X (ℕ × ℕ × ℕ)))
    (func_ref : ℕ → Outcome (Result X ℕ))
    → decode_constant_expression f r ≡ ok (Result.ok (code, rest))
    → ((i : ℕ) → Returns (global i))
    → ((i : ℕ) → Returns (func_ref i))
    → (r ≡ code ++ rest) × IsSettled (evaluate global func_ref code)
decode-evaluate f r code rest global func_ref e globals funcs =
    let (front, walk) = decode-Walk f r code rest e in
    (front, evaluate-IsSettled global func_ref globals funcs code walk)

Returns-ok :
    (x : Outcome (Result Error (List ℕ × List ℕ)))
    → Returns x
    → (result : Result Error (List ℕ × List ℕ)) × (x ≡ ok result)
Returns-ok (ok result) h = (result, refl)
Returns-ok panic h = absurd h
Returns-ok stuck h = absurd h

-- The decoder returns on any bytes, with an expression or an error.
pub decode_returns :
    (f : Features) (r : List ℕ)
    → (result : Result Error (List ℕ × List ℕ)) × (decode_constant_expression f r ≡ ok result)
decode_returns f r = Returns-ok (decode_constant_expression f r) (decode-Returns f r)
