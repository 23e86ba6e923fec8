-- ===== src/ConstExpr/Termination.antt =====
-- evaluateConstExpr ends on any bytes.
use andsifr.Common.{
  ℕ, zero, suc, ◌≤◌, ◌<◌, ◌≡◌, ◌≢◌, refl, inl, inr, Bool, true, false, not, ◌||◌, List, [], ◌∷◌,
  ltb, ◌==◌, if◌then◌else◌, length, drop, Bool-cases, length-drop, arith,
}
use andsifr.Common.Outcome.{Outcome, panic, stuck}
use andsifr.Common.Result.{Result}
use andsifr.Leb128.{Decoded, load_uint32, load_int32, load_int64}
use andsifr.Leb128
use andsifr.ConstExpr.Machine.{
  type_i32, type_i64, type_f32, type_f64, uint_at, concrete_ref, Error, Run, go, fail, ◌>>=◌,
  immediate, resolved, State, Progress, more, finished, push, i32_const, i64_const, f32_const,
  f64_const, ref_null_type, ref_null, vec_const, top_two, operate, binary, i32_add, i32_sub,
  i32_mul, i64_add, i64_sub, i64_mul, end_case, read_failed, invalid_ref_type,
}
use andsifr.ConstExpr.Evaluate.{global_get, ref_func, dispatch, round, loop, evaluate}

-- A round that ends leaves no more than `n` bytes.
abbrev Falls : {X : Type 0} → ℕ → Run X Progress → Type 0
Falls n (Outcome.ok (Result.ok (more s))) = length s.rest ≤ n
Falls n (Outcome.ok (Result.ok (finished values t))) = Unit {0}
Falls n (Outcome.ok (Result.err e)) = Unit {0}
Falls n panic = Unit {0}
Falls n stuck = ⊥

drop_le : (n : ℕ) (xs : List ℕ) → length (drop n xs) ≤ length xs
drop_le n xs = omega (arith, length-drop n xs)

immediate-Falls :
    {X : Type 0} (m : ℕ) (wrap : Leb128.Error → Error X) (d : Decoded) (rest : List ℕ)
    (f : ℕ × List ℕ → Run X Progress)
    → ((v : ℕ) (rest' : List ℕ) → length rest' ≤ length rest → Falls m (f (v, rest')))
    → Falls m (immediate {X = X} wrap d rest >>= f)
unfolding immediate
immediate-Falls m wrap (Result.ok (v, n)) rest f each = each v (drop n rest) (drop_le n rest)
immediate-Falls m wrap (Result.err e) rest f each = tt

resolved-Falls :
    {X A : Type 0} (m : ℕ) (r : Outcome (Result X A)) (f : A → Run X Progress)
    → r ≢ stuck
    → ((a : A) → Falls m (f a))
    → Falls m (resolved r >>= f)
unfolding resolved
resolved-Falls m (Outcome.ok (Result.ok a)) f total each = each a
resolved-Falls m (Outcome.ok (Result.err x)) f total each = tt
resolved-Falls m panic f total each = tt
resolved-Falls m stuck f total each = total refl

module _ (X : Type 0) (s : State) where
  bytes-Falls :
      (n : ℕ) (b : Bool) (e : Error X) (values : List ℕ) (t : ℕ)
      → Falls (length s.rest) (if b then fail e else go (push s (drop n s.rest) values t))
  bytes-Falls n true e values t = tt
  bytes-Falls n false e values t = drop_le n s.rest

  concrete-Falls :
      (b : ℕ) (d : Decoded) (r : List ℕ)
      → Falls {X = X} (length r) (do
        (t, rest) ← (do
          (index, rest) ← immediate {X = X} (λ e. invalid_ref_type b) d r
          go (concrete_ref index true, rest))
        go (push s rest (0 ∷ []) t))
  unfolding immediate
  concrete-Falls b (Result.ok (v, n)) r = drop_le n r
  concrete-Falls b (Result.err e) r = tt

  ref_null-Falls : (r : List ℕ) → s.rest ≡ r → Falls {X = X} (length s.rest) (ref_null s)
  unfolding ref_null ref_null_type
  ref_null-Falls [] here = rw here tt
  ref_null-Falls (b ∷ r) here = elim (Bool-cases (b == 0x70 || (b == 0x6f || b == 0x69))) [
    | inl same ↦ rw (here, same) (omega arith)
    | inr differ ↦ rw (here, differ) (concrete-Falls b (load_uint32 (b ∷ r)) (b ∷ r))
  ]

  vector-Falls : (r : List ℕ) → s.rest ≡ r → Falls {X = X} (length s.rest) (vec_const r s)
  unfolding vec_const
  vector-Falls [] here = tt
  vector-Falls (b ∷ r) here = elim (Bool-cases (not (b == 0x0c))) [
    | inl other ↦ rw other tt
    | inr const ↦ rw const (elim (Bool-cases (ltb (length r) 16)) [
      | inl short ↦ rw short tt
      | inr enough ↦ rw (enough, here) (omega (arith, drop_le 16 r))
    ])
  ]

  operate-Falls :
      (type : ℕ) (f : ℕ → ℕ → ℕ) (ts : List ℕ) (stack : List ℕ)
      → Falls {X = X} (length s.rest) (operate type f s ts (top_two stack))
  unfolding top_two
  operate-Falls type f ts [] = tt
  operate-Falls type f ts (b ∷ []) = tt
  operate-Falls type f ts (b ∷ (a ∷ l)) = omega arith

  binary-Falls :
      (op type : ℕ) (f : ℕ → ℕ → ℕ) (types : List ℕ)
      → Falls {X = X} (length s.rest) (binary op type f s types)
  unfolding binary
  binary-Falls op type f [] = tt
  binary-Falls op type f (v1 ∷ []) = tt
  binary-Falls op type f (v1 ∷ (v2 ∷ ts)) =
      elim (Bool-cases (not (v1 == type) || not (v2 == type))) [
        | inl differ ↦ rw differ tt
        | inr same ↦ rw same (operate-Falls type f ts s.stack)
      ]

  end-Falls : (n : ℕ) (types : List ℕ) → Falls {X = X} n (end_case s types)
  unfolding end_case
  end-Falls n [] = tt
  end-Falls n (t ∷ []) = tt
  end-Falls n (t ∷ (u ∷ types)) = tt

  branch-Falls :
      (n : ℕ) (b : Bool) (x y : Run X Progress)
      → Falls n x
      → Falls n y
      → Falls n (if b then x else y)
  branch-Falls n true x y h k = h
  branch-Falls n false x y h k = k

module _ {X : Type 0} (global : ℕ → Outcome (Result X (ℕ × ℕ × ℕ)))
    (func_ref : ℕ → Outcome (Result X ℕ)) (globals : (i : ℕ) → global i ≢ stuck)
    (funcs : (i : ℕ) → func_ref i ≢ stuck) where
  dispatch-Falls : (op : ℕ) (s : State) → Falls (length s.rest) (dispatch global func_ref op s)
  unfolding dispatch i32_const i64_const f32_const f64_const global_get ref_func i32_add i32_sub
      i32_mul i64_add i64_sub i64_mul
  dispatch-Falls op s =
      let n : ℕ = length s.rest in
      branch-Falls X s n (op == 0x41) _ _
        (immediate-Falls n read_failed (load_int32 s.rest) s.rest _ (λ v r h. h))
        (branch-Falls X s n (op == 0x42) _ _
          (immediate-Falls n read_failed (load_int64 s.rest) s.rest _ (λ v r h. h))
          (branch-Falls X s n (op == 0x43) _ _
            (bytes-Falls X s 4 _ _ (uint_at 4 0 s.rest ∷ []) type_f32)
            (branch-Falls X s n (op == 0x44) _ _
              (bytes-Falls X s 8 _ _ (uint_at 8 0 s.rest ∷ []) type_f64)
              (branch-Falls X s n (op == 0x23) _ _
                (immediate-Falls n read_failed (load_uint32 s.rest) s.rest _
                  (λ v r h. resolved-Falls n (global v) _ (globals v) (λ a. h)))
                (branch-Falls X s n (op == 0xd0) _ _ (ref_null-Falls X s s.rest refl) (
                  branch-Falls X s n (op == 0xd2) _ _
                    (immediate-Falls n read_failed (load_uint32 s.rest) s.rest _
                      (λ v r h. resolved-Falls n (func_ref v) _ (funcs v) (λ a. h)))
                    (branch-Falls X s n (op == 0xfd) _ _ (vector-Falls X s s.rest refl) (
                      branch-Falls X s n (op == 0x6a) _ _ (binary-Falls X s 0x6a type_i32 _ s.types)
                        (branch-Falls X s n (op == 0x6b) _ _
                          (binary-Falls X s 0x6b type_i32 _ s.types)
                          (branch-Falls X s n (op == 0x6c) _ _
                            (binary-Falls X s 0x6c type_i32 _ s.types)
                            (branch-Falls X s n (op == 0x7c) _ _
                              (binary-Falls X s 0x7c type_i64 _ s.types)
                              (branch-Falls X s n (op == 0x7d) _ _
                                (binary-Falls X s 0x7d type_i64 _ s.types)
                                (branch-Falls X s n (op == 0x7e) _ _
                                  (binary-Falls X s 0x7e type_i64 _ s.types)
                                  (branch-Falls X s n (op == 0x0b) _ _ (end-Falls X s n s.types)
                                    tt))))))))))))))

  settles :
      (fuel n : ℕ) (r : Run X Progress)
      → Falls n r
      → ((s : State) → length s.rest ≤ n → loop global func_ref fuel s ≢ stuck)
      → (r >>= λ p. elim p [
        | more s' ↦ loop global func_ref fuel s'
        | finished values type ↦ go (values, type)
      ])
        ≢ stuck
  settles fuel n (Outcome.ok (Result.ok (more s))) falls each = each s falls
  settles fuel n (Outcome.ok (Result.ok (finished v t))) falls each = λ e. cc
  settles fuel n (Outcome.ok (Result.err e)) falls each = λ e'. cc
  settles fuel n panic falls each = λ e. cc
  settles fuel n stuck falls each = λ e. falls

  loop_ends :
      (fuel : ℕ) (code : List ℕ) (s : State)
      → s.rest ≡ code
      → length code < fuel
      → loop global func_ref fuel s ≢ stuck
  unfolding loop round
  loop_ends zero code s here h = absurd (omega arith)
  loop_ends (suc fuel) [] s here h = rw here (λ e. cc)
  loop_ends (suc fuel) (op ∷ r) s here h = rw here (
      settles fuel (length r) (dispatch global func_ref op (record s { rest = r }))
        (dispatch-Falls op (record s { rest = r }))
        (λ s' fits. loop_ends fuel s'.rest s' refl (omega arith)))

  -- With resolvers that end, evaluateConstExpr ends on any bytes, well-formed or not.
  pub evaluate_ends : (code : List ℕ) → evaluate global func_ref code ≢ stuck
  unfolding evaluate
  evaluate_ends code = loop_ends (suc (length code)) code _ refl (omega arith)
