-- ===== src/ConstExpr/Cases.antt =====
-- Each case of the evaluator on a well-formed immediate: no panic, and the stacks stay level.
use andsifr.Common.{
  ℕ, ◌+◌, ◌*◌, ◌%◌, ◌^◌, ◌≡◌, refl, sym, ap, ◌∙◌, inl, inr, true, false, not, ◌||◌, List, [], ◌∷◌,
  ◌++◌, ltb, ◌==◌, if◌then◌else◌, length, drop, Bool-cases, length-append, drop-append_length,
  length-reverse, arith,
}
use andsifr.Common.Bits.Masks.{or_shifted}
use andsifr.Common.Outcome.{Outcome, panic, stuck}
use andsifr.Common.Result.{Result}
use andsifr.Leb128.{Decoded, load_uint32, load_int32, load_int64}
use andsifr.Leb128
use andsifr.ConstExpr.Machine.{
  type_v128, concrete_ref, Error, Run, go, ◌>>=◌, immediate, resolved, State, Progress, i32_const,
  i64_const, f32_const, f64_const, ref_null_type, ref_null, vec_const, top_two, operate, binary,
  end_case, read_failed, invalid_ref_type,
}
use andsifr.ConstExpr.Evaluate.{global_get, ref_func}
use andsifr.ConstExpr.Walk.{width, widths, After, Next, Ends}

pub immediate_lem :
    {X : Type 0} (wrap : Leb128.Error → Error X) (d : Decoded) (v : ℕ) (imm next : List ℕ)
    → d ≡ Result.ok (v, length imm)
    → immediate wrap d (imm ++ next) ≡ go (v, next)
unfolding immediate
immediate_lem wrap d v imm next e = rw (e, drop-append_length imm next)

-- A state by its parts.
abbrev pub at : List ℕ → List ℕ → List ℕ → State
at rest stack types = record { rest = rest; stack = stack; types = types }

pub drop_imm : (n : ℕ) (imm next : List ℕ) → length imm ≡ n → drop n (imm ++ next) ≡ next
drop_imm n imm next e = ap (λ k. drop k (imm ++ next)) (sym e) ∙ drop-append_length imm next

pub enough : (n : ℕ) (imm next : List ℕ) → length imm ≡ n → ltb (length (imm ++ next)) n ≡ false
enough n imm next e = ground (arith, length-append imm next)

width-concrete_ref : (v : ℕ) → width (concrete_ref v true) ≡ 1
unfolding concrete_ref
width-concrete_ref v =
    let index : v * 2 ^ 32 % 2 ^ 64 ≡ v % 2 ^ 32 * 2 ^ 32 = omega arith in
    let sum : concrete_ref v true ≡ 0x270 + v % 2 ^ 32 * 2 ^ 32 =
      rw (concrete_ref, index) (or_shifted 32 0x270 (v % 2 ^ 32) (omega arith)) in
    rw sum (ground arith)

module _ (X : Type 0) (stack types imm next : List ℕ) (level : length stack ≡ widths types) where
  pub i32_const-After :
      (v : ℕ)
      → load_int32 (imm ++ next) ≡ Result.ok (v, length imm)
      → After {X = X} (Next next) Ends (i32_const (at (imm ++ next) stack types))
  unfolding i32_const
  i32_const-After v e =
      rw (immediate_lem {X = X} read_failed (load_int32 (imm ++ next)) v imm next e)
        (refl, record { level = omega (arith, level) })

  pub i64_const-After :
      (v : ℕ)
      → load_int64 (imm ++ next) ≡ Result.ok (v, length imm)
      → After {X = X} (Next next) Ends (i64_const (at (imm ++ next) stack types))
  unfolding i64_const
  i64_const-After v e =
      rw (immediate_lem {X = X} read_failed (load_int64 (imm ++ next)) v imm next e)
        (refl, record { level = omega (arith, level) })

  pub f32_const-After :
      length imm ≡ 4 → After {X = X} (Next next) Ends (f32_const (at (imm ++ next) stack types))
  unfolding f32_const
  f32_const-After e =
      rw (enough 4 imm next e) (drop_imm 4 imm next e, record { level = omega (arith, level) })

  pub f64_const-After :
      length imm ≡ 8 → After {X = X} (Next next) Ends (f64_const (at (imm ++ next) stack types))
  unfolding f64_const
  f64_const-After e =
      rw (enough 8 imm next e) (drop_imm 8 imm next e, record { level = omega (arith, level) })

  pub null_abstract-After :
      (b : ℕ)
      → imm ≡ b ∷ []
      → (b == 0x70 || (b == 0x6f || b == 0x69)) ≡ true
      → After {X = X} (Next next) Ends (ref_null (at (imm ++ next) stack types))
  unfolding ref_null ref_null_type
  null_abstract-After b e h =
      let narrow : width b ≡ 1 = ground arith in
      rw (e, h) (refl, record { level = omega (arith, level, narrow) })

  pub null_concrete-After :
      (b v : ℕ) (r : List ℕ)
      → imm ≡ b ∷ r
      → (b == 0x70 || (b == 0x6f || b == 0x69)) ≡ false
      → load_uint32 (imm ++ next) ≡ Result.ok (v, length imm)
      → After {X = X} (Next next) Ends (ref_null (at (imm ++ next) stack types))
  unfolding ref_null ref_null_type
  null_concrete-After b v r e h l =
      let l' : load_uint32 (b ∷ (r ++ next)) ≡ Result.ok (v, length (b ∷ r)) = rw e at l in
      let narrow : width (concrete_ref v true) ≡ 1 = width-concrete_ref v in
      rw
        (
          e,
          h,
          immediate_lem {X = X} (λ x. invalid_ref_type b) (load_uint32 (b ∷ (r ++ next))) v (b ∷ r)
              next l',
        )
        (refl, record { level = omega (arith, level, narrow) })

  pub vector-After :
      (r : List ℕ)
      → imm ≡ 0x0c ∷ r
      → length r ≡ 16
      → After {X = X} (Next next) Ends (vec_const (imm ++ next) (at (imm ++ next) stack types))
  unfolding vec_const
  vector-After r e l =
      rw (e, enough 16 r next l) (drop_imm 16 r next l, record { level = omega (arith, level) })

module _ (X : Type 0) (rest next : List ℕ) (here : rest ≡ next) where
  operate-After :
      (type : ℕ) (f : ℕ → ℕ → ℕ) (stack ts all : List ℕ)
      → width type ≡ 1
      → length stack ≡ 2 + widths ts
      → After {X = X} (Next next) Ends (operate type f (at rest stack all) ts (top_two stack))
  unfolding top_two
  operate-After type f [] ts all one level = absurd (omega arith)
  operate-After type f (b ∷ []) ts all one level = absurd (omega arith)
  operate-After type f (b ∷ (a ∷ l)) ts all one level =
      (here, record { level = omega (arith, level, one) })

  pub binary-After :
      (op type : ℕ) (f : ℕ → ℕ → ℕ) (stack types : List ℕ)
      → width type ≡ 1
      → length stack ≡ widths types
      → After {X = X} (Next next) Ends (binary op type f (at rest stack types) types)
  unfolding binary
  binary-After op type f stack [] one level = tt
  binary-After op type f stack (v1 ∷ []) one level = tt
  binary-After op type f stack (v1 ∷ (v2 ∷ ts)) one level =
      elim (Bool-cases (not (v1 == type) || not (v2 == type))) [
        | inl differ ↦ rw differ tt
        | inr same ↦
            let first : v1 ≡ type = ground arith in
            let second : v2 ≡ type = ground arith in
            let high : length stack ≡ 2 + widths ts =
              omega (arith, level, one, ap width first, ap width second) in
            rw same (operate-After type f stack ts (v1 ∷ (v2 ∷ ts)) one high)
      ]

  pub end-After :
      (stack types : List ℕ)
      → length stack ≡ widths types
      → After {X = X} (λ s. ⊥) Ends (end_case (at rest stack types) types)
  unfolding end_case
  end-After stack [] level = tt
  end-After stack (t ∷ []) level = length-reverse stack ∙ level ∙ omega arith
  end-After stack (t ∷ (u ∷ types)) level = tt

-- Resolvers that return, with a value or an error.
abbrev pub Returns : {X A : Type 0} → Outcome (Result X A) → Type 0
Returns (Outcome.ok r) = Unit {0}
Returns panic = ⊥
Returns stuck = ⊥

resolved-After :
    {X A : Type 0} (Q : State → Type 0) (R : List ℕ → ℕ → Type 0) (r : Outcome (Result X A))
    (f : A → Run X Progress)
    → Returns r
    → ((a : A) → After Q R (f a))
    → After Q R (resolved r >>= f)
unfolding resolved
resolved-After Q R (Outcome.ok (Result.ok a)) f total each = each a
resolved-After Q R (Outcome.ok (Result.err x)) f total each = tt
resolved-After Q R panic f total each = total
resolved-After Q R stuck f total each = total

length-global :
    (type lo hi : ℕ) (stack : List ℕ)
    → length ((if type == type_v128 then hi ∷ lo ∷ [] else lo ∷ []) ++ stack)
      ≡ width type + length stack
length-global type lo hi stack = elim (Bool-cases (type == type_v128)) [
  | inl wide ↦ rw wide (omega arith)
  | inr narrow ↦ rw narrow (omega arith)
]

module _ {X : Type 0} (global : ℕ → Outcome (Result X (ℕ × ℕ × ℕ)))
    (func_ref : ℕ → Outcome (Result X ℕ)) (v : ℕ) (stack types imm next : List ℕ)
    (level : length stack ≡ widths types)
    (e : load_uint32 (imm ++ next) ≡ Result.ok (v, length imm)) where
  pub global-After :
      ((i : ℕ) → Returns (global i))
      → After (Next next) Ends (global_get global func_ref (at (imm ++ next) stack types))
  unfolding global_get
  global-After total =
      rw (immediate_lem {X = X} read_failed (load_uint32 (imm ++ next)) v imm next e) (
        resolved-After (Next next) Ends (global v) _ (total v)
          (λ r. (refl, record { level = length-global r.0 r.1 r.2 stack ∙ omega (arith, level) })))

  pub func-After :
      ((i : ℕ) → Returns (func_ref i))
      → After (Next next) Ends (ref_func global func_ref (at (imm ++ next) stack types))
  unfolding ref_func
  func-After total =
      rw (immediate_lem {X = X} read_failed (load_uint32 (imm ++ next)) v imm next e) (
        resolved-After (Next next) Ends (func_ref v) _ (total v)
          (λ r. (refl, record { level = omega (arith, level) })))
