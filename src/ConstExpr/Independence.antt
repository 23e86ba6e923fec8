-- ===== src/ConstExpr/Independence.antt =====
-- Expressions that the scan finds free of global.get do not depend on the resolvers.
use andsifr.Common.{
  ℕ, zero, suc, ◌≡◌, ◌≢◌, refl, ◌∙◌, inl, inr, Bool, true, false, not, ◌||◌, List, [], ◌∷◌, ◌==◌,
  length, Bool-cases, arith,
}
use andsifr.Common.Outcome.{Outcome, panic, stuck}
use andsifr.Common.Result.{Result}
use andsifr.Leb128.{Decoded, load_uint32, load_int32, load_int64}
use andsifr.Leb128
use andsifr.ConstExpr.Machine.{
  type_i32, type_i64, Error, Run, go, ◌>>=◌, immediate, State, Progress, more, finished, push,
  i32_const, i64_const, top_two, operate, binary, i32_add, i32_sub, i32_mul, i64_add, i64_sub,
  i64_mul, end_case, read_failed,
}
use andsifr.ConstExpr.Evaluate.{dispatch, round, loop, evaluate}
use andsifr.ConstExpr.Safety.{one_of_three}
use andsifr.ConstExpr.{Verdict, answer, go_on, skip_immediate, scan_opcode, scan, references_global}

-- The case stands where the scan goes on.
abbrev Follows : {X : Type 0} → Verdict → Run X Progress → Type 0
Follows v (Outcome.ok (Result.ok (more s))) = v ≡ go_on s.rest
Follows v (Outcome.ok (Result.ok (finished values t))) = Unit {0}
Follows v (Outcome.ok (Result.err e)) = Unit {0}
Follows v panic = Unit {0}
Follows v stuck = Unit {0}

immediate-Follows :
    {X : Type 0} (wrap : Leb128.Error → Error X) (d : Decoded) (rest : List ℕ) (s : State) (t : ℕ)
    → Follows
        (skip_immediate d rest)
        (do (v, rest') ← immediate {X = X} wrap d rest; go (push s rest' (v ∷ []) t))
unfolding skip_immediate immediate
immediate-Follows wrap (Result.ok (v, n)) rest s t = refl
immediate-Follows wrap (Result.err e) rest s t = tt

module _ (X : Type 0) (s : State) where
  operate-Follows :
      (type : ℕ) (f : ℕ → ℕ → ℕ) (ts : List ℕ) (top : Outcome (ℕ × ℕ × List ℕ))
      → Follows {X = X} (go_on s.rest) (operate type f s ts top)
  operate-Follows type f ts (Outcome.ok (b, a, l)) = refl
  operate-Follows type f ts panic = tt
  operate-Follows type f ts stuck = tt

  binary-Follows :
      (op type : ℕ) (f : ℕ → ℕ → ℕ) (types : List ℕ)
      → Follows {X = X} (go_on s.rest) (binary op type f s types)
  unfolding binary
  binary-Follows op type f [] = tt
  binary-Follows op type f (v1 ∷ []) = tt
  binary-Follows op type f (v1 ∷ (v2 ∷ ts)) =
      elim (Bool-cases (not (v1 == type) || not (v2 == type))) [
        | inl differ ↦ rw differ tt
        | inr same ↦ rw same (operate-Follows type f ts (top_two s.stack))
      ]

  end-Follows : (v : Verdict) (types : List ℕ) → Follows {X = X} v (end_case s types)
  unfolding end_case
  end-Follows v [] = tt
  end-Follows v (t ∷ []) = tt
  end-Follows v (t ∷ (u ∷ types)) = tt

module _ {X : Type 0} (g1 g2 : ℕ → Outcome (Result X (ℕ × ℕ × ℕ)))
    (f1 f2 : ℕ → Outcome (Result X ℕ)) (s : State) where
  -- Two dispatches that come to the same, of which the scan knows the way.
  abbrev Agrees : Verdict → ℕ → Type 0
  Agrees v op = (dispatch g1 f1 op s ≡ dispatch g2 f2 op s) × Follows v (dispatch g1 f1 op s)

  arithmetic-Agrees :
      (op : ℕ)
      → ((op == 0x6a || (op == 0x6b || op == 0x6c)) || (op == 0x7c || (op == 0x7d || op == 0x7e)))
        ≡ true
      → Agrees (go_on s.rest) op
  unfolding dispatch i32_add i32_sub i32_mul i64_add i64_sub i64_mul
  arithmetic-Agrees op h = elim (Bool-cases (op == 0x6a || (op == 0x6b || op == 0x6c))) [
    | inl k ↦ elim (one_of_three op 0x6a 0x6b 0x6c k) [
      | inl e ↦ rw e (refl, binary-Follows X s 0x6a type_i32 _ s.types)
      | inr (inl e) ↦ rw e (refl, binary-Follows X s 0x6b type_i32 _ s.types)
      | inr (inr e) ↦ rw e (refl, binary-Follows X s 0x6c type_i32 _ s.types)
    ]
    | inr k ↦ elim (one_of_three op 0x7c 0x7d 0x7e (rw k at h)) [
      | inl e ↦ rw e (refl, binary-Follows X s 0x7c type_i64 _ s.types)
      | inr (inl e) ↦ rw e (refl, binary-Follows X s 0x7d type_i64 _ s.types)
      | inr (inr e) ↦ rw e (refl, binary-Follows X s 0x7e type_i64 _ s.types)
    ]
  ]

  opcode-Agrees : (op : ℕ) → scan_opcode op s.rest ≢ answer true → Agrees (scan_opcode op s.rest) op
  unfolding scan_opcode dispatch i32_const i64_const
  opcode-Agrees op free = elim (Bool-cases (op == 0x23)) [
    | inl h ↦ absurd (free (rw h refl))
    | inr h1 ↦ elim (Bool-cases (op == 0x0b)) [
      | inl h ↦
          let e : op ≡ 0x0b = ground arith in rw e (refl, end-Follows X s (answer false) s.types)
      | inr h2 ↦ elim (Bool-cases (op == 0x41)) [
        | inl h ↦
            let e : op ≡ 0x41 = ground arith in
            rw e (refl, immediate-Follows read_failed (load_int32 s.rest) s.rest s type_i32)
        | inr h3 ↦ elim (Bool-cases (op == 0x42)) [
          | inl h ↦
              let e : op ≡ 0x42 = ground arith in
              rw e (refl, immediate-Follows read_failed (load_int64 s.rest) s.rest s type_i64)
          | inr h4 ↦
              elim (Bool-cases (
                (op == 0x6a || (op == 0x6b || op == 0x6c))
                || (op == 0x7c || (op == 0x7d || op == 0x7e)))) [
                  | inl h ↦
                      let on : scan_opcode op s.rest ≡ go_on s.rest = rw (h1, h2, h3, h4, h) refl in
                      rw on (arithmetic-Agrees op h)
                  | inr h ↦ absurd (free (rw (h1, h2, h3, h4, h) refl))
                ]
        ]
      ]
    ]
  ]

-- The two runs behind a dispatch.
follow :
    {X : Type 0} (fuel : ℕ) (v : Verdict) (r : Run X Progress)
    (next1 next2 : State → Run X (List ℕ × ℕ))
    → Follows v r
    → ((s' : State) → v ≡ go_on s'.rest → next1 s' ≡ next2 s')
    → (r >>= λ p. elim p [ more s' ↦ next1 s' | finished values type ↦ go (values, type) ])
      ≡ (r >>= λ p. elim p [ more s' ↦ next2 s' | finished values type ↦ go (values, type) ])
follow fuel v (Outcome.ok (Result.ok (more s))) next1 next2 h each = each s h
follow fuel v (Outcome.ok (Result.ok (finished values t))) next1 next2 h each = refl
follow fuel v (Outcome.ok (Result.err e)) next1 next2 h each = refl
follow fuel v panic next1 next2 h each = refl
follow fuel v stuck next1 next2 h each = refl

-- A scan that answers false had an opcode that does not answer true, and went on the same way.
scan_inner :
    (n op : ℕ) (rest : List ℕ)
    → scan (suc n) (op ∷ rest) ≡ Outcome.ok false
    → (scan_opcode op rest ≢ answer true)
      × ((rest' : List ℕ) → scan_opcode op rest ≡ go_on rest' → scan n rest' ≡ Outcome.ok false)
unfolding scan
scan_inner n op rest e = (
  λ h.
      (let k : ◌≡◌ {A = Outcome Bool} (Outcome.ok true) (Outcome.ok false) = rw (h, scan) at e in
        cc),
  λ rest' h. rw (h, scan) at e,
)

module _ {X : Type 0} (g1 g2 : ℕ → Outcome (Result X (ℕ × ℕ × ℕ)))
    (f1 f2 : ℕ → Outcome (Result X ℕ)) where
  loop_free :
      (fuel n : ℕ) (code : List ℕ) (s : State)
      → s.rest ≡ code
      → scan n code ≡ Outcome.ok false
      → loop g1 f1 fuel s ≡ loop g2 f2 fuel s
  unfolding loop round scan
  loop_free zero n code s here e = refl
  loop_free (suc fuel) n [] s here e = rw here refl
  loop_free (suc fuel) zero (op ∷ r) s here e = cc
  loop_free (suc fuel) (suc n) (op ∷ r) s here e =
      let (free, on) = scan_inner n op r e in
      let (same, follows) = opcode-Agrees g1 g2 f1 f2 (record s { rest = r }) op free in
      rw here (
        follow fuel (scan_opcode op r) (dispatch g1 f1 op (record s { rest = r })) (loop g1 f1 fuel)
          (loop g2 f2 fuel) follows (λ s' k. loop_free fuel n s'.rest s' refl (on s'.rest k))
        ∙ rw same refl)

  -- An expression of which constExprReferencesGlobal answers false evaluates to the same whatever
  -- the resolvers of globals and functions are.
  pub references_global-evaluate :
      (code : List ℕ)
      → references_global code ≡ Outcome.ok false
      → evaluate g1 f1 code ≡ evaluate g2 f2 code
  unfolding references_global evaluate
  references_global-evaluate code e = loop_free (suc (length code)) (length code) code _ refl e
