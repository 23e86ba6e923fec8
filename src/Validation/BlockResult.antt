-- ===== src/Validation/BlockResult.antt =====
-- What DecodeBlockType returns.
use andsifr.Common.{
  ℕ, ◌%◌, ◌^◌, ◌<◌, ◌≡◌, ◌⊎◌, refl, inl, inr, Bool, true, false, not, ◌||◌, List, [], ◌∷◌, leb,
  ◌==◌, if◌then◌else◌, length, get_or, arith,
}
use andsifr.Common.Result.{Result, ok, err}
use andsifr.Leb128.{Decoded, decode_int33_as_int64}
use andsifr.ConstExpr.Walk.{widths}
use andsifr.ConstExpr.Machine.{
  type_i32, type_i64, type_f32, type_f64, type_v128, type_funcref, type_externref, type_exnref,
  concrete_ref,
}
use andsifr.Validation.Types.{as_non_nullable}
use andsifr.Validation.Forms.{
  Form, number, reference, func, extern, exn, index, IsForm, word, concrete_sum,
}
use andsifr.Validation.BlockType.{
  FunctionType, BlockError, negative, no_result, one_result, abstract_ref, block_ref, block_index,
  block_type, decode_block_type,
}

-- A form whose type index, where it has one, is of the module.
abbrev pub InModule : List FunctionType → Form → Type 0
InModule types (number b) = Unit {0}
InModule types (reference func n) = Unit {0}
InModule types (reference extern n) = Unit {0}
InModule types (reference exn n) = Unit {0}
InModule types (reference (index i) n) = i < length types

-- No parameters, and one result that is the word of a form of the module.
pub record IsResult (types : List FunctionType) (t : FunctionType) : Type 0 where
  pub form : Form
  pub right : IsForm form
  pub known : InModule types form
  pub value : t.results ≡ word form ∷ []
  pub none_taken : t.params ≡ []
  pub size : t.result_num_in_uint64 ≡ widths t.results

abbrev pub IsBlock : List FunctionType → Bool → Result BlockError (FunctionType × ℕ) → Type 0
IsBlock types multi_value (err e) = Unit {0}
IsBlock types multi_value (ok (t, num)) =
    (t ≡ no_result)
    ⊎ (IsResult types t
        ⊎ ((multi_value ≡ true) × ((i : ℕ) × (i < length types) × (t ≡ get_or types i no_result))))

branch :
    (types : List FunctionType) (m : Bool) (b : Bool) (x y : Result BlockError (FunctionType × ℕ))
    → (b ≡ true → IsBlock types m x)
    → (b ≡ false → IsBlock types m y)
    → IsBlock types m (if b then x else y)
branch types m true x y on off = on refl
branch types m false x y on off = off refl

one :
    (types : List FunctionType) (f : Form)
    → IsForm f
    → InModule types f
    → (t : FunctionType) → t.results ≡ word f ∷ []
    → t.params ≡ []
    → t.result_num_in_uint64 ≡ widths t.results
    → IsResult types t
one types f right known t value none_taken size = record {
  form = f;
  right = right;
  known = known;
  value = value;
  none_taken = none_taken;
  size = size;
}

abstract-IsResult :
    (types : List FunctionType) (n : Bool)
    → IsResult types (one_result (abstract_ref n type_exnref) 1)
      × IsResult types (one_result (abstract_ref n type_funcref) 1)
      × IsResult types (one_result (abstract_ref n type_externref) 1)
unfolding word as_non_nullable
abstract-IsResult types true = (
  one types (reference exn true) tt tt _ refl refl refl,
  one types (reference func true) tt tt _ refl refl refl,
  one types (reference extern true) tt tt _ refl refl refl,
)
abstract-IsResult types false = (
  one types (reference exn false) tt tt _ refl refl refl,
  one types (reference func false) tt tt _ refl refl refl,
  one types (reference extern false) tt tt _ refl refl refl,
)

number-IsResult :
    (types : List FunctionType) (b : ℕ)
    → IsForm (number b)
    → IsResult types (one_result b (widths (b ∷ [])))
unfolding word
number-IsResult types b h = one types (number b) h tt _ refl refl refl

concrete-IsResult :
    (types : List FunctionType) (n : Bool) (i : ℕ)
    → i < 2 ^ 32
    → i < length types
    → IsResult types (one_result (concrete_ref i n) 1)
unfolding word
concrete-IsResult types n i small h =
    let high : (concrete_ref i n == type_v128) ≡ false = ground (arith, concrete_sum i n small) in
    one types (reference (index i) n) small h _ refl refl (rw high refl)

ref-IsBlock :
    (types : List FunctionType) (m n : Bool) (num : ℕ) (d : Decoded)
    → IsBlock types m (block_ref types n num d)
unfolding block_ref word
ref-IsBlock types m n num (err e) = tt
ref-IsBlock types m n num (ok (ht, k)) =
    let (x, f, e) = abstract-IsResult types n in
    branch types m (ht == negative 23) _ _ (λ h. inr (inl x))
      (λ h.
        branch types m (ht == negative 16) _ _ (λ h. inr (inl f))
          (λ h.
            branch types m (ht == negative 17) _ _ (λ h. inr (inl e))
              (λ h.
                branch types m (leb (2 ^ 63) ht) _ _ (λ h. tt)
                  (λ h.
                    branch types m (leb (length types) ht) _ _ (λ h. tt)
                      (λ h. inr (
                        inl (
                          concrete-IsResult types n (ht % 2 ^ 32) (omega arith)
                            (let low : ht < length types = ground arith in omega arith))))))))

index-IsBlock :
    (types : List FunctionType) (m : Bool) (raw num : ℕ)
    → IsBlock types m (block_index types m raw num)
unfolding block_index
index-IsBlock types m raw num =
    branch types m (not m) _ _ (λ h. tt)
      (λ on.
        branch types m (leb (2 ^ 63) raw || leb (length types) raw) _ _ (λ h. tt)
          (λ h. inr (inr (ground arith, (raw, (ground arith), refl)))))

type-IsBlock :
    (types : List FunctionType) (m : Bool) (r : List ℕ) (d : Decoded)
    → IsBlock types m (block_type types m r d)
unfolding block_type
type-IsBlock types m r (err e) = tt
type-IsBlock types m r (ok (raw, num)) =
    let (x, f, e) = abstract-IsResult types true in
    branch types m (raw == negative 64) _ _ (λ h. inl refl)
      (λ h.
        branch types m (raw == negative 1) _ _
          (λ h. inr (inl (number-IsResult types type_i32 (omega arith, omega arith))))
          (λ h.
            branch types m (raw == negative 2) _ _
              (λ h. inr (inl (number-IsResult types type_i64 (omega arith, omega arith))))
              (λ h.
                branch types m (raw == negative 3) _ _
                  (λ h. inr (inl (number-IsResult types type_f32 (omega arith, omega arith))))
                  (λ h.
                    branch types m (raw == negative 4) _ _
                      (λ h. inr (inl (number-IsResult types type_f64 (omega arith, omega arith))))
                      (λ h.
                        branch types m (raw == negative 5) _ _
                          (λ h.
                            inr (inl (number-IsResult types type_v128 (omega arith, omega arith))))
                          (λ h.
                            branch types m (raw == negative 16) _ _ (λ h. inr (inl f))
                              (λ h.
                                branch types m (raw == negative 17) _ _ (λ h. inr (inl e))
                                  (λ h.
                                    branch types m (raw == negative 23) _ _ (λ h. inr (inl x))
                                      (λ h.
                                        branch types m (raw == negative 29) _ _
                                          (λ h. ref-IsBlock types m true num _)
                                          (λ h.
                                            branch types m (raw == negative 28) _ _
                                              (λ h. ref-IsBlock types m false num _)
                                              (λ h. index-IsBlock types m raw num)))))))))))

-- On any bytes DecodeBlockType returns an error, or the type without results, or a type with no
-- parameters and one well-formed result, whose type index is of the module and whose size in
-- words is right, or, when multiple values are enabled, a type of the module.
pub decode_block_type-IsBlock :
    (types : List FunctionType) (multi_value : Bool) (r : List ℕ)
    → IsBlock types multi_value (decode_block_type types multi_value r)
unfolding decode_block_type
decode_block_type-IsBlock types multi_value r =
    type-IsBlock types multi_value r (decode_int33_as_int64 r)
