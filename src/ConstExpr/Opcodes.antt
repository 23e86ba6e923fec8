-- ===== src/ConstExpr/Opcodes.antt =====
-- Each opcode that decodeConstantExpression accepts has a well-formed immediate.
use andsifr.Common.{
  ℕ, zero, suc, ◌≡◌, refl, ap, inl, inr, Bool, true, false, not, ◌||◌, List, [], ◌∷◌, ◌++◌, ltb,
  ◌==◌, if◌then◌else◌, length, take, Bool-cases, take-append_drop, take-length, arith,
}
use andsifr.Common.Result.{ok}
use andsifr.Leb128.{load_uint32, load_int32, load_int64}
use andsifr.Leb128.Bounds.{load_uint32_bounds}
use andsifr.ConstExpr.Decode.{
  Features, Step, read_ref_null, read_vector, read_opcode, read_value, invalid_ref_type,
}
use andsifr.ConstExpr.Walk.{
  Immediate, int32, int64, float32, float64, global, null_abstract, null_concrete, func, vector,
  arithmetic32, arithmetic64,
}
use andsifr.ConstExpr.Accept.{
  Says, uint32-IsDecoder, int32-IsDecoder, int64-IsDecoder, immediate-Says, full-Says,
  extended-Says,
}

concrete_immediate :
    (op b : ℕ) (r : List ℕ)
    → op ≡ 0xd0
    → (b == 0x70 || (b == 0x6f || b == 0x69)) ≡ false
    → (v n : ℕ) (d : List ℕ) → load_uint32 (take n (b ∷ r) ++ d) ≡ ok (v, length (take n (b ∷ r)))
    → Immediate op (take n (b ∷ r)) d
concrete_immediate op b r o h v zero d e =
    absurd (let k = (load_uint32_bounds d v 0 e).1 in omega (arith, k))
concrete_immediate op b r o h v (suc n) d e = null_concrete b v (take n r) o refl h e

ref_null-Says : (f : Features) (op : ℕ) (r : List ℕ) → op ≡ 0xd0 → Says op r (read_ref_null f r)
unfolding read_ref_null
ref_null-Says f op [] o = ground arith
ref_null-Says f op (b ∷ r) o = elim (Bool-cases (not f.bulk_memory)) [
  | inl off ↦ rw off tt
  | inr on ↦ rw on (elim (Bool-cases (b == 0x70 || (b == 0x6f || b == 0x69))) [
    | inl same ↦
        rw same (
          b ∷ [],
          record { parts = refl; immediate = λ d rest behind. null_abstract b o refl same },
        )
    | inr differ ↦ rw differ (
        immediate-Says op load_uint32 uint32-IsDecoder (λ e. invalid_ref_type b) (b ∷ r)
          (concrete_immediate op b r o differ))
  ])
]

vector-Says : (f : Features) (op : ℕ) (r : List ℕ) → op ≡ 0xfd → Says op r (read_vector f r)
unfolding read_vector
vector-Says f op [] o = ground arith
vector-Says f op (b ∷ r) o = elim (Bool-cases (not f.simd)) [
  | inl off ↦ rw off tt
  | inr on ↦ rw on (elim (Bool-cases (not (b == 0x0c))) [
    | inl other ↦ rw other tt
    | inr const ↦ rw const (elim (Bool-cases (ltb (length r) 16)) [
      | inl short ↦ rw short tt
      | inr enough ↦ rw enough (
        b ∷ take 16 r,
        record {
          parts = ap (λ l. b ∷ l) (take-append_drop 16 r);
          immediate = λ d rest behind.
              vector (take 16 r) o (ap (λ k. k ∷ take 16 r) (ground arith))
                (take-length 16 r (ground arith));
        },
      )
    ])
  ])
]

branch :
    (op : ℕ) (r : List ℕ) (b : Bool) (s t : Step)
    → (b ≡ true → Says op r s)
    → (b ≡ false → Says op r t)
    → Says op r (if b then s else t)
branch op r b s t on off = elim (Bool-cases b) [ inl h ↦ rw h (on h) | inr h ↦ rw h (off h) ]

pub opcode-Says : (f : Features) (op : ℕ) (r : List ℕ) → Says op r (read_opcode f op r)
unfolding read_opcode
opcode-Says f op r =
    branch op r (op == 0x41) _ _
      (λ h.
        immediate-Says op load_int32 int32-IsDecoder read_value r (λ v n d. int32 v (ground arith)))
      (λ h1.
        branch op r (op == 0x6a || (op == 0x6b || op == 0x6c)) _ _
          (λ h. extended-Says f op r (λ d. arithmetic32 h refl))
          (λ h2.
            branch op r (op == 0x42) _ _
              (λ h.
                immediate-Says op load_int64 int64-IsDecoder read_value r
                  (λ v n d. int64 v (ground arith)))
              (λ h3.
                branch op r (op == 0x7c || (op == 0x7d || op == 0x7e)) _ _
                  (λ h. extended-Says f op r (λ d. arithmetic64 h refl))
                  (λ h4.
                    branch op r (op == 0x43) _ _
                      (λ h. full-Says op 4 r (λ imm d. float32 (ground arith)))
                      (λ h5.
                        branch op r (op == 0x44) _ _
                          (λ h. full-Says op 8 r (λ imm d. float64 (ground arith)))
                          (λ h6.
                            branch op r (op == 0x23) _ _
                              (λ h.
                                immediate-Says op load_uint32 uint32-IsDecoder read_value r
                                  (λ v n d. global v (ground arith)))
                              (λ h7.
                                branch op r (op == 0xd0) _ _
                                  (λ h. ref_null-Says f op r (ground arith))
                                  (λ h8.
                                    branch op r (op == 0xd2) _ _
                                      (λ h.
                                        branch op r (not f.bulk_memory) _ _ (λ off. tt)
                                          (λ on.
                                            immediate-Says op load_uint32 uint32-IsDecoder
                                              read_value r (λ v n d. func v (ground arith))))
                                      (λ h9.
                                        branch op r (op == 0xfd) _ _
                                          (λ h. vector-Says f op r (ground arith))
                                          (λ h10.
                                            branch op r (op == 0x0b) _ _ (λ h. (ground arith, refl))
                                              (λ h11. tt)))))))))))
