-- ===== src/Validation/Subtyping.antt =====
-- The subtyping of references against the types that the words stand for.
use andsifr.Common.{
  ℕ, ◌+◌, ◌/◌, ◌%◌, ◌^◌, ◌<◌, ◌≡◌, ◌≢◌, refl, ap, inl, inr, Bool, true, false, not, ◌&&◌, ◌||◌,
  ◌==◌, if◌then◌else◌, Bool-cases, arith,
}
use andsifr.ConstExpr.Machine.{type_funcref}
use andsifr.Validation.Types.{
  ValueType, kind, is_concrete_ref, is_ref, is_nullable, type_index, as_nullable, is_ref_subtype_of,
}
use andsifr.Validation.Forms.{
  Heap, func, extern, exn, index, Form, number, reference, IsForm, flag, is_index, byte_of, base,
  index_of, word, below, IsWord, word-IsWord,
}

below_lem :
    (equivalent : ℕ → ℕ → Bool) (h h' : Heap) (n n' : Bool)
    → (if base h == base h' && (if n then n' else not n')
        then true
        else if (base h == base h') && n'
        then true
        else if is_index h && is_index h'
        then (if n && not n' then false else equivalent (index_of h) (index_of h'))
        else if is_index h && (not (is_index h') && (byte_of h' == kind type_funcref))
        then not n || n'
        else false)
      ≡ below equivalent (reference h n) (reference h' n')
unfolding kind
below_lem equivalent func func n n' = ground arith
below_lem equivalent func extern n n' = ground arith
below_lem equivalent func exn n n' = ground arith
below_lem equivalent func (index j) n n' = ground arith
below_lem equivalent extern func n n' = ground arith
below_lem equivalent extern extern n n' = ground arith
below_lem equivalent extern exn n n' = ground arith
below_lem equivalent extern (index j) n n' = ground arith
below_lem equivalent exn func n n' = ground arith
below_lem equivalent exn extern n n' = ground arith
below_lem equivalent exn exn n n' = ground arith
below_lem equivalent exn (index j) n n' = ground arith
below_lem equivalent (index i) func n n' = ground arith
below_lem equivalent (index i) extern n n' = ground arith
below_lem equivalent (index i) exn n n' = ground arith
below_lem equivalent (index i) (index j) n n' = ground arith

base_clear : (h : Heap) → base h / 2 ^ 8 % 2 ≡ 0
base_clear func = refl
base_clear extern = refl
base_clear exn = refl
base_clear (index i) = omega arith

same_sum :
    (x y : ℕ) (n n' : Bool)
    → x / 2 ^ 8 % 2 ≡ 0
    → y / 2 ^ 8 % 2 ≡ 0
    → (x + flag n == y + flag n') ≡ (x == y && (if n then n' else not n'))
same_sum x y true true h k = ground arith
same_sum x y true false h k = ground arith
same_sum x y false true h k = ground arith
same_sum x y false false h k = ground arith

same_word :
    (h h' : Heap) (n n' : Bool)
    → (base h + flag n == base h' + flag n') ≡ (base h == base h' && (if n then n' else not n'))
same_word h h' n n' = same_sum (base h) (base h') n n' (base_clear h) (base_clear h')

is_ref_subtype_of-reference :
    (equivalent : ℕ → ℕ → Bool) (h h' : Heap) (n n' : Bool) (v v' : ValueType)
    → IsWord h n v
    → IsWord h' n' v'
    → is_ref_subtype_of equivalent v v' ≡ below equivalent (reference h n) (reference h' n')
unfolding is_ref_subtype_of
is_ref_subtype_of-reference equivalent h h' n n' v v' w w' =
    let eq : (v == v') ≡ (base h == base h' && (if n then n' else not n')) =
      rw (w.whole, w'.whole) (same_word h h' n n') in
    rw
      (
        is_ref_subtype_of, eq, w.clear, w'.clear, w.null, w'.null, w.concrete_bit, w'.concrete_bit,
        w'.byte, w.place, w'.place,
      )
      (below_lem equivalent h h' n n')

base_byte : (h : Heap) → (base h % 2 ^ 8 ≡ byte_of h) × (byte_of h < 0x7b)
base_byte func = (refl, omega arith)
base_byte extern = (refl, omega arith)
base_byte exn = (refl, omega arith)
base_byte (index i) = (omega arith, omega arith)

-- What they read off a number.
record IsPlain (b : ℕ) : Type 0 where
  plain_clear : as_nullable b ≡ b
  plain_null : is_nullable b ≡ false
  plain_bit : is_concrete_ref b ≡ false

number-IsPlain : (b : ℕ) → IsForm (number b) → IsPlain b
unfolding is_nullable is_ref is_concrete_ref as_nullable kind
number-IsPlain b k = record {
  plain_clear = omega arith;
  plain_null = ground arith;
  plain_bit = ground arith;
}

number_lem :
    (equivalent : ℕ → ℕ → Bool) (b : ℕ) (h : Heap) (n : Bool) (v : ValueType)
    → IsForm (number b)
    → IsWord h n v
    → (is_ref_subtype_of equivalent b v ≡ false) × (is_ref_subtype_of equivalent v b ≡ false)
unfolding is_ref_subtype_of kind
number_lem equivalent b h n v k w =
    let p : IsPlain b = number-IsPlain b k in
    let (byte, small) = base_byte h in
    let other : base h ≢ b = λ e. omega (arith, ap (λ x. x % 2 ^ 8) e) in
    let whole : v ≢ b = λ e. omega (arith, w.byte, ap (λ x. x % 2 ^ 8) e) in
    let clear : (b == base h) ≡ false = ground arith in
    let clear' : (base h == b) ≡ false = ground arith in
    let no_func : (kind b == 0x70) ≡ false = ground arith in
    let differ : (b == v) ≡ false = ground arith in
    let differ' : (v == b) ≡ false = ground arith in
    (
      rw (is_ref_subtype_of, differ, p.plain_clear, w.clear, clear, p.plain_bit) refl,
      rw (is_ref_subtype_of, differ', p.plain_clear, w.clear, clear', p.plain_null, p.plain_bit)
          (elim (Bool-cases (is_concrete_ref v)) [
            | inl c ↦ rw (c, no_func) refl
            | inr c ↦ rw c refl
          ]),
    )

-- On the words of numbers, vectors and references isRefSubtypeOf is the subtyping of the types
-- that they stand for: a number or vector is below itself, and a reference below another when it
-- may not be null or the other may, and its heap type is the same, or an index below func, or an
-- index whose type is equivalent to that of the other.
pub is_ref_subtype_of-below :
    (equivalent : ℕ → ℕ → Bool) (a b : Form)
    → IsForm a
    → IsForm b
    → is_ref_subtype_of equivalent (word a) (word b) ≡ below equivalent a b
unfolding is_ref_subtype_of is_nullable is_ref is_concrete_ref as_nullable type_index kind word
is_ref_subtype_of-below equivalent (number a) (number b) ha hb = ground arith
is_ref_subtype_of-below equivalent (number a) (reference h n) ha hb =
    (number_lem equivalent a h n (word (reference h n)) ha (word-IsWord h n hb)).0
is_ref_subtype_of-below equivalent (reference h n) (number b) ha hb =
    (number_lem equivalent b h n (word (reference h n)) hb (word-IsWord h n ha)).1
is_ref_subtype_of-below equivalent (reference h n) (reference h' n') ha hb =
    is_ref_subtype_of-reference equivalent h h' n n' (word (reference h n)) (word (reference h' n'))
      (word-IsWord h n ha) (word-IsWord h' n' hb)
