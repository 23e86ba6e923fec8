-- ===== src/Validation/Forms.antt =====
-- The types that the words stand for, and what the methods of ValueType read off the words.
use andsifr.Common.{
  ℕ, ◌+◌, ◌*◌, ◌%◌, ◌^◌, ◌<◌, ◌≤◌, ◌≡◌, refl, ◌∙◌, Bool, true, false, not, ◌&&◌, ◌||◌, ◌==◌, arith,
  bit_or,
}
use andsifr.Common.Bits.Masks.{or_shifted, or_bit}
use andsifr.Common.Bits.{bit}
use andsifr.ConstExpr.Machine.{type_funcref, type_externref, type_exnref, concrete_ref}
use andsifr.Validation.Types.{
  ValueType, kind, is_concrete_ref, is_ref, is_nullable, type_index, as_nullable,
}

-- What a heap type is: an abstract one, or a type of the module.
pub data Heap : Type 0 where
  func : Heap
  extern : Heap
  exn : Heap
  index : ℕ → Heap

-- A number or vector, by its byte, or a reference, which may be null or not.
pub data Form : Type 0 where
  number : ℕ → Form
  reference : Heap → Bool → Form

-- The bytes of i32, i64, f32, f64 and v128; the type index fits 32 bits.
abbrev pub IsForm : Form → Type 0
IsForm (number b) = (0x7b ≤ b) × (b ≤ 0x7f)
IsForm (reference (index i) nullable) = i < 2 ^ 32
IsForm (reference func nullable) = Unit {0}
IsForm (reference extern nullable) = Unit {0}
IsForm (reference exn nullable) = Unit {0}

abbrev pub flag : Bool → ℕ
flag true = 0
flag false = 2 ^ 8

abbrev pub is_index : Heap → Bool
is_index (index i) = true
is_index func = false
is_index extern = false
is_index exn = false

abbrev pub index_of : Heap → ℕ
index_of (index i) = i
index_of func = 0
index_of extern = 0
index_of exn = 0

abbrev pub byte_of : Heap → ℕ
byte_of (index i) = 0x70
byte_of func = 0x70
byte_of extern = 0x6f
byte_of exn = 0x69

abbrev pub base : Heap → ℕ
base func = 0x70
base extern = 0x6f
base exn = 0x69
base (index i) = 0x270 + i * 2 ^ 32

-- The word of a form, with the constructor of concrete references that the source has.
unfoldable pub word : Form → ValueType
word (number b) = b
word (reference func nullable) = type_funcref + flag nullable
word (reference extern nullable) = type_externref + flag nullable
word (reference exn nullable) = type_exnref + flag nullable
word (reference (index i) nullable) = concrete_ref i nullable

module _ (equivalent : ℕ → ℕ → Bool) where
  -- A concrete heap type is below func, and below the types that are the same or equivalent.
  abbrev pub heap_below : Heap → Heap → Bool
  heap_below func func = true
  heap_below func extern = false
  heap_below func exn = false
  heap_below func (index j) = false
  heap_below extern func = false
  heap_below extern extern = true
  heap_below extern exn = false
  heap_below extern (index j) = false
  heap_below exn func = false
  heap_below exn extern = false
  heap_below exn exn = true
  heap_below exn (index j) = false
  heap_below (index i) func = true
  heap_below (index i) extern = false
  heap_below (index i) exn = false
  heap_below (index i) (index j) = i == j || equivalent i j

  -- A reference that is not null stands where one may be, not the other way.
  abbrev pub below : Form → Form → Bool
  below (number a) (number b) = a == b
  below (number a) (reference h n) = false
  below (reference h n) (number b) = false
  below (reference h n) (reference h' n') = (not n || n') && heap_below h h'

concrete_null : (i : ℕ) → i < 2 ^ 32 → concrete_ref i true ≡ 0x270 + i * 2 ^ 32
unfolding concrete_ref
concrete_null i h =
    let index : i * 2 ^ 32 % 2 ^ 64 ≡ i * 2 ^ 32 = omega (arith, h) in
    rw (concrete_ref, index) (or_shifted 32 0x270 i (omega arith))

pub concrete_sum :
    (i : ℕ) (nullable : Bool)
    → i < 2 ^ 32
    → concrete_ref i nullable ≡ 0x270 + i * 2 ^ 32 + flag nullable
unfolding concrete_ref bit
concrete_sum i true h = concrete_null i h ∙ omega arith
concrete_sum i false h =
    let sum : bit_or 0x270 (i * 2 ^ 32 % 2 ^ 64) ≡ 0x270 + i * 2 ^ 32 = concrete_null i h in
    let clear : bit (0x270 + i * 2 ^ 32) 8 ≡ 0 = omega arith in
    rw (concrete_ref, sum) (or_bit 8 (0x270 + i * 2 ^ 32) clear)

-- What the methods of ValueType read off the word of a reference.
pub record IsWord (h : Heap) (nullable : Bool) (v : ValueType) : Type 0 where
  pub whole : v ≡ base h + flag nullable
  pub clear : as_nullable v ≡ base h
  pub null : is_nullable v ≡ nullable
  pub concrete_bit : is_concrete_ref v ≡ is_index h
  pub byte : kind v ≡ byte_of h
  pub place : type_index v ≡ index_of h

pub word-IsWord :
    (h : Heap) (nullable : Bool)
    → IsForm (reference h nullable)
    → IsWord h nullable (word (reference h nullable))
unfolding word as_nullable is_nullable is_ref is_concrete_ref kind type_index
word-IsWord func true k = record {
  whole = refl;
  clear = refl;
  null = refl;
  concrete_bit = refl;
  byte = refl;
  place = refl;
}
word-IsWord func false k = record {
  whole = refl;
  clear = refl;
  null = refl;
  concrete_bit = refl;
  byte = refl;
  place = refl;
}
word-IsWord extern true k = record {
  whole = refl;
  clear = refl;
  null = refl;
  concrete_bit = refl;
  byte = refl;
  place = refl;
}
word-IsWord extern false k = record {
  whole = refl;
  clear = refl;
  null = refl;
  concrete_bit = refl;
  byte = refl;
  place = refl;
}
word-IsWord exn true k = record {
  whole = refl;
  clear = refl;
  null = refl;
  concrete_bit = refl;
  byte = refl;
  place = refl;
}
word-IsWord exn false k = record {
  whole = refl;
  clear = refl;
  null = refl;
  concrete_bit = refl;
  byte = refl;
  place = refl;
}
word-IsWord (index i) true k = rw (concrete_sum i true k) (record {
  whole = refl;
  clear = omega arith;
  null = ground arith;
  concrete_bit = ground arith;
  byte = omega arith;
  place = omega arith;
})
word-IsWord (index i) false k = rw (concrete_sum i false k) (record {
  whole = refl;
  clear = omega arith;
  null = ground arith;
  concrete_bit = ground arith;
  byte = omega arith;
  place = omega arith;
})
