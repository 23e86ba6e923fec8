-- ===== src/ConstExpr/Accept.antt =====
-- What decodeConstantExpression reads is a well-formed expression.
use andsifr.Common.{
  ℕ, ◌≤◌, ◌≡◌, refl, sym, ap, ◌∙◌, inl, inr, not, List, [], ◌++◌, ltb, length, take, drop,
  Bool-cases, append_assoc, length-append, take-append_drop, take-length, arith,
}
use andsifr.Common.Result.{ok, err}
use andsifr.Leb128.{Decoded, load_uint32, load_int32, load_int64}
use andsifr.Leb128
use andsifr.Leb128.Bounds.{load_uint32_bounds, load_int32_bounds, load_int64_bounds}
use andsifr.Leb128.Local.{load_uint32_local, load_int32_local, load_int64_local}
use andsifr.ConstExpr.Decode.{
  Features, Error, Step, continue, complete, refuse, read_immediate, read_full, extended,
}
use andsifr.ConstExpr.Walk.{Immediate}

-- `imm` in front of `r'` is an immediate of `op`, whichever part of `r'` the expression has.
pub record IsRead (op : ℕ) (r r' imm : List ℕ) : Type 0 where
  pub parts : r ≡ imm ++ r'
  pub immediate : (d rest : List ℕ) → r' ≡ d ++ rest → Immediate op imm d

abbrev pub Says : ℕ → List ℕ → Step → Type 0
Says op r (continue r') = (imm : List ℕ) × IsRead op r r' imm
Says op r (complete r') = (op ≡ 0x0b) × (r' ≡ r)
Says op r (refuse e) = Unit {0}

-- A decoder of integers: it takes bytes that are there, and looks at no others.
pub record IsDecoder (load : List ℕ → Decoded) : Type 0 where
  bounded : (r : List ℕ) (v n : ℕ) → load r ≡ ok (v, n) → n ≤ length r
  local : (d r : List ℕ) (v n : ℕ) → n ≤ length d → load (d ++ r) ≡ ok (v, n) → load d ≡ ok (v, n)

pub uint32-IsDecoder : IsDecoder load_uint32
uint32-IsDecoder = record {
  bounded = λ r v n e. (load_uint32_bounds r v n e).3;
  local = load_uint32_local;
}

pub int32-IsDecoder : IsDecoder load_int32
int32-IsDecoder = record {
  bounded = λ r v n e. (load_int32_bounds r v n e).3;
  local = load_int32_local;
}

pub int64-IsDecoder : IsDecoder load_int64
int64-IsDecoder = record {
  bounded = λ r v n e. (load_int64_bounds r v n e).3;
  local = load_int64_local;
}

module _ (op : ℕ) (load : List ℕ → Decoded) (decoder : IsDecoder load) (wrap : Leb128.Error → Error)
    (r : List ℕ) where
  read_integer :
      (v n : ℕ) (d rest : List ℕ)
      → load r ≡ ok (v, n)
      → drop n r ≡ d ++ rest
      → load (take n r ++ d) ≡ ok (v, length (take n r))
  read_integer v n d rest e behind =
      let fits : length (take n r) ≡ n = take-length n r (decoder.bounded r v n e) in
      let whole : r ≡ (take n r ++ d) ++ rest =
        take-append_drop n r
        ∙ ap (λ l. take n r ++ l) behind
        ∙ sym (append_assoc (take n r) d rest) in
      let here : load ((take n r ++ d) ++ rest) ≡ ok (v, n) = ap load (sym whole) ∙ e in
      decoder.local (take n r ++ d) rest v n (omega (arith, length-append (take n r) d)) here
      ∙ ap (λ k. ok (v, k)) (sym fits)

  -- How an opcode makes its immediate of an integer that was read.
  abbrev Makes : Type 0
  Makes =
      (v n : ℕ) (d : List ℕ)
      → load (take n r ++ d) ≡ ok (v, length (take n r))
      → Immediate op (take n r) d

  decoded-Says : (d : Decoded) → load r ≡ d → Makes → Says op r (read_immediate wrap d r)
  unfolding read_immediate
  decoded-Says (err e) here make = tt
  decoded-Says (ok (v, n)) here make = (
    take n r,
    record {
      parts = take-append_drop n r;
      immediate = λ d rest behind. make v n d (read_integer v n d rest here behind);
    },
  )

  pub immediate-Says : Makes → Says op r (read_immediate wrap (load r) r)
  immediate-Says make = decoded-Says (load r) refl make

pub full-Says :
    (op n : ℕ) (r : List ℕ)
    → ((imm d : List ℕ) → length imm ≡ n → Immediate op imm d)
    → Says op r (read_full n r)
unfolding read_full
full-Says op n r make = elim (Bool-cases (ltb (length r) n)) [
  | inl short ↦ rw short tt
  | inr enough ↦ rw enough (
    take n r,
    record {
      parts = take-append_drop n r;
      immediate = λ d rest behind. make (take n r) d (take-length n r (ground arith));
    },
  )
]

pub extended-Says :
    (f : Features) (op : ℕ) (r : List ℕ)
    → ((d : List ℕ) → Immediate op [] d)
    → Says op r (extended f op r)
unfolding extended
extended-Says f op r make = elim (Bool-cases (not f.extended_const)) [
  | inl off ↦ rw off tt
  | inr on ↦ rw on ([], record { parts = refl; immediate = λ d rest behind. make d })
]
