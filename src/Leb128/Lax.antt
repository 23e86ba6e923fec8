-- ===== src/Leb128/Lax.antt =====
-- Encodings that the WebAssembly specification calls malformed and the signed decoders accept.
use andsifr.Common.{
  ℕ, suc, ◌+◌, ◌-◌, ◌*◌, ◌%◌, ◌^◌, ◌≤◌, ◌<◌, ◌≡◌, refl, sym, ◌∙◌, ◌⊎◌, inl, inr, true, false, List,
  ◌∷◌, leb, ◌==◌, for_all_below, of_for_all_below, ==_iff, arith, bit_and, bit_or,
}
use andsifr.Common.Bits.{or-lt}
use andsifr.Common.Bits.Masks.{and_0x7f, and_0x80, and_0x30, and_0x20}
use andsifr.Common.Result.{ok}
use andsifr.Leb128.{
  check_int32, decode_int32_loop, load_int32, finish_int33, decode_int33_loop,
  decode_int33_as_int64,
}

-- A byte with the top bit set.
abbrev pub Goes : ℕ → Type 0
Goes b = (128 ≤ b) × (b < 256)

goes_on : (b : ℕ) → Goes b → (bit_and b 0x80 == 0) ≡ false
goes_on b h = ground (arith, and_0x80 b)

int32_round :
    (b s n ret : ℕ) (rest : List ℕ)
    → Goes b
    → decode_int32_loop (b ∷ rest) s n ret
      ≡ decode_int32_loop rest (s + 7) (n + 1) (bit_or ret (bit_and b 0x7f * 2 ^ s % 2 ^ 32))
unfolding decode_int32_loop
int32_round b s n ret rest h = rw (goes_on b h)

-- The fifth byte, of which only the low four bits reach the value.
int32_fifth :
    (c ret b : ℕ) (rest : List ℕ)
    → c < 8
    → ret < 2 ^ 28
    → (b ≡ c) ⊎ (b ≡ c + 64)
    → decode_int32_loop (b ∷ rest) 28 4 ret ≡ ok (bit_or ret (c * 2 ^ 28), 5)
unfolding decode_int32_loop check_int32
int32_fifth c ret b rest h hr hb =
    let last : bit_and b 0x80 ≡ 0 = omega (arith, and_0x80 b) in
    let group : bit_and b 0x7f * 2 ^ 28 % 2 ^ 32 ≡ c * 2 ^ 28 = omega (arith, and_0x7f b) in
    let unused : bit_and b 0x30 ≡ 0 = omega (arith, and_0x30 b) in
    let sum : bit_or ret (c * 2 ^ 28) < 2 ^ 31 =
      or-lt 31 ret (c * 2 ^ 28) (omega arith) (omega arith) in
    let plus : leb (2 ^ 31) (bit_or ret (c * 2 ^ 28)) ≡ false = ground arith in
    rw (last, group, unused, plus) (ground arith)

abbrev four : ℕ → ℕ → ℕ → ℕ → ℕ
four b0 b1 b2 b3 =
    bit_or
      (bit_or
        (bit_or (bit_or 0 (bit_and b0 0x7f * 2 ^ 0 % 2 ^ 32)) (bit_and b1 0x7f * 2 ^ 7 % 2 ^ 32))
        (bit_and b2 0x7f * 2 ^ 14 % 2 ^ 32))
      (bit_and b3 0x7f * 2 ^ 21 % 2 ^ 32)

four-lt : (b0 b1 b2 b3 : ℕ) → four b0 b1 b2 b3 < 2 ^ 28
four-lt b0 b1 b2 b3 =
    or-lt 28 _ _
      (or-lt 28 _ _
        (or-lt 28 _ _ (or-lt 28 _ _ (omega arith) (omega (arith, and_0x7f b0)))
          (omega (arith, and_0x7f b1)))
        (omega (arith, and_0x7f b2)))
      (omega (arith, and_0x7f b3))

load_int32_fifth :
    (b0 b1 b2 b3 c b : ℕ) (rest : List ℕ)
    → Goes b0
    → Goes b1
    → Goes b2
    → Goes b3
    → c < 8
    → (b ≡ c) ⊎ (b ≡ c + 64)
    → load_int32 (b0 ∷ b1 ∷ b2 ∷ b3 ∷ b ∷ rest) ≡ ok (bit_or (four b0 b1 b2 b3) (c * 2 ^ 28), 5)
unfolding load_int32
load_int32_fifth b0 b1 b2 b3 c b rest h0 h1 h2 h3 h hb =
    int32_round b0 0 0 0 _ h0
    ∙ int32_round b1 7 1 _ _ h1
    ∙ int32_round b2 14 2 _ _ h2
    ∙ int32_round b3 21 3 _ _ h3
    ∙ int32_fifth c (four b0 b1 b2 b3) b rest h (four-lt b0 b1 b2 b3) hb

-- Bit 0x40 of the fifth byte of a non-negative int32 is not looked at: with it set LoadInt32
-- accepts the bytes, and reads the number that it reads without.
pub load_int32_lax :
    (b0 b1 b2 b3 c : ℕ) (rest : List ℕ)
    → Goes b0
    → Goes b1
    → Goes b2
    → Goes b3
    → c < 8
    → (v : ℕ) × (load_int32 (b0 ∷ b1 ∷ b2 ∷ b3 ∷ c ∷ rest) ≡ ok (v, 5))
      × (load_int32 (b0 ∷ b1 ∷ b2 ∷ b3 ∷ (c + 64) ∷ rest) ≡ ok (v, 5))
load_int32_lax b0 b1 b2 b3 c rest h0 h1 h2 h3 h =
    let v = bit_or (four b0 b1 b2 b3) (c * 2 ^ 28) in
    (
      v,
      load_int32_fifth b0 b1 b2 b3 c c rest h0 h1 h2 h3 h (inl refl),
      load_int32_fifth b0 b1 b2 b3 c (c + 64) rest h0 h1 h2 h3 h (inr refl),
    )

int33_round :
    (b b' s n k ret : ℕ) (rest : List ℕ)
    → Goes b'
    → decode_int33_loop (suc k) (b' ∷ rest) b s n ret
      ≡ decode_int33_loop k rest b'
          (s + 7)
          (n + 1)
          (bit_or ret (bit_and b' (2 ^ 64 - 1 - 0x80) * 2 ^ s % 2 ^ 64))
unfolding decode_int33_loop
int33_round b b' s n k ret rest h = rw (goes_on b' h)

-- Of the byte itself only its bits 0x20 and 0x40 matter behind the loop.
finish_same : (c ret : ℕ) → c < 128 → finish_int33 (c + 128) 35 5 ret ≡ finish_int33 c 35 5 ret
unfolding finish_int33
finish_same c ret h =
    let unused : bit_and (c + 128) 0x20 ≡ bit_and c 0x20 =
      omega (arith, and_0x20 c, and_0x20 (c + 128)) in
    rw unused

seven_bits_table :
    for_all_below 128 (λ c. bit_and (c + 128) (2 ^ 64 - 1 - 0x80) == bit_and c (2 ^ 64 - 1 - 0x80))
    ≡ true
unfolding for_all_below
seven_bits_table = refl

seven_bits :
    (c : ℕ) → c < 128 → bit_and (c + 128) (2 ^ 64 - 1 - 0x80) ≡ bit_and c (2 ^ 64 - 1 - 0x80)
seven_bits c h = (==_iff _ _).0 (of_for_all_below _ 128 c seven_bits_table h)

int33_fifth :
    (c b ret : ℕ) (rest : List ℕ)
    → c < 128
    → decode_int33_loop 1 ((c + 128) ∷ rest) b 28 4 ret ≡ decode_int33_loop 1 (c ∷ rest) b 28 4 ret
unfolding decode_int33_loop
int33_fifth c b ret rest h =
    let last : bit_and c 0x80 ≡ 0 = omega (arith, and_0x80 c) in
    let more : bit_and (c + 128) 0x80 ≡ 128 = omega (arith, and_0x80 (c + 128)) in
    rw (last, more, seven_bits c h) (finish_same c _ h)

int33_four :
    (b0 b1 b2 b3 : ℕ)
    → Goes b0
    → Goes b1
    → Goes b2
    → Goes b3
    → (ret : ℕ) × ((bytes : List ℕ)
        → decode_int33_as_int64 (b0 ∷ b1 ∷ b2 ∷ b3 ∷ bytes) ≡ decode_int33_loop 1 bytes b3 28 4 ret)
unfolding decode_int33_as_int64
int33_four b0 b1 b2 b3 h0 h1 h2 h3 = (
  _,
  λ bytes.
      int33_round 0 b0 0 0 4 0 _ h0
      ∙ int33_round b0 b1 7 1 3 _ _ h1
      ∙ int33_round b1 b2 14 2 2 _ _ h2
      ∙ int33_round b2 b3 21 3 1 _ bytes h3,
)

-- DecodeInt33AsInt64 reads five bytes whose fifth has the continuation bit set as if the bit were
-- not set.
pub decode_int33_lax :
    (b0 b1 b2 b3 c : ℕ) (rest : List ℕ)
    → Goes b0
    → Goes b1
    → Goes b2
    → Goes b3
    → c < 128
    → decode_int33_as_int64 (b0 ∷ b1 ∷ b2 ∷ b3 ∷ (c + 128) ∷ rest)
      ≡ decode_int33_as_int64 (b0 ∷ b1 ∷ b2 ∷ b3 ∷ c ∷ rest)
decode_int33_lax b0 b1 b2 b3 c rest h0 h1 h2 h3 h =
    let (ret, four_read) = int33_four b0 b1 b2 b3 h0 h1 h2 h3 in
    four_read ((c + 128) ∷ rest) ∙ int33_fifth c b3 ret rest h ∙ sym (four_read (c ∷ rest))
