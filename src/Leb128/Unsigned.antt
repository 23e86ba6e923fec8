-- ===== src/Leb128/Unsigned.antt =====
-- Unsigned numbers read back as they were written.
use andsifr.Common.{
  ℕ, zero, suc, ◌+◌, ◌*◌, ◌/◌, ◌%◌, ◌^◌, ◌≤◌, ◌<◌, ◌≡◌, refl, ap, subst, ◌∙◌, inl, inr, false, some,
  List, [], ◌∷◌, ◌++◌, ◌==◌, if◌then◌else◌, Bool-cases, length, length-append, arith, bit_and,
  bit_or, append_assoc,
}
use andsifr.Common.Bits.Masks.{and_0x7f, and_0x80, and_0xf0, or_0x80, or_shifted}
use andsifr.Common.Result.{ok}
use andsifr.Leb128.{
  encode_uint64_loop, encode_uint64, encode_uint32, decode_uint32_loop, load_uint32,
  load_uint64_loop, load_uint64,
}
use native.Mathlib.Nat.{pow-suc, mod-eq_of_lt}
use native.Mathlib.Numerals.{towards_suc}

-- The bytes that an unsigned number below 128^k is written in.
pub groups : ℕ → ℕ → List ℕ
groups zero v = []
groups (suc k) v =
    let rest = groups k (v / 128) in if v / 128 == 0 then v % 128 ∷ [] else (v % 128 + 128) ∷ rest

first_group : (v : ℕ) → bit_and v 0x7f % 256 ≡ v % 128
first_group v = omega (arith, and_0x7f v)

encode_loop-groups :
    (k v : ℕ) (buf : List ℕ)
    → v < 128 ^ suc k
    → encode_uint64_loop (suc k) v buf ≡ some (buf ++ groups (suc k) v)
unfolding encode_uint64_loop groups
encode_loop-groups zero v buf h = ground (arith, first_group v, and_0x80 (v % 128))
encode_loop-groups (suc k) v buf h = ground (
  arith,
  first_group v,
  and_0x80 (v % 128),
  and_0x80 (v % 128 + 128),
  or_0x80 (v % 128),
  pow-suc 128 (suc k),
  encode_loop-groups k (v / 128) (buf ++ ((v % 128 + 128) ∷ [])),
  append_assoc buf ((v % 128 + 128) ∷ []) (groups (suc k) (v / 128)),
)

-- `ret | x << s`, where the sum fits the word.
pub or_group :
    (bits s ret x : ℕ)
    → ret < 2 ^ s
    → ret + x * 2 ^ s < 2 ^ bits
    → bit_or ret (x * 2 ^ s % 2 ^ bits) ≡ ret + x * 2 ^ s
or_group bits s ret x h fits =
    ap (bit_or ret) (mod-eq_of_lt {n = x * 2 ^ s} {m = 2 ^ bits} (omega arith))
    ∙ or_shifted s ret x h

pub pow-add_seven : (s : ℕ) → 2 ^ (s + 7) ≡ 128 * 2 ^ s
pow-add_seven s = simp towards_suc (omega arith)

-- A number's lowest group and the rest of it, both shifted by `s`.
pub split_group : (w s : ℕ) → w % 128 * 2 ^ s + w / 128 * 2 ^ (s + 7) ≡ w * 2 ^ s
split_group w s =
    let whole : w ≡ w % 128 + w / 128 * 128 = omega arith in
    omega (arith, ap (λ (t : ℕ). t * 2 ^ s) whole, ap (λ (t : ℕ). w / 128 * t) (pow-add_seven s))

last_uint32 :
    (n i s w ret : ℕ) (rest : List ℕ)
    → w < 128
    → s ≡ 7 * i
    → ret < 2 ^ s
    → ret + w * 2 ^ s < 2 ^ 32
    → decode_uint32_loop (suc n) (w ∷ rest) i s ret ≡ ok (ret + w * 2 ^ s, i + 1)
unfolding decode_uint32_loop
last_uint32 n i s w ret rest hw hs hr fits =
    ground (arith, top, and_0xf0 w, or_group 32 s ret w hr fits)
  where
    top : i ≡ 4 → w < 16
    top e =
        let s28 : s ≡ 28 = omega arith in
        let fits' : ret + w * 2 ^ 28 < 2 ^ 32 = subst (λ t. ret + w * 2 ^ t < 2 ^ 32) s28 fits in
        omega arith

inner_uint32 :
    (n i s g ret : ℕ) (rest : List ℕ)
    → g < 128
    → ret < 2 ^ s
    → ret + g * 2 ^ s < 2 ^ 32
    → decode_uint32_loop (suc n) ((g + 128) ∷ rest) i s ret
      ≡ decode_uint32_loop n rest (i + 1) (s + 7) (ret + g * 2 ^ s)
unfolding decode_uint32_loop
inner_uint32 n i s g ret rest hg hr fits =
    let low : bit_and (g + 128) 0x7f ≡ g = omega (arith, and_0x7f (g + 128)) in
    ground (arith, low, or_group 32 s ret g hr fits)

pub group_fits : (g s ret : ℕ) → g < 128 → ret < 2 ^ s → ret + g * 2 ^ s < 2 ^ (s + 7)
group_fits g s ret hg hr = grind (arith, pow-add_seven s)

pub positive : (n w : ℕ) → w < 128 ^ n → (w == 0) ≡ false → 0 < n
positive zero w h e = absurd (ground arith)
positive (suc n) w h e = omega arith

-- `n` rounds are left for a rest `w` of the number that counts from bit `s` on.
decode_uint32-groups :
    (k n i s w ret : ℕ) (rest : List ℕ)
    → w < 128 ^ suc k
    → w < 128 ^ n
    → 0 < n
    → s ≡ 7 * i
    → ret < 2 ^ s
    → ret + w * 2 ^ s < 2 ^ 32
    → decode_uint32_loop n (groups (suc k) w ++ rest) i s ret
      ≡ ok (ret + w * 2 ^ s, i + length (groups (suc k) w))
unfolding groups
decode_uint32-groups k zero i s w ret rest hw hn hz hs hr fits = absurd (omega arith)
decode_uint32-groups zero (suc n) i s w ret rest hw hn hz hs hr fits =
    ground (arith, last_uint32 n i s w ret rest)
decode_uint32-groups (suc k) (suc n) i s w ret rest hw hn hz hs hr fits =
    elim (Bool-cases (w / 128 == 0)) [
      | inl small ↦ rw small (ground (arith, last_uint32 n i s w ret rest))
      | inr large ↦
          let parts : w % 128 * 2 ^ s + w / 128 * 2 ^ (s + 7) ≡ w * 2 ^ s = split_group w s in
          let lt : w / 128 < 128 ^ n = omega (arith, pow-suc 128 n) in
          rw
            (
              large,
              inner_uint32 n i s (w % 128) ret (groups (suc k) (w / 128) ++ rest) (omega arith) hr
                  (omega arith),
              decode_uint32-groups k n (i + 1) (s + 7) (w / 128) (ret + w % 128 * 2 ^ s) rest
                  (omega (arith, pow-suc 128 (suc k))) lt (positive n (w / 128) lt large)
                  (omega arith) (group_fits (w % 128) s ret (omega arith) hr) (omega arith),
            )
            (ground arith)
    ]

-- On every uint32 the encoder returns, and the decoder reads the number back from the front of any
-- longer input, with the number of its bytes.
pub load_uint32-encode :
    (v : ℕ) (rest : List ℕ)
    → v < 2 ^ 32
    → (buf : List ℕ) × (encode_uint32 v ≡ some buf)
      × (load_uint32 (buf ++ rest) ≡ ok (v, length buf))
unfolding encode_uint32 encode_uint64 load_uint32
load_uint32-encode v rest h = (
  groups 10 v,
  encode_loop-groups 9 v [] (omega arith),
  ground (arith, decode_uint32-groups 9 5 0 0 v 0 rest),
)

last_uint64 :
    (n i s w ret : ℕ) (rest : List ℕ)
    → w < 128
    → s ≡ 7 * i
    → ret < 2 ^ s
    → ret + w * 2 ^ s < 2 ^ 64
    → load_uint64_loop (suc n) (w ∷ rest) i s ret ≡ ok (ret + w * 2 ^ s, i + 1)
unfolding load_uint64_loop
last_uint64 n i s w ret rest hw hs hr fits = ground (arith, top, or_group 64 s ret w hr fits)
  where
    top : i ≡ 9 → w ≤ 1
    top e =
        let s63 : s ≡ 63 = omega arith in
        let fits' : ret + w * 2 ^ 63 < 2 ^ 64 = subst (λ t. ret + w * 2 ^ t < 2 ^ 64) s63 fits in
        omega arith

inner_uint64 :
    (n i s g ret : ℕ) (rest : List ℕ)
    → g < 128
    → ret < 2 ^ s
    → ret + g * 2 ^ s < 2 ^ 64
    → load_uint64_loop (suc n) ((g + 128) ∷ rest) i s ret
      ≡ load_uint64_loop n rest (i + 1) (s + 7) (ret + g * 2 ^ s)
unfolding load_uint64_loop
inner_uint64 n i s g ret rest hg hr fits =
    let low : bit_and (g + 128) 0x7f ≡ g = omega (arith, and_0x7f (g + 128)) in
    ground (arith, low, or_group 64 s ret g hr fits)

load_uint64-groups :
    (k n i s w ret : ℕ) (rest : List ℕ)
    → w < 128 ^ suc k
    → w < 128 ^ n
    → 0 < n
    → s ≡ 7 * i
    → ret < 2 ^ s
    → ret + w * 2 ^ s < 2 ^ 64
    → load_uint64_loop n (groups (suc k) w ++ rest) i s ret
      ≡ ok (ret + w * 2 ^ s, i + length (groups (suc k) w))
unfolding groups
load_uint64-groups k zero i s w ret rest hw hn hz hs hr fits = absurd (omega arith)
load_uint64-groups zero (suc n) i s w ret rest hw hn hz hs hr fits =
    ground (arith, last_uint64 n i s w ret rest)
load_uint64-groups (suc k) (suc n) i s w ret rest hw hn hz hs hr fits =
    elim (Bool-cases (w / 128 == 0)) [
      | inl small ↦ rw small (ground (arith, last_uint64 n i s w ret rest))
      | inr large ↦
          let parts : w % 128 * 2 ^ s + w / 128 * 2 ^ (s + 7) ≡ w * 2 ^ s = split_group w s in
          let lt : w / 128 < 128 ^ n = omega (arith, pow-suc 128 n) in
          rw
            (
              large,
              inner_uint64 n i s (w % 128) ret (groups (suc k) (w / 128) ++ rest) (omega arith) hr
                  (omega arith),
              load_uint64-groups k n (i + 1) (s + 7) (w / 128) (ret + w % 128 * 2 ^ s) rest
                  (omega (arith, pow-suc 128 (suc k))) lt (positive n (w / 128) lt large)
                  (omega arith) (group_fits (w % 128) s ret (omega arith) hr) (omega arith),
            )
            (ground arith)
    ]

load_uint64_cons : (buf : List ℕ) → 0 < length buf → load_uint64 buf ≡ load_uint64_loop 10 buf 0 0 0
unfolding load_uint64
load_uint64_cons [] h = absurd (omega arith)
load_uint64_cons (b ∷ rest) h = refl

length-groups : (k v : ℕ) → 0 < length (groups (suc k) v)
unfolding groups
length-groups k v = ground arith

-- On every uint64 the encoder returns, and the decoder reads the number back from the front of any
-- longer input, with the number of its bytes.
pub load_uint64-encode :
    (v : ℕ) (rest : List ℕ)
    → v < 2 ^ 64
    → (buf : List ℕ) × (encode_uint64 v ≡ some buf)
      × (load_uint64 (buf ++ rest) ≡ ok (v, length buf))
unfolding encode_uint64
load_uint64-encode v rest h = (
  groups 10 v,
  encode_loop-groups 9 v [] (omega arith),
  load_uint64_cons (groups 10 v ++ rest)
        (omega (arith, length-append (groups 10 v) rest, length-groups 9 v))
      ∙ ground (arith, load_uint64-groups 9 10 0 0 v 0 rest),
)

-- On every uint32 and every uint64 the encoder returns, and the decoder reads the number back
-- from the front of any longer input, with the number of its bytes; a uint32 is any number cut to
-- 32 bits.
pub unsigned-encode :
    (v : ℕ) (rest : List ℕ)
    → v < 2 ^ 64
    → ((buf : List ℕ) × (encode_uint32 (v % 2 ^ 32) ≡ some buf)
        × (load_uint32 (buf ++ rest) ≡ ok (v % 2 ^ 32, length buf)))
      × ((buf : List ℕ) × (encode_uint64 v ≡ some buf)
          × (load_uint64 (buf ++ rest) ≡ ok (v, length buf)))
unsigned-encode v rest h =
    (load_uint32-encode (v % 2 ^ 32) rest (omega arith), load_uint64-encode v rest h)
