-- ===== src/Leb128/Int64.antt =====
-- An int64 reads back as it was written.
use andsifr.Common.{
  ℕ, zero, suc, ◌+◌, ◌-◌, ◌*◌, ◌/◌, ◌%◌, ◌^◌, ◌≤◌, ◌<◌, ◌≡◌, ap, subst, ◌∙◌, inl, inr, true, false,
  some, List, [], ◌∷◌, ◌++◌, ltb, leb, if◌then◌else◌, Bool-cases, tests, lt→ltb, length, arith,
  bit_and, bit_or,
}
use andsifr.Common.Bits.Masks.{and_0x7f, and_0x40, and_0x80, or_shifted}
use andsifr.Common.Result.{ok}
use andsifr.Leb128.{encode_int64, decode_int64_loop, load_int64, check_int64, shift_right_int64}
use andsifr.Leb128.Unsigned.{or_group, pow-add_seven, group_fits}
use andsifr.Leb128.Signed.{
  ends, signed_groups, Within, shift_low, shift_high, low_or_high, shift_right-lt, shift_right-fits,
  signed_groups_last, signed_groups_more, ends_small, ends-Within, encode_loop-signed_groups,
}
use andsifr.Leb128.Fill.{fill_64}
use native.Mathlib.Nat.{pow-le-pow_right}

-- A byte that is not the last.
inner :
    (s i g ret : ℕ) (rest : List ℕ)
    → g < 128
    → s + 7 ≤ 63
    → ret < 2 ^ s
    → decode_int64_loop ((g + 128) ∷ rest) s i ret
      ≡ decode_int64_loop rest (s + 7) (i + 1) (ret + g * 2 ^ s)
unfolding decode_int64_loop
inner s i g ret rest hg hs hr =
    let low : bit_and (g + 128) 0x7f ≡ g = omega (arith, and_0x7f (g + 128)) in
    let top : bit_and (g + 128) 0x80 ≡ 128 = omega (arith, and_0x80 (g + 128)) in
    let small : 2 ^ (s + 7) ≤ 2 ^ 63 =
      pow-le-pow_right {n = 2} (omega arith) {i = s + 7} {j = 63} hs in
    rw (low, top, or_group 64 s ret g hr (omega (arith, group_fits g s ret hg hr)))

-- Before the tenth byte nothing is checked.
check_early : (b n ret : ℕ) → n < 10 → check_int64 b n ret ≡ ok (ret, n)
unfolding check_int64
check_early b n ret h = ground arith

-- A last byte below the tenth, with its sign's fill.
last :
    (s i g ret : ℕ) (rest : List ℕ)
    → g < 128
    → s + 7 ≤ 63
    → ret < 2 ^ s
    → i < 9
    → decode_int64_loop (g ∷ rest) s i ret
      ≡ ok ((if ltb g 64 then ret + g * 2 ^ s else ret + g * 2 ^ s + (2 ^ 64 - 2 ^ (s + 7))), i + 1)
unfolding decode_int64_loop
last s i g ret rest hg hs hr hi =
    let low : bit_and g 0x7f ≡ g = omega (arith, and_0x7f g) in
    let top : bit_and g 0x80 ≡ 0 = omega (arith, and_0x80 g) in
    let fits : ret + g * 2 ^ s < 2 ^ (s + 7) = group_fits g s ret hg hr in
    let small : 2 ^ (s + 7) ≤ 2 ^ 63 =
      pow-le-pow_right {n = 2} (omega arith) {i = s + 7} {j = 63} hs in
    let word : ltb (s + 7) 64 ≡ true = lt→ltb (s + 7) 64 (omega arith) in
    rw (low, top, or_group 64 s ret g hr (omega arith), word)
      (elim (Bool-cases (ltb g 64)) [
        | inl plus ↦
            let sign : bit_and g 0x40 ≡ 0 = omega (tests, and_0x40 g, plus) in
            rw (sign, plus, check_early g (i + 1) (ret + g * 2 ^ s) (omega arith))
        | inr minus ↦
            let above : 64 ≤ g = ground arith in
            let sign : bit_and g 0x40 ≡ 64 = omega (arith, and_0x40 g) in
            rw (
              sign,
              minus,
              fill_64 (s + 7) (ret + g * 2 ^ s) (omega arith) fits,
              check_early g (i + 1) (ret + g * 2 ^ s + (2 ^ 64 - 2 ^ (s + 7))) (omega arith),
            )
      ])

-- The number that a last byte completes.
last_value :
    (s w ret : ℕ)
    → w < 2 ^ 64
    → s + 7 ≤ 63
    → ret < 2 ^ s
    → Within 64 w
    → (if ltb (w % 128) 64
        then ret + w % 128 * 2 ^ s
        else ret + w % 128 * 2 ^ s + (2 ^ 64 - 2 ^ (s + 7)))
      ≡ (ret + w * 2 ^ s) % 2 ^ 64
last_value s w ret h hs hr (inl n) =
    let same : w % 128 ≡ w = omega arith in
    let small : 2 ^ (s + 7) ≤ 2 ^ 63 =
      pow-le-pow_right {n = 2} (omega arith) {i = s + 7} {j = 63} hs in
    let fits : ret + w * 2 ^ s < 2 ^ (s + 7) = group_fits w s ret (omega arith) hr in
    rw (same, lt→ltb w 64 n) (omega arith)
last_value s w ret h hs hr (inr n) =
    let small : 2 ^ (s + 7) ≤ 2 ^ 63 =
      pow-le-pow_right {n = 2} (omega arith) {i = s + 7} {j = 63} hs in
    let fits : ret + w % 128 * 2 ^ s < 2 ^ (s + 7) = group_fits (w % 128) s ret (omega arith) hr in
    let whole : w ≡ w % 128 + (2 ^ 64 - 128) = omega arith in
    let scaled : w * 2 ^ s ≡ (w % 128 + (2 ^ 64 - 128)) * 2 ^ s = ap (λ t. t * 2 ^ s) whole in
    elim (Bool-cases (ltb (w % 128) 64)) [
      | inl plus ↦ absurd (omega (tests, plus))
      | inr minus ↦ rw minus (omega (arith, pow-add_seven s))
    ]

-- The tenth byte: only the sign is left.
last_top :
    (s w ret : ℕ) (rest : List ℕ)
    → w < 2 ^ 64
    → s ≡ 63
    → ret < 2 ^ s
    → Within 1 w
    → decode_int64_loop (w % 128 ∷ rest) s 9 ret ≡ ok ((ret + w * 2 ^ s) % 2 ^ 64, 10)
unfolding decode_int64_loop check_int64
last_top s w ret rest h hs hr (inl n) =
    let z : w ≡ 0 = omega arith in
    let r : ret < 2 ^ 63 = subst (λ t. ret < 2 ^ t) hs hr in
    let or_zero : bit_or ret 0 ≡ ret = or_shifted 63 ret 0 r ∙ omega arith in
    let plus : leb (2 ^ 63) ret ≡ false = ground arith in
    let plus' : ltb ret (2 ^ 63) ≡ true = lt→ltb ret (2 ^ 63) r in
    rw (z, hs, or_zero, plus, plus') (ap (λ v. ok (v, 10)) (omega arith))
last_top s w ret rest h hs hr (inr n) =
    let z : w ≡ 2 ^ 64 - 1 = omega arith in
    let r : ret < 2 ^ 63 = subst (λ t. ret < 2 ^ t) hs hr in
    let or_sign : bit_or ret (2 ^ 63) ≡ ret + 2 ^ 63 = or_shifted 63 ret 1 r in
    let minus : leb (2 ^ 63) (ret + 2 ^ 63) ≡ true = ground arith in
    let minus' : ltb (ret + 2 ^ 63) (2 ^ 63) ≡ false = ground arith in
    rw (z, hs, or_sign, minus, minus') (ap (λ v. ok (v, 10)) (omega arith))

-- What a byte that is not the last takes off the number.
shifted_value :
    (s w ret : ℕ)
    → w < 2 ^ 64
    → (ret + w % 128 * 2 ^ s + shift_right_int64 w * 2 ^ (s + 7)) % 2 ^ 64
      ≡ (ret + w * 2 ^ s) % 2 ^ 64
shifted_value s w ret h =
    let whole : w * 2 ^ s ≡ (w % 128 + w / 128 * 128) * 2 ^ s =
      ap (λ t. t * 2 ^ s) {x = w} {y = w % 128 + w / 128 * 128} (omega arith) in
    elim (low_or_high w) [
      | inl low ↦ rw (shift_low w low, pow-add_seven s) (omega arith)
      | inr high ↦ rw (shift_high w high, pow-add_seven s) (omega arith)
    ]

last_whole :
    (s i w ret : ℕ) (rest : List ℕ)
    → w < 2 ^ 64
    → s + 7 ≤ 63
    → ret < 2 ^ s
    → i < 9
    → ends w ≡ true
    → decode_int64_loop (w % 128 ∷ rest) s i ret ≡ ok ((ret + w * 2 ^ s) % 2 ^ 64, i + 1)
last_whole s i w ret rest h hs hr hi e =
    last s i (w % 128) ret rest (omega arith) hs hr hi
    ∙ ap (λ v. ok (v, i + 1)) (last_value s w ret h hs hr (ends-Within w h e))

-- `k` groups follow a first one, and `m` bytes may follow byte `i`; the sum is that of the integers,
-- in 64 bits.
decode-signed_groups :
    (k m i s w ret : ℕ) (rest : List ℕ)
    → i + m ≡ 9
    → s ≡ 7 * i
    → k ≤ 9
    → ret < 2 ^ s
    → w < 2 ^ 64
    → Within (128 ^ k) w
    → Within (128 ^ m) w
    → decode_int64_loop (signed_groups (suc k) w ++ rest) s i ret
      ≡ ok ((ret + w * 2 ^ s) % 2 ^ 64, i + length (signed_groups (suc k) w))
decode-signed_groups k zero i s w ret rest hm hs hk hr h fk fm =
    let e : ends w ≡ true = ends_small w h (omega arith) in
    let nine : i ≡ 9 = omega arith in
    rw (signed_groups_last k w e, nine) (last_top s w ret rest h (omega arith) hr fm)
decode-signed_groups zero (suc m) i s w ret rest hm hs hk hr h fk fm =
    let e : ends w ≡ true = ends_small w h (omega arith) in
    rw (signed_groups_last 0 w e) (last_whole s i w ret rest h (omega arith) hr (omega arith) e)
decode-signed_groups (suc k) (suc m) i s w ret rest hm hs hk hr h fk fm =
    elim (Bool-cases (ends w)) [
      | inl e ↦
          rw (signed_groups_last (suc k) w e)
            (last_whole s i w ret rest h (omega arith) hr (omega arith) e)
      | inr e ↦
          rw
            (
              signed_groups_more (suc k) w e,
              inner s i (w % 128) ret (signed_groups (suc k) (shift_right_int64 w) ++ rest)
                  (omega arith) (omega arith) hr,
              decode-signed_groups k m (i + 1) (s + 7) (shift_right_int64 w) (ret + w % 128 * 2 ^ s)
                  rest (omega arith) (omega arith) (omega arith)
                  (group_fits (w % 128) s ret (omega arith) hr) (shift_right-lt w h)
                  (shift_right-fits k w (omega arith) h fk)
                  (shift_right-fits m w (omega arith) h fm),
              shifted_value s w ret h,
            )
            (ap (λ n. ok ((ret + w * 2 ^ s) % 2 ^ 64, n)) (omega arith))
    ]

-- On every int64 EncodeInt64 returns, and LoadInt64 reads the number back from the front of any
-- longer input, with the number of its bytes.
pub load_int64-encode :
    (v : ℕ) (rest : List ℕ)
    → v < 2 ^ 64
    → (buf : List ℕ) × (encode_int64 v ≡ some buf) × (load_int64 (buf ++ rest) ≡ ok (v, length buf))
unfolding encode_int64 load_int64
load_int64-encode v rest h = (
  signed_groups 10 v,
  encode_loop-signed_groups 9 v [] (omega arith) h (omega arith),
  decode-signed_groups 9 9 0 0 v 0 rest (omega arith) (omega arith) (omega arith) (omega arith) h
        (omega arith) (omega arith)
      ∙ ground arith,
)
