-- ===== src/Leb128/Tests.antt =====
-- Runs of the LEB128 functions, and their theorems at concrete inputs.
use andsifr.Common.{ℕ, ◌-◌, ◌^◌, ◌+◌, ◌%◌, ◌≡◌, refl, some, List, [], ◌∷◌, ◌++◌, length, arith}
use andsifr.Common.Result.{ok, err}
use andsifr.Leb128.{
  eof, overflow32, read_byte_failed, encode_uint64_loop, encode_uint64, encode_uint32,
  shift_right_int64, extend_int32, encode_int64_loop, encode_int64, encode_int32,
  decode_uint32_loop, load_uint32, load_uint64, check_int32, decode_int32_loop, load_int32,
  check_int64, decode_int64_loop, load_int64, finish_int33, decode_int33_loop,
  decode_int33_as_int64,
}
use andsifr.Leb128.Unsigned.{unsigned-encode}
use andsifr.Leb128.Int64.{load_int64-encode}
use andsifr.Leb128.Bounds.{Fits, load_bounds}
use andsifr.Leb128.Lax.{load_int32_lax, decode_int33_lax}

abbrev big : ℕ
big = 165675008

encode_unsigned : encode_uint32 big ≡ some (0x80 ∷ 0x80 ∷ 0x80 ∷ 0x4f ∷ [])
unfolding encode_uint32 encode_uint64 encode_uint64_loop
encode_unsigned = refl

encode_signed : encode_int32 big ≡ some (0x80 ∷ 0x80 ∷ 0x80 ∷ 0xcf ∷ 0 ∷ [])
unfolding encode_int32 extend_int32 encode_int64 encode_int64_loop shift_right_int64
encode_signed = refl

-- -624485 as an int32.
encode_negative : encode_int32 (2 ^ 32 - 624485) ≡ some (0x9b ∷ 0xf1 ∷ 0x59 ∷ [])
unfolding encode_int32 extend_int32 encode_int64 encode_int64_loop shift_right_int64
encode_negative = refl

load_negative : load_int32 (0x9b ∷ 0xf1 ∷ 0x59 ∷ []) ≡ ok (2 ^ 32 - 624485, 3)
unfolding load_int32 decode_int32_loop check_int32
load_negative = refl

load_too_long : load_uint32 (0x80 ∷ 0x80 ∷ 0x80 ∷ 0x80 ∷ 0x80 ∷ 0 ∷ []) ≡ err overflow32
unfolding load_uint32 decode_uint32_loop
load_too_long = refl

load_unused_bits : load_uint32 (0x82 ∷ 0x80 ∷ 0x80 ∷ 0x80 ∷ 0x70 ∷ []) ≡ err overflow32
unfolding load_uint32 decode_uint32_loop
load_unused_bits = refl

load_three : load_uint32 (0xe5 ∷ 0x8e ∷ 0x26 ∷ 1 ∷ []) ≡ ok (624485, 3)
unfolding load_uint32 decode_uint32_loop
load_three = refl

load_min : load_int64 (0x80 ∷ 0x7f ∷ []) ≡ ok (2 ^ 64 - 128, 2)
unfolding load_int64 decode_int64_loop check_int64
load_min = refl

load_cut : load_int64 (0x80 ∷ []) ≡ err (read_byte_failed eof)
unfolding load_int64 decode_int64_loop
load_cut = refl

-- A block type: -64 stands for the empty one.
int33_block : decode_int33_as_int64 (0x40 ∷ []) ≡ ok (2 ^ 64 - 64, 1)
unfolding decode_int33_as_int64 decode_int33_loop finish_int33
int33_block = refl

-- The fifth byte ends nothing, and the bytes are accepted.
int33_unended : decode_int33_as_int64 (0x80 ∷ 0x80 ∷ 0x80 ∷ 0x80 ∷ 0x80 ∷ []) ≡ ok (0, 5)
unfolding decode_int33_as_int64 decode_int33_loop finish_int33
int33_unended = refl

unsigned-encode_example :
    ((buf : List ℕ) × (encode_uint32 ((2 ^ 40 + big) % 2 ^ 32) ≡ some buf)
      × (load_uint32 (buf ++ (9 ∷ [])) ≡ ok ((2 ^ 40 + big) % 2 ^ 32, length buf)))
    × ((buf : List ℕ) × (encode_uint64 (2 ^ 40 + big) ≡ some buf)
        × (load_uint64 (buf ++ (9 ∷ [])) ≡ ok (2 ^ 40 + big, length buf)))
unsigned-encode_example = unsigned-encode (2 ^ 40 + big) (9 ∷ []) (omega arith)

load_int64-encode_example :
    (buf : List ℕ) × (encode_int64 (2 ^ 63) ≡ some buf)
    × (load_int64 (buf ++ (1 ∷ [])) ≡ ok (2 ^ 63, length buf))
load_int64-encode_example = load_int64-encode (2 ^ 63) (1 ∷ []) (omega arith)

load_bounds_example :
    Fits 32 5 (0x80 ∷ 0x7f ∷ []) (load_uint32 (0x80 ∷ 0x7f ∷ []))
    × Fits 32 5 (0x80 ∷ 0x7f ∷ []) (load_int32 (0x80 ∷ 0x7f ∷ []))
    × Fits 64 10 (0x80 ∷ 0x7f ∷ []) (load_int64 (0x80 ∷ 0x7f ∷ []))
load_bounds_example = load_bounds (0x80 ∷ 0x7f ∷ [])

load_int32_lax_example :
    (v : ℕ) × (load_int32 (0x81 ∷ 0x80 ∷ 0x80 ∷ 0x80 ∷ 3 ∷ []) ≡ ok (v, 5))
    × (load_int32 (0x81 ∷ 0x80 ∷ 0x80 ∷ 0x80 ∷ 0x43 ∷ []) ≡ ok (v, 5))
load_int32_lax_example =
    load_int32_lax 0x81 0x80 0x80 0x80 3 [] (omega arith) (omega arith) (omega arith) (omega arith)
      (omega arith)

decode_int33_lax_example :
    decode_int33_as_int64 (0x80 ∷ 0x80 ∷ 0x80 ∷ 0x80 ∷ 0x80 ∷ [])
    ≡ decode_int33_as_int64 (0x80 ∷ 0x80 ∷ 0x80 ∷ 0x80 ∷ 0 ∷ [])
decode_int33_lax_example =
    decode_int33_lax 0x80 0x80 0x80 0x80 0 [] (omega arith) (omega arith) (omega arith)
      (omega arith) (omega arith)
