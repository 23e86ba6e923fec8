-- ===== src/Leb128.antt =====
-- internal/leb128/leb128.go. A Go integer is its bit pattern: an int64 is a number below 2^64.
-- The readers of the source (`nextByte`, io.ByteReader) hand over one byte after another: a reader
-- is the list of the bytes that are still to come, and io.EOF follows the last.
pub mod Unsigned
pub mod Signed
pub mod Fill
pub mod Int64
pub mod Bounds
pub mod Lax
pub mod Local
mod Tests
use andsifr.Common.{
  ℕ, zero, suc, ◌+◌, ◌-◌, ◌*◌, ◌/◌, ◌%◌, ◌^◌, Bool, true, false, not, ◌&&◌, ◌||◌, Option, none,
  some, List, [], ◌∷◌, ◌++◌, ltb, leb, ◌==◌, if◌then◌else◌, bit_and, bit_or,
}
use andsifr.Common.Result.{Result, ok, err, ◌>>=◌}

pub data Error : Type 0 where
  eof overflow32 overflow33 overflow64 : Error
  read_byte_failed : Error → Error

-- The value, and the number of bytes that it took.
abbrev pub Decoded : Type 0
Decoded = Result Error (ℕ × ℕ)

-- `none`: out of fuel.
unfoldable pub encode_uint64_loop : ℕ → ℕ → List ℕ → Option (List ℕ)
encode_uint64_loop zero value buf = none
encode_uint64_loop (suc fuel) value buf =
    let b = bit_and value 0x7f % 256 in
    let value' = value / 2 ^ 7 in
    let b' = if value' == 0 then b else bit_or b 0x80 in
    let buf' = buf ++ (b' ∷ []) in
    let rest = encode_uint64_loop fuel value' buf' in
    if bit_and b' 0x80 == 0 then some buf' else rest

-- Each round takes seven bits: ten rounds are enough for 64.
unfoldable pub encode_uint64 : ℕ → Option (List ℕ)
encode_uint64 value = encode_uint64_loop 10 value []

unfoldable pub encode_uint32 : ℕ → Option (List ℕ)
encode_uint32 value = encode_uint64 value

-- `value >> 7` of an int64 keeps the sign.
unfoldable pub shift_right_int64 : ℕ → ℕ
shift_right_int64 value = value / 2 ^ 7 + (if ltb value (2 ^ 63) then 0 else 127 * 2 ^ 57)

unfoldable pub encode_int64_loop : ℕ → ℕ → List ℕ → Option (List ℕ)
encode_int64_loop zero value buf = none
encode_int64_loop (suc fuel) value buf =
    let b = bit_and value 0x7f % 256 in
    let s = bit_and value 0x40 % 256 in
    let value' = shift_right_int64 value in
    let more = (not (value' == 2 ^ 64 - 1) || s == 0) && (not (value' == 0) || not (s == 0)) in
    let b' = if more then bit_or b 0x80 else b in
    let buf' = buf ++ (b' ∷ []) in
    let rest = encode_int64_loop fuel value' buf' in
    if bit_and b' 0x80 == 0 then some buf' else rest

unfoldable pub encode_int64 : ℕ → Option (List ℕ)
encode_int64 value = encode_int64_loop 10 value []

-- `int64(value)` of an int32.
unfoldable pub extend_int32 : ℕ → ℕ
extend_int32 value = if ltb value (2 ^ 31) then value else value + (2 ^ 64 - 2 ^ 32)

unfoldable pub encode_int32 : ℕ → Option (List ℕ)
encode_int32 value = encode_int64 (extend_int32 value)

-- `n` is the number of rounds left, of five.
unfoldable pub decode_uint32_loop : ℕ → List ℕ → ℕ → ℕ → ℕ → Decoded
decode_uint32_loop zero buf i s ret = err overflow32
decode_uint32_loop (suc n) [] i s ret = err eof
decode_uint32_loop (suc n) (b ∷ rest) i s ret =
    let more =
      decode_uint32_loop n rest (i + 1) (s + 7) (bit_or ret (bit_and b 0x7f * 2 ^ s % 2 ^ 32)) in
    if ltb b 0x80
    then (if i == 4 && ltb 0 (bit_and b 0xf0)
        then err overflow32
        else ok (bit_or ret (b * 2 ^ s % 2 ^ 32), i + 1))
    else more

unfoldable pub load_uint32 : List ℕ → Decoded
load_uint32 buf = decode_uint32_loop 5 buf 0 0 0

unfoldable pub load_uint64_loop : ℕ → List ℕ → ℕ → ℕ → ℕ → Decoded
load_uint64_loop zero buf i s ret = err overflow64
load_uint64_loop (suc n) [] i s ret = err eof
load_uint64_loop (suc n) (b ∷ rest) i s ret =
    let more =
      load_uint64_loop n rest (i + 1) (s + 7) (bit_or ret (bit_and b 0x7f * 2 ^ s % 2 ^ 64)) in
    if ltb b 0x80
    then (if i == 9 && ltb 1 b then err overflow64 else ok (bit_or ret (b * 2 ^ s % 2 ^ 64), i + 1))
    else more

unfoldable pub load_uint64 : List ℕ → Decoded
load_uint64 [] = err eof
load_uint64 (b ∷ rest) = load_uint64_loop 10 (b ∷ rest) 0 0 0

-- The checks behind the last byte `b` of an int32, in their order.
unfoldable pub check_int32 : ℕ → ℕ → ℕ → Decoded
check_int32 b bytes_read ret =
    let unused = bit_and b 0x30 in
    if ltb 5 bytes_read
    then err overflow32
    else if bytes_read == 5 && leb (2 ^ 31) ret && not (unused == 0x30)
    then err overflow32
    else if bytes_read == 5 && ltb ret (2 ^ 31) && not (unused == 0)
    then err overflow32
    else ok (ret, bytes_read)

unfoldable pub decode_int32_loop : List ℕ → ℕ → ℕ → ℕ → Decoded
decode_int32_loop [] shift bytes_read ret = err (read_byte_failed eof)
decode_int32_loop (b ∷ rest) shift bytes_read ret =
    let ret' = bit_or ret (bit_and b 0x7f * 2 ^ shift % 2 ^ 32) in
    let shift' = shift + 7 in
    let more = decode_int32_loop rest shift' (bytes_read + 1) ret' in
    if bit_and b 0x80 == 0
    then (let extended =
          if ltb shift' 32 && not (bit_and b 0x40 == 0)
          then bit_or ret' ((2 ^ 32 - 1) * 2 ^ shift' % 2 ^ 32)
          else ret' in
        check_int32 b (bytes_read + 1) extended)
    else more

unfoldable pub load_int32 : List ℕ → Decoded
load_int32 buf = decode_int32_loop buf 0 0 0

unfoldable pub check_int64 : ℕ → ℕ → ℕ → Decoded
check_int64 b bytes_read ret =
    let unused = bit_and b 0x3e in
    if ltb 10 bytes_read
    then err overflow64
    else if bytes_read == 10 && leb (2 ^ 63) ret && not (unused == 0x3e)
    then err overflow64
    else if bytes_read == 10 && ltb ret (2 ^ 63) && not (unused == 0)
    then err overflow64
    else ok (ret, bytes_read)

unfoldable pub decode_int64_loop : List ℕ → ℕ → ℕ → ℕ → Decoded
decode_int64_loop [] shift bytes_read ret = err (read_byte_failed eof)
decode_int64_loop (b ∷ rest) shift bytes_read ret =
    let ret' = bit_or ret (bit_and b 0x7f * 2 ^ shift % 2 ^ 64) in
    let shift' = shift + 7 in
    let more = decode_int64_loop rest shift' (bytes_read + 1) ret' in
    if bit_and b 0x80 == 0
    then (let extended =
          if ltb shift' 64 && bit_and b 0x40 == 0x40
          then bit_or ret' ((2 ^ 64 - 1) * 2 ^ shift' % 2 ^ 64)
          else ret' in
        check_int64 b (bytes_read + 1) extended)
    else more

unfoldable pub load_int64 : List ℕ → Decoded
load_int64 buf = decode_int64_loop buf 0 0 0

-- What DecodeInt33AsInt64 does behind its loop, with the last byte read and the shift reached.
unfoldable pub finish_int33 : ℕ → ℕ → ℕ → ℕ → Decoded
finish_int33 b shift bytes_read ret =
    let mask33 = 2 ^ 33 - 1 in
    let extended =
      if ltb shift 33 && bit_and b 0x40 == 0x40
      then bit_or ret (mask33 * 2 ^ shift % 2 ^ 64)
      else ret in
    let masked = bit_and extended mask33 in
    let result = if ltb 0 (bit_and masked (2 ^ 32)) then masked + 2 ^ 64 - 2 ^ 33 else masked in
    let unused = bit_and b 0x20 in
    if ltb 5 bytes_read
    then err overflow33
    else if bytes_read == 5 && leb (2 ^ 63) result && not (unused == 0x20)
    then err overflow33
    else if bytes_read == 5 && ltb result (2 ^ 63) && not (unused == 0)
    then err overflow33
    else ok (result, bytes_read)

-- `n` is the number of rounds left of `for shift < 35`. `b` is the byte read last.
unfoldable pub decode_int33_loop : ℕ → List ℕ → ℕ → ℕ → ℕ → ℕ → Decoded
decode_int33_loop zero buf b shift bytes_read ret = finish_int33 b shift bytes_read ret
decode_int33_loop (suc n) [] b shift bytes_read ret = err (read_byte_failed eof)
decode_int33_loop (suc n) (b' ∷ rest) b shift bytes_read ret =
    let ret' = bit_or ret (bit_and b' (2 ^ 64 - 1 - 0x80) * 2 ^ shift % 2 ^ 64) in
    let more = decode_int33_loop n rest b' (shift + 7) (bytes_read + 1) ret' in
    if bit_and b' 0x80 == 0 then finish_int33 b' (shift + 7) (bytes_read + 1) ret' else more

unfoldable pub decode_int33_as_int64 : List ℕ → Decoded
decode_int33_as_int64 buf = decode_int33_loop 5 buf 0 0 0 0
