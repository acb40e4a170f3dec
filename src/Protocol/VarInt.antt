-- ===== src/Protocol/VarInt.antt =====
-- codec/varint.rs: a signed 32-bit integer in one to five bytes of seven bits each. The integer is
-- its bit pattern; the writer is a buffer, so that an encoding is the list of bytes written.
mod Spread
pub mod Encode
pub mod Decode
pub mod RoundTrip
mod Tests
use Prim.Native.Nat.{bit_and, bit_or}
use infrarust.Common.{
  ℕ, zero, suc, ◌+◌, ◌-◌, ◌*◌, ◌/◌, ◌%◌, ◌^◌, List, [], ◌∷◌, take, ◌==◌, if◌then◌else◌,
}
use infrarust.Protocol.Words.{sign_extend_32, shr, shl, leading_zeros, to_le_bytes}
use infrarust.Protocol.Error.{Result, ok, err, incomplete, invalid}

abbrev pub max_size : ℕ
max_size = 5

-- `0` is one byte; otherwise the number of the highest bit decides.
unfoldable pub written_size : ℕ → ℕ
written_size v = if v == 0 then 1 else (31 - leading_zeros 32 v) / 7 + 1

-- The five groups of seven bits, spread over the bytes of a `u64`.
unfoldable pub spread : ℕ → ℕ
spread x =
    bit_or
      (bit_or
        (bit_or (bit_or (bit_and x 0x7f) (shl 64 (bit_and x 0x3f80) 1))
          (shl 64 (bit_and x 0x001f_c000) 2))
        (shl 64 (bit_and x 0x0fe0_0000) 3))
      (shl 64 (bit_and x 0xf000_0000) 4)

abbrev pub msbs : ℕ
msbs = 0x8080_8080_8080_8080

-- `encode`: the continuation bits are set in one go, and the low `bytes_needed` bytes are written.
unfoldable pub encode : ℕ → List ℕ
encode v =
    let stage1 = spread (sign_extend_32 v) in
    let unused_bytes = shr (leading_zeros 64 stage1 - 1) 3 in
    let bytes_needed = 8 - unused_bytes in
    let msbmask = shr 0xffff_ffff_ffff_ffff ((8 - bytes_needed + 1) * 2 ^ 3 - 1) in
    let merged = bit_or stage1 (bit_and msbs msbmask) in take bytes_needed (to_le_bytes 8 merged)

-- `val |= (byte & 0x7F) << (i * 7)` on `i32`.
abbrev pub put_group : ℕ → ℕ → ℕ → ℕ
put_group val byte i = bit_or val (shl 32 (bit_and byte 0x7f) (i * 7))

-- The `for` loop of `decode`: the rounds left, the round's number, the value, the cursor.
unfoldable pub decode_loop : ℕ → ℕ → ℕ → List ℕ → Result (ℕ × List ℕ)
decode_loop zero i val r = err (invalid "VarInt too large (> 5 bytes)")
decode_loop (suc rounds) i val [] = err (incomplete "VarInt")
decode_loop (suc rounds) i val (byte ∷ r) =
    let val' = put_group val byte i in
    let more = decode_loop rounds (i + 1) val' r in
    if bit_and byte 0x80 == 0 then ok (val', r) else more

unfoldable pub decode : List ℕ → Result (ℕ × List ℕ)
decode r = decode_loop max_size 0 0 r

-- `VarIntDecodeStatus`, and the result of `decode_partial`.
pub data Partial : Type 0 where
  done : ℕ → ℕ → Partial
  incomplete_status : Partial
  too_large_status : Partial

-- The loop of `decode_partial`; the list is the buffer from index `i` on.
unfoldable pub partial_loop : ℕ → ℕ → ℕ → List ℕ → Partial
partial_loop zero i val buf = too_large_status
partial_loop (suc rounds) i val [] = incomplete_status
partial_loop (suc rounds) i val (byte ∷ buf) =
    let val' = put_group val byte i in
    let more = partial_loop rounds (i + 1) val' buf in
    if bit_and byte 0x80 == 0 then done val' (i + 1) else more

unfoldable pub decode_partial : List ℕ → Partial
decode_partial buf = partial_loop max_size 0 0 buf
