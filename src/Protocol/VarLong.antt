-- ===== src/Protocol/VarLong.antt =====
-- codec/varlong.rs: a signed 64-bit integer, as its bit pattern, in one to ten bytes of seven bits
-- each. The encoder's loop has fuel for the ten bytes that a 64-bit pattern needs at most.
pub mod RoundTrip
mod Tests
use Prim.Native.Nat.{bit_and, bit_or}
use infrarust.Common.{
  ℕ, zero, suc, ◌+◌, ◌-◌, ◌*◌, ◌/◌, ◌%◌, ◌^◌, List, [], ◌∷◌, ◌==◌, if◌then◌else◌,
}
use infrarust.Protocol.Words.{shr, shl, leading_zeros}
use infrarust.Protocol.Error.{Result, ok, err, incomplete, invalid}

abbrev pub max_size : ℕ
max_size = 10

abbrev pub written_size : ℕ → ℕ
written_size v = if v == 0 then 1 else (63 - leading_zeros 64 v) / 7 + 1

-- The `loop` of `encode`.
unfoldable pub encode_loop : ℕ → ℕ → List ℕ
encode_loop zero val = []
encode_loop (suc fuel) val =
    let byte = bit_and val 0x7f in
    let val' = shr val 7 in
    let rest = encode_loop fuel val' in if val' == 0 then byte ∷ [] else bit_or byte 0x80 ∷ rest

pub encode : ℕ → List ℕ
encode v = encode_loop 10 v

-- `val |= (i64::from(byte) & 0x7F) << (i * 7)`
abbrev pub put_group : ℕ → ℕ → ℕ → ℕ
put_group val byte i = bit_or val (shl 64 (bit_and byte 0x7f) (i * 7))

unfoldable pub decode_loop : ℕ → ℕ → ℕ → List ℕ → Result (ℕ × List ℕ)
decode_loop zero i val r = err (invalid "VarLong too large (> 10 bytes)")
decode_loop (suc rounds) i val [] = err (incomplete "VarLong")
decode_loop (suc rounds) i val (byte ∷ r) =
    let val' = put_group val byte i in
    let more = decode_loop rounds (i + 1) val' r in
    if bit_and byte 0x80 == 0 then ok (val', r) else more

pub decode : List ℕ → Result (ℕ × List ℕ)
decode r = decode_loop max_size 0 0 r
