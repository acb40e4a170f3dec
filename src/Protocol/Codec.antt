-- ===== src/Protocol/Codec.antt =====
-- codec/mod.rs and codec/types.rs: the primitive values on the wire. A reader takes a value from the
-- front of a slice; a writer is the bytes it appends to a buffer, or the error it ends with. A
-- `String` is its bytes, as in Rust; integers and floats are their bit patterns.
pub mod Utf8
pub mod RoundTrips
pub mod Values
mod Tests
use Prim.Native.Nat.{bit_and}
use infrarust.Common.{
  ℕ, zero, suc, ◌+◌, ◌*◌, ◌/◌, ◌%◌, ◌^◌, Bool, true, false, Option, none, some, List, [], ◌∷◌, ◌++◌,
  take, drop, length, ltb, ◌==◌, if◌then◌else◌,
}
use infrarust.Protocol.Words.{is_negative_32}
use infrarust.Protocol.Error.{
  ProtocolError, Result, ok, err, invalid, too_large, io, unexpected_eof,
}
use infrarust.Protocol.VarInt
use infrarust.Protocol.Codec.Utf8.{is_utf8, char_count}

-- `&mut &[u8]` as the argument of a reading method, and what a writing method appends.
abbrev pub Reader : Type 0 → Type 0
Reader A = List ℕ → Result (A × List ℕ)

abbrev pub Writer : Type 0
Writer = Result (List ℕ)

-- `?` between two reads, and between two writes.
infixl 5 ◌>>=◌
abbrev pub ◌>>=◌ : {A B : Type 0} → Reader A → (A → Reader B) → Reader B
(read >>= k) r = elim (read r) [ ok (a, rest) ↦ k a rest | err e ↦ err e ]

abbrev pub return : {A : Type 0} → A → Reader A
return a r = ok (a, r)

abbrev pub fail : {A : Type 0} → ProtocolError → Reader A
fail e r = err e

infixr 6 ◌>>◌
abbrev pub ◌>>◌ : Writer → Writer → Writer
ok bytes >> ok more = ok (bytes ++ more)
ok bytes >> err e = err e
err e >> w = err e

abbrev pub nothing_written : Writer
nothing_written = ok []

-- `to_be_bytes` of a word of `n` bytes, and `from_be_bytes`.
unfoldable pub to_be_bytes : ℕ → ℕ → List ℕ
to_be_bytes zero v = []
to_be_bytes (suc n) v = (v / 256 ^ n % 256) ∷ to_be_bytes n v

unfoldable pub from_be_bytes : List ℕ → ℕ
from_be_bytes [] = 0
from_be_bytes (b ∷ bytes) = b * 256 ^ length bytes + from_be_bytes bytes

-- `Read::read_exact` of a slice into `count` bytes.
unfoldable pub read_exact : ℕ → Reader (List ℕ)
read_exact count r =
    if ltb (length r) count then err (io unexpected_eof) else ok (take count r, drop count r)

-- `read_u8`, and `read_u16_be` and its like for a word of `n` bytes.
unfoldable pub read_u8 : Reader ℕ
read_u8 [] = err (io unexpected_eof)
read_u8 (byte ∷ r) = ok (byte, r)

unfoldable pub read_be : ℕ → Reader ℕ
read_be n = read_exact n >>= λ bytes. return (from_be_bytes bytes)

unfoldable pub read_bool : Reader Bool
read_bool = read_u8 >>= λ byte.
    if byte == 0
    then return false
    else if byte == 1
    then return true
    else fail (invalid "bool value must be 0 or 1")

-- The loop of `read_varint_from_reader`: the rounds left, the round's number, the value.
unfoldable pub read_varint_loop : ℕ → ℕ → ℕ → Reader ℕ
read_varint_loop zero i val r = err (invalid "VarInt too large (> 5 bytes)")
read_varint_loop (suc rounds) i val [] = err (io unexpected_eof)
read_varint_loop (suc rounds) i val (byte ∷ r) =
    let val' = VarInt.put_group val byte i in
    let more = read_varint_loop rounds (i + 1) val' r in
    if bit_and byte 0x80 == 0 then ok (val', r) else more

unfoldable pub read_var_int : Reader ℕ
read_var_int r = read_varint_loop VarInt.max_size 0 0 r

-- `read_string_bounded_from_reader`.
unfoldable pub check_text : ℕ → List ℕ → Reader (List ℕ)
check_text max_chars s r =
    if is_utf8 s
    then (if ltb max_chars (char_count s)
        then err (too_large max_chars (char_count s))
        else ok (s, r))
    else err (invalid "invalid UTF-8 in string")

unfoldable pub read_string_body : ℕ → ℕ → Reader (List ℕ)
read_string_body max_chars raw_len =
    if is_negative_32 raw_len
    then fail (invalid "negative length")
    else if ltb (max_chars * 4) raw_len
    then fail (too_large (max_chars * 4) raw_len)
    else (read_exact raw_len >>= check_text max_chars)

unfoldable pub read_string_bounded : ℕ → Reader (List ℕ)
read_string_bounded max_chars = read_var_int >>= read_string_body max_chars

abbrev pub max_string_chars : ℕ
max_string_chars = 32767

abbrev pub read_string : Reader (List ℕ)
read_string = read_string_bounded max_string_chars

-- `read_byte_array`, and `read_remaining`.
unfoldable pub read_array_body : ℕ → ℕ → Reader (List ℕ)
read_array_body max_len raw_len =
    if is_negative_32 raw_len
    then fail (invalid "negative length")
    else if ltb max_len raw_len
    then fail (too_large max_len raw_len)
    else read_exact raw_len

unfoldable pub read_byte_array : ℕ → Reader (List ℕ)
read_byte_array max_len = read_var_int >>= read_array_body max_len

abbrev pub read_remaining : Reader (List ℕ)
read_remaining r = ok (r, [])

-- The writing methods.
abbrev pub write_all : List ℕ → Writer
write_all bytes = ok bytes

unfoldable pub write_be : ℕ → ℕ → Writer
write_be n v = write_all (to_be_bytes n v)

unfoldable pub write_bool : Bool → Writer
write_bool true = write_all (1 ∷ [])
write_bool false = write_all (0 ∷ [])

unfoldable pub write_var_int : ℕ → Writer
write_var_int v = write_all (VarInt.encode v)

-- `len() as i32`.
abbrev pub as_i32 : ℕ → ℕ
as_i32 n = n % 2 ^ 32

-- `encode_string`.
unfoldable pub write_string : List ℕ → Writer
write_string s =
    if ltb max_string_chars (char_count s)
    then err (too_large max_string_chars (char_count s))
    else (write_var_int (as_i32 (length s)) >> write_all s)

unfoldable pub write_byte_array : List ℕ → Writer
write_byte_array bytes = write_var_int (as_i32 (length bytes)) >> write_all bytes

-- A `bool` in front of an optional value.
unfoldable pub write_option : {A : Type 0} → (A → Writer) → Option A → Writer
write_option write (some a) = write_bool true >> write a
write_option write none = write_bool false

unfoldable pub read_option : {A : Type 0} → Reader A → Reader (Option A)
read_option read =
    read_bool >>= λ present. if present then (read >>= λ a. return (some a)) else return none

-- The loop that reads `count` values, and the one that writes a sequence.
unfoldable pub read_many : {A : Type 0} → Reader A → ℕ → Reader (List A)
read_many read zero = return []
read_many read (suc count) = read >>= λ a. read_many read count >>= λ rest. return (a ∷ rest)

unfoldable pub write_many : {A : Type 0} → (A → Writer) → List A → Writer
write_many write [] = nothing_written
write_many write (a ∷ rest) = write a >> write_many write rest
