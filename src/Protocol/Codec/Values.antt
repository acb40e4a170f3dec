-- ===== src/Protocol/Codec/Values.antt =====
-- The reading and writing methods of codec/mod.rs, value by value.
use Prim.Native.Nat.{bit_and}
use infrarust.Common.{
  ℕ, zero, suc, ◌+◌, ◌*◌, ◌/◌, ◌%◌, ◌^◌, ◌≤◌, ◌<◌, ◌≡◌, ◌∙◌, refl, ap, sym, Bool, true, false,
  Option, none, some, List, [], ◌∷◌, ◌++◌, length, take-append, drop-append, length-append,
  Bool-cases, inl, inr, ltb, ◌==◌, arith,
}
use native.Mathlib.Nat.{
  mod-eq_of_lt, mod-lt, div-add-mod, pow-suc, add-mul-mod_self_right, mul-le-mul_right, one-le-pow,
}
use infrarust.Protocol.Words.{IsWord32, is_negative_32}
use infrarust.Protocol.Error.{Result, ok, err, incomplete, io, unexpected_eof}
use infrarust.Protocol.VarInt
use infrarust.Protocol.VarInt.RoundTrip.{decode-encode}
use infrarust.Protocol.Codec.{
  Reader, Writer, ◌>>=◌, write_all, to_be_bytes, from_be_bytes, read_exact, read_u8, read_be,
  read_bool, read_varint_loop, read_var_int, check_text, read_string_body, read_string_bounded,
  max_string_chars, read_array_body, read_byte_array, write_be, write_bool, write_var_int, as_i32,
  write_string, write_byte_array, write_option, read_option,
}
use infrarust.Protocol.Codec.Utf8.{is_utf8, char_count, is_utf8-length}
use infrarust.Protocol.Codec.RoundTrips.{
  RoundTrips, then-RoundTrips, last-RoundTrips, nothing-RoundTrips,
}

-- A slice that ends early is an I/O error of the reader, where `VarInt::decode` wants more bytes.
abbrev pub as_reader : Result (ℕ × List ℕ) → Result (ℕ × List ℕ)
as_reader (ok p) = ok p
as_reader (err (incomplete context)) = err (io unexpected_eof)
as_reader (err e) = err e

read_varint_loop-decode_loop :
    (rounds i val : ℕ) (r : List ℕ)
    → read_varint_loop rounds i val r ≡ as_reader (VarInt.decode_loop rounds i val r)
unfolding read_varint_loop VarInt.decode_loop
read_varint_loop-decode_loop zero i val r = refl
read_varint_loop-decode_loop (suc rounds) i val [] = refl
read_varint_loop-decode_loop (suc rounds) i val (byte ∷ r) =
    elim (Bool-cases (bit_and byte 0x80 == 0)) [
      | inl last ↦ rw last refl
      | inr more ↦
          rw more (read_varint_loop-decode_loop rounds (i + 1) (VarInt.put_group val byte i) r)
    ]

-- read_var_int gives what VarInt's decode gives on every input, except that a number that is cut
-- off is an unexpected end of the input and not an incomplete packet.
pub read_var_int-decode : (r : List ℕ) → read_var_int r ≡ as_reader (VarInt.decode r)
unfolding read_var_int VarInt.decode
read_var_int-decode r = read_varint_loop-decode_loop 5 0 0 r

pub write_var_int-RoundTrips : (v : ℕ) → IsWord32 v → RoundTrips (write_var_int v) read_var_int v
unfolding write_var_int
write_var_int-RoundTrips v h =
    (VarInt.encode v, refl, λ rest. read_var_int-decode _ ∙ ap as_reader (decode-encode v rest h))

-- Big-endian words.
pub length-to_be_bytes : (n v : ℕ) → length (to_be_bytes n v) ≡ n
unfolding to_be_bytes
length-to_be_bytes zero v = refl
length-to_be_bytes (suc n) v = ap suc (length-to_be_bytes n v)

split_byte : (m v : ℕ) → 0 < m → v / m % 256 * m + v % m ≡ v % (m * 256)
split_byte m v h =
    let low : v % m < m = mod-lt v h in
    let byte : v / m % 256 < 256 = mod-lt (v / m) (omega arith) in
    let small : v / m % 256 * m + v % m < m * 256 =
      (let step : suc (v / m % 256) * m ≤ 256 * m = mul-le-mul_right m (omega arith) in
        omega (arith, step)) in
    let whole : v ≡ (v / m % 256 * m + v % m) + v / m / 256 * (m * 256) =
      (let a = div-add-mod v m in
        let b = ap (λ (t : ℕ). t * m) (div-add-mod (v / m) 256) in omega (arith, a, b)) in
    sym (
      ap (λ (t : ℕ). t % (m * 256)) whole
      ∙ add-mul-mod_self_right (v / m % 256 * m + v % m) (v / m / 256) (m * 256)
      ∙ mod-eq_of_lt small)

from_be_bytes-to_be_bytes : (n v : ℕ) → from_be_bytes (to_be_bytes n v) ≡ v % 256 ^ n
unfolding to_be_bytes from_be_bytes
from_be_bytes-to_be_bytes zero v = omega arith
from_be_bytes-to_be_bytes (suc n) v =
    rw (length-to_be_bytes n v, from_be_bytes-to_be_bytes n v, pow-suc 256 n)
      (split_byte (256 ^ n) v (one-le-pow n 256 (omega arith)))

pub read_exact-append :
    (bytes rest : List ℕ) → read_exact (length bytes) (bytes ++ rest) ≡ ok (bytes, rest)
unfolding read_exact
read_exact-append bytes rest =
    let enough : ltb (length (bytes ++ rest)) (length bytes) ≡ false =
      ground (arith, length-append bytes rest) in
    rw (enough, take-append bytes rest, drop-append bytes rest) refl

pub write_all-RoundTrips :
    (n : ℕ) (bytes : List ℕ) → n ≡ length bytes → RoundTrips (write_all bytes) (read_exact n) bytes
write_all-RoundTrips n bytes e = (bytes, refl, λ rest. rw e (read_exact-append bytes rest))

pub write_be-RoundTrips : (n v : ℕ) → v < 256 ^ n → RoundTrips (write_be n v) (read_be n) v
unfolding write_be read_be
write_be-RoundTrips n v h =
    let value : from_be_bytes (to_be_bytes n v) ≡ v =
      from_be_bytes-to_be_bytes n v ∙ mod-eq_of_lt h in
    rw value at (
      last-RoundTrips (write_all (to_be_bytes n v)) (read_exact n) from_be_bytes (to_be_bytes n v)
        (write_all-RoundTrips n (to_be_bytes n v) (sym (length-to_be_bytes n v))))

pub write_bool-RoundTrips : (b : Bool) → RoundTrips (write_bool b) read_bool b
unfolding write_bool read_bool read_u8
write_bool-RoundTrips true = (1 ∷ [], refl, λ rest. refl)
write_bool-RoundTrips false = (0 ∷ [], refl, λ rest. refl)

-- A string that can be sent under a limit of `max_chars`.
abbrev pub IsText : ℕ → List ℕ → Type 0
IsText max_chars s =
    (is_utf8 s ≡ true) × ((char_count s ≤ max_chars) × (char_count s ≤ max_string_chars))

-- A string of valid UTF-8 with at most 32767 characters is written without an error, and
-- read_string_bounded takes it back from the front of any input if its limit admits the
-- characters.
pub write_string-RoundTrips :
    (max_chars : ℕ) (s : List ℕ)
    → IsText max_chars s
    → RoundTrips (write_string s) (read_string_bounded max_chars) s
unfolding write_string read_string_bounded read_string_body check_text
write_string-RoundTrips max_chars s (utf8, (short, within)) =
    let bytes_le = is_utf8-length s utf8 in
    let sendable : ltb max_string_chars (char_count s) ≡ false = ground arith in
    let len : as_i32 (length s) ≡ length s = mod-eq_of_lt (omega arith) in
    let positive : is_negative_32 (length s) ≡ false = ground arith in
    let bounded : ltb (max_chars * 4) (length s) ≡ false = ground arith in
    let few : ltb max_chars (char_count s) ≡ false = ground arith in
    let word : IsWord32 (length s) = omega arith in
    rw (sendable, len)
      (then-RoundTrips (write_var_int (length s)) (write_all s) read_var_int
        (read_string_body max_chars) (length s) s (write_var_int-RoundTrips (length s) word)
        (s, refl, λ rest. rw (positive, bounded, ◌>>=◌, read_exact-append s rest, utf8, few) refl))

pub write_byte_array-RoundTrips :
    (max_len : ℕ) (bytes : List ℕ)
    → length bytes ≤ max_len
    → length bytes < 2 ^ 31
    → RoundTrips (write_byte_array bytes) (read_byte_array max_len) bytes
unfolding write_byte_array read_byte_array read_array_body
write_byte_array-RoundTrips max_len bytes within word =
    let len : as_i32 (length bytes) ≡ length bytes = mod-eq_of_lt (omega arith) in
    let positive : is_negative_32 (length bytes) ≡ false = ground arith in
    let bounded : ltb max_len (length bytes) ≡ false = ground arith in
    rw len (
      then-RoundTrips (write_var_int (length bytes)) (write_all bytes) read_var_int
        (read_array_body max_len) (length bytes) bytes
        (write_var_int-RoundTrips (length bytes) (omega arith))
        (bytes, refl, λ rest. rw (positive, bounded) (read_exact-append bytes rest)))

-- What is written of an optional value.
abbrev pub OptionAll {κ} : {A : Type 0} → (A → Type κ) → Option A → Type κ
OptionAll P none = Unit {κ}
OptionAll P (some a) = P a

pub write_option-RoundTrips {κ} :
    {A : Type 0} (write : A → Writer) (read : Reader A) (P : A → Type κ)
    → ((a : A) → P a → RoundTrips (write a) read a)
    → (o : Option A) → OptionAll P o
    → RoundTrips (write_option write o) (read_option read) o
unfolding write_option read_option write_bool
write_option-RoundTrips write read P h none p =
    then-RoundTrips (write_bool false) (ok []) read_bool _ false none (write_bool-RoundTrips false)
      (nothing-RoundTrips none)
write_option-RoundTrips write read P h (some a) p =
    then-RoundTrips (write_bool true) (write a) read_bool _ true (some a)
      (write_bool-RoundTrips true) (last-RoundTrips (write a) read some a (h a p))

pub write_u8-RoundTrips : (b : ℕ) → RoundTrips (write_all (b ∷ [])) read_u8 b
unfolding read_u8
write_u8-RoundTrips b = (b ∷ [], refl, λ rest. refl)
