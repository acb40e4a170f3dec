-- ===== src/Protocol/Packets/Login.antt =====
-- packets/login.rs: the packets of the login state, in the format of each protocol version.
pub mod Start
pub mod Encryption
pub mod Success
pub mod Plugin
use infrarust.Common.{
  ℕ, ◌+◌, ◌*◌, ◌/◌, ◌%◌, ◌^◌, Bool, true, false, Option, none, some, List, [], ◌∷◌, ◌++◌, length,
  ltb, leb, ◌==◌, if◌then◌else◌,
}
use infrarust.Protocol.Words.{sign_extend_32}
use infrarust.Protocol.Error.{Result, ok, err, invalid, too_large}
use infrarust.Protocol.VarInt
use infrarust.Protocol.Version.{
  ProtocolVersion, no_less_than, less_than, v1_7_6, v1_8, v1_13, v1_16, v1_19, v1_19_1, v1_19_3,
  v1_20_2, v1_20_5, v1_21,
}
use infrarust.Protocol.Codec.{
  Reader, Writer, ◌>>=◌, return, fail, ◌>>◌, nothing_written, to_be_bytes, read_exact, read_be,
  read_bool, read_var_int, read_string, read_string_bounded, read_byte_array, read_remaining,
  read_option, read_many, write_all, write_be, write_bool, write_var_int, as_i32, write_string,
  write_byte_array, write_option, write_many,
}

-- `read_uuid` and `write_uuid`: a UUID is its 128-bit value.
abbrev pub read_uuid : Reader ℕ
read_uuid = read_be 16

abbrev pub write_uuid : ℕ → Writer
write_uuid uuid = write_be 16 uuid

-- The arrays of 1.7, with a length of 16 bits.
unfoldable pub read_short_body : ℕ → Reader (List ℕ)
read_short_body len =
    if leb (2 ^ 15) len then fail (invalid "negative byte array length") else read_exact len

unfoldable pub read_byte_array_short : Reader (List ℕ)
read_byte_array_short = read_be 2 >>= read_short_body

unfoldable pub write_byte_array_short : List ℕ → Writer
write_byte_array_short bytes =
    if ltb 32767 (length bytes)
    then err (too_large 32767 (length bytes))
    else (write_be 2 (length bytes) >> write_all bytes)

-- The UUIDs of 1.16, as four 32-bit integers.
unfoldable pub read_uuid_int_array : Reader ℕ
read_uuid_int_array = do
  a ← read_be 4
  b ← read_be 4
  c ← read_be 4
  d ← read_be 4
  return ((a * 2 ^ 32 + b) * 2 ^ 64 + (c * 2 ^ 32 + d))

unfoldable pub write_uuid_int_array : ℕ → Writer
write_uuid_int_array uuid =
    let msb = uuid / 2 ^ 64 in
    let lsb = uuid % 2 ^ 64 in
    write_be 4 (msb / 2 ^ 32)
    >> (write_be 4 (msb % 2 ^ 32) >> (write_be 4 (lsb / 2 ^ 32) >> write_be 4 (lsb % 2 ^ 32)))

pub record SLoginStart : Type 0 where
  pub name : List ℕ
  pub uuid : Option ℕ
  pub signature_data : Option (List ℕ)

-- A player's key, read as opaque bytes: a timestamp, a public key and a signature.
abbrev pub player_key : ℕ → List ℕ → List ℕ → List ℕ
player_key ts pk sig =
    to_be_bytes 8 ts
    ++ (VarInt.encode (as_i32 (length pk)) ++ (pk ++ (VarInt.encode (as_i32 (length sig)) ++ sig)))

unfoldable pub read_player_key : Reader (List ℕ)
read_player_key = do
  ts ← read_be 8
  pk ← read_byte_array 512
  sig ← read_byte_array 4096
  return (player_key ts pk sig)

unfoldable pub read_signature_data : ProtocolVersion → Reader (Option (List ℕ))
read_signature_data version =
    if less_than version v1_19_3 then read_option read_player_key else return none

unfoldable pub read_login_uuid : ProtocolVersion → Reader (Option ℕ)
read_login_uuid version =
    if no_less_than version v1_20_2
    then (read_uuid >>= λ uuid. return (some uuid))
    else if no_less_than version v1_19_1
    then read_option read_uuid
    else return none

unfoldable pub decode_login_keys : ProtocolVersion → List ℕ → Reader SLoginStart
decode_login_keys version name = do
  signature_data ← read_signature_data version
  uuid ← read_login_uuid version
  return (record { name = name; uuid = uuid; signature_data = signature_data })

unfoldable pub decode_login_start_rest : ProtocolVersion → List ℕ → Reader SLoginStart
decode_login_start_rest version name =
    if no_less_than version v1_19
    then decode_login_keys version name
    else return (record { name = name; uuid = none; signature_data = none })

unfoldable pub check_name : ProtocolVersion → List ℕ → Reader SLoginStart
check_name version [] = fail (invalid "empty username in SLoginStart")
check_name version (c ∷ name) = decode_login_start_rest version (c ∷ name)

unfoldable pub decode_login_start : ProtocolVersion → Reader SLoginStart
decode_login_start version = read_string_bounded 16 >>= check_name version

unfoldable pub write_signature_data : ProtocolVersion → Option (List ℕ) → Writer
write_signature_data version signature_data =
    if less_than version v1_19_3 then write_option write_all signature_data else nothing_written

-- `unwrap_or(Uuid::nil())`.
abbrev pub uuid_or_nil : Option ℕ → ℕ
uuid_or_nil (some uuid) = uuid
uuid_or_nil none = 0

unfoldable pub write_login_uuid : ProtocolVersion → Option ℕ → Writer
write_login_uuid version uuid =
    if no_less_than version v1_20_2
    then write_uuid (uuid_or_nil uuid)
    else if no_less_than version v1_19_1
    then write_option write_uuid uuid
    else nothing_written

unfoldable pub encode_login_start : ProtocolVersion → SLoginStart → Writer
encode_login_start version p =
    write_string p.name
    >> (if no_less_than version v1_19
        then (write_signature_data version p.signature_data >> write_login_uuid version p.uuid)
        else nothing_written)
