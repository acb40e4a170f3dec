-- ===== src/Protocol/Packets/Login/Encryption.antt =====
-- `CEncryptionRequest`, `SEncryptionResponse` and `CSetCompression` of packets/login.rs.
use infrarust.Common.{
  ℕ, ◌^◌, ◌≤◌, ◌<◌, ◌≡◌, refl, Bool, true, false, Option, none, some, List, length, ltb, leb,
  if◌then◌else◌, arith,
}
use infrarust.Protocol.Words.{IsWord32}
use infrarust.Protocol.Version.{
  ProtocolVersion, no_less_than, less_than, v1_8, v1_19, v1_19_3, v1_20_5,
}
use infrarust.Protocol.Codec.{
  Reader, Writer, ◌>>=◌, return, ◌>>◌, nothing_written, read_be, read_bool, read_var_int,
  read_string_bounded, read_byte_array, write_all, write_be, write_bool, write_var_int,
  write_string, write_byte_array,
}
use infrarust.Protocol.Codec.RoundTrips.{
  RoundTrips, nothing-RoundTrips, then-RoundTrips, bind-RoundTrips, last-RoundTrips, if-RoundTrips,
  same-RoundTrips,
}
use infrarust.Protocol.Codec.Values.{
  write_var_int-RoundTrips, read_exact-append, write_be-RoundTrips, write_bool-RoundTrips, IsText,
  write_string-RoundTrips, write_byte_array-RoundTrips, OptionAll,
}
use infrarust.Protocol.Packets.Login.{
  read_short_body, read_byte_array_short, write_byte_array_short,
}

pub record CEncryptionRequest : Type 0 where
  pub server_id : List ℕ
  pub public_key : List ℕ
  pub verify_token : List ℕ
  pub should_authenticate : Bool

-- The byte arrays of a version: 16-bit lengths before 1.8, a bound on the length from then on.
unfoldable pub read_sized : ProtocolVersion → ℕ → Reader (List ℕ)
read_sized version max_len =
    if no_less_than version v1_8 then read_byte_array max_len else read_byte_array_short

unfoldable pub write_sized : ProtocolVersion → List ℕ → Writer
write_sized version bytes =
    if no_less_than version v1_8 then write_byte_array bytes else write_byte_array_short bytes

unfoldable pub read_should_authenticate : ProtocolVersion → Reader Bool
read_should_authenticate version = if no_less_than version v1_20_5 then read_bool else return true

unfoldable pub decode_encryption_request : ProtocolVersion → Reader CEncryptionRequest
decode_encryption_request version = do
  server_id ← read_string_bounded 20
  public_key ← read_sized version 256
  verify_token ← read_sized version 16
  should_authenticate ← read_should_authenticate version
  return (record {
    server_id = server_id;
    public_key = public_key;
    verify_token = verify_token;
    should_authenticate = should_authenticate;
  })

unfoldable pub encode_encryption_request : ProtocolVersion → CEncryptionRequest → Writer
encode_encryption_request version p =
    write_string p.server_id
    >> (write_sized version p.public_key
        >> (write_sized version p.verify_token
            >> (if no_less_than version v1_20_5
                then write_bool p.should_authenticate
                else nothing_written)))

pub record SEncryptionResponse : Type 0 where
  pub shared_secret : List ℕ
  pub verify_token : List ℕ
  pub salt : Option ℕ

-- 1.19 to 1.19.2: a flag, and the salt where the flag is `false`.
unfoldable pub has_salt : ProtocolVersion → Bool
has_salt version = if no_less_than version v1_19 then less_than version v1_19_3 else false

unfoldable pub read_salt : Reader (Option ℕ)
read_salt =
    read_bool >>= λ plain. if plain then return none else (read_be 8 >>= λ salt. return (some salt))

unfoldable pub write_salt : Option ℕ → Writer
write_salt (some salt) = write_bool false >> write_be 8 salt
write_salt none = write_bool true

abbrev pub max_verify_token : ProtocolVersion → ℕ
max_verify_token version = if no_less_than version v1_19 then 256 else 128

unfoldable pub decode_response_1_8 : ProtocolVersion → Reader SEncryptionResponse
decode_response_1_8 version = do
  shared_secret ← read_byte_array 128
  salt ← (if has_salt version then read_salt else return none)
  verify_token ← read_byte_array (max_verify_token version)
  return (record { shared_secret = shared_secret; verify_token = verify_token; salt = salt })

unfoldable pub decode_response_1_7 : Reader SEncryptionResponse
decode_response_1_7 = do
  shared_secret ← read_byte_array_short
  verify_token ← read_byte_array_short
  return (record { shared_secret = shared_secret; verify_token = verify_token; salt = none })

unfoldable pub decode_encryption_response : ProtocolVersion → Reader SEncryptionResponse
decode_encryption_response version =
    if no_less_than version v1_8 then decode_response_1_8 version else decode_response_1_7

unfoldable pub encode_encryption_response : ProtocolVersion → SEncryptionResponse → Writer
encode_encryption_response version p =
    if no_less_than version v1_8
    then (write_byte_array p.shared_secret
        >> ((if has_salt version then write_salt p.salt else nothing_written)
            >> write_byte_array p.verify_token))
    else (write_byte_array_short p.shared_secret >> write_byte_array_short p.verify_token)

pub record CSetCompression : Type 0 where
  pub threshold : ℕ

unfoldable pub decode_set_compression : Reader CSetCompression
decode_set_compression = do threshold ← read_var_int; return (record { threshold = threshold })

unfoldable pub encode_set_compression : CSetCompression → Writer
encode_set_compression p = write_var_int p.threshold

-- Written and read back.
write_short-RoundTrips :
    (bytes : List ℕ)
    → length bytes < 2 ^ 15
    → RoundTrips (write_byte_array_short bytes) read_byte_array_short bytes
unfolding write_byte_array_short read_byte_array_short read_short_body
write_short-RoundTrips bytes h =
    let fits : ltb 32767 (length bytes) ≡ false = ground arith in
    let positive : leb (2 ^ 15) (length bytes) ≡ false = ground arith in
    rw fits (
      then-RoundTrips (write_be 2 (length bytes)) (write_all bytes) (read_be 2) read_short_body
        (length bytes) bytes (write_be-RoundTrips 2 (length bytes) (omega arith))
        (bytes, refl, λ rest. rw positive (read_exact-append bytes rest)))

write_sized-RoundTrips :
    (version : ProtocolVersion) (max_len : ℕ) (bytes : List ℕ)
    → length bytes ≤ max_len
    → max_len < 2 ^ 15
    → RoundTrips (write_sized version bytes) (read_sized version max_len) bytes
unfolding write_sized read_sized
write_sized-RoundTrips version max_len bytes h small =
    same-RoundTrips (no_less_than version v1_8) _ _ _ _ bytes
      (λ p. write_byte_array-RoundTrips max_len bytes h (omega arith))
      (λ p. write_short-RoundTrips bytes (omega arith))

pub record IsEncryptionRequest (p : CEncryptionRequest) : Type 0 where
  pub id_text : IsText 20 p.server_id
  pub key_le : length p.public_key ≤ 256
  pub token_le : length p.verify_token ≤ 16

-- What a version's format carries: before 1.20.5 the client always authenticates.
abbrev pub carried_request : ProtocolVersion → CEncryptionRequest → CEncryptionRequest
carried_request version p = record p {
  should_authenticate = if no_less_than version v1_20_5 then p.should_authenticate else true;
}

pub encode_encryption_request-RoundTrips :
    (version : ProtocolVersion) (p : CEncryptionRequest)
    → IsEncryptionRequest p
    → RoundTrips
        (encode_encryption_request version p)
        (decode_encryption_request version)
        (carried_request version p)
unfolding encode_encryption_request decode_encryption_request read_should_authenticate
encode_encryption_request-RoundTrips version p h =
    then-RoundTrips _ _ (read_string_bounded 20) _ p.server_id _
      (write_string-RoundTrips 20 _ h.id_text)
      (then-RoundTrips _ _ (read_sized version 256) _ p.public_key _
        (write_sized-RoundTrips version 256 _ h.key_le (omega arith))
        (then-RoundTrips _ _ (read_sized version 16) _ p.verify_token _
          (write_sized-RoundTrips version 16 _ h.token_le (omega arith))
          (last-RoundTrips _ (read_should_authenticate version) _ _ (
            if-RoundTrips (no_less_than version v1_20_5) _ _ _ _ _ _
              (λ q. write_bool-RoundTrips p.should_authenticate) (λ q. nothing-RoundTrips true)))))

pub record IsEncryptionResponse (p : SEncryptionResponse) : Type 0 where
  pub secret_le : length p.shared_secret ≤ 128
  pub token_le : length p.verify_token ≤ 128
  pub salt_word : OptionAll (λ salt. salt < 2 ^ 64) p.salt

abbrev pub carried_response : ProtocolVersion → SEncryptionResponse → SEncryptionResponse
carried_response version p =
    if no_less_than version v1_8
    then record p { salt = if has_salt version then p.salt else none }
    else record p { salt = none }

write_salt-RoundTrips :
    (salt : Option ℕ)
    → OptionAll (λ (s : ℕ). s < 2 ^ 64) salt
    → RoundTrips (write_salt salt) read_salt salt
unfolding write_salt read_salt
write_salt-RoundTrips none h =
    bind-RoundTrips _ read_bool _ true none (write_bool-RoundTrips true) (λ rest. refl)
write_salt-RoundTrips (some salt) h =
    then-RoundTrips _ _ read_bool _ false (some salt) (write_bool-RoundTrips false)
      (last-RoundTrips _ (read_be 8) some salt (write_be-RoundTrips 8 salt (omega (arith, h))))

pub encode_encryption_response-RoundTrips :
    (version : ProtocolVersion) (p : SEncryptionResponse)
    → IsEncryptionResponse p
    → RoundTrips
        (encode_encryption_response version p)
        (decode_encryption_response version)
        (carried_response version p)
unfolding encode_encryption_response decode_encryption_response decode_response_1_8
    decode_response_1_7
encode_encryption_response-RoundTrips version p h =
    if-RoundTrips (no_less_than version v1_8) _ _ _ _ _ _
      (λ q.
        then-RoundTrips _ _ (read_byte_array 128) _ p.shared_secret _
          (write_byte_array-RoundTrips 128 _ h.secret_le (omega (arith, h.secret_le)))
          (then-RoundTrips _ _ (if has_salt version then read_salt else return none) _ _ _
            (if-RoundTrips (has_salt version) _ _ _ _ _ _
              (λ _. write_salt-RoundTrips p.salt h.salt_word) (λ _. nothing-RoundTrips none))
            (last-RoundTrips _ (read_byte_array (max_verify_token version)) _ p.verify_token (
              write_byte_array-RoundTrips (max_verify_token version) _ (ground (arith, h.token_le))
                (omega (arith, h.token_le))))))
      (λ q.
        then-RoundTrips _ _ read_byte_array_short _ p.shared_secret _
          (write_short-RoundTrips _ (omega (arith, h.secret_le)))
          (last-RoundTrips _ read_byte_array_short _ p.verify_token
            (write_short-RoundTrips _ (omega (arith, h.token_le)))))

pub encode_set_compression-RoundTrips :
    (p : CSetCompression)
    → IsWord32 p.threshold
    → RoundTrips (encode_set_compression p) decode_set_compression p
unfolding encode_set_compression decode_set_compression
encode_set_compression-RoundTrips p h =
    last-RoundTrips _ read_var_int _ p.threshold (write_var_int-RoundTrips p.threshold h)
