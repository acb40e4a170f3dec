-- ===== src/Protocol/Packets/Login/Success.antt =====
-- `CLoginSuccess` of packets/login.rs. The text form of a UUID is the `uuid` crate's.
use infrarust.Common.{
  ℕ, ◌+◌, ◌*◌, ◌/◌, ◌%◌, ◌^◌, ◌<◌, ◌≡◌, refl, Bool, true, false, Option, none, some, List, [],
  length, All, ◌==◌, if◌then◌else◌, arith,
}
use infrarust.Protocol.Words.{sign_extend_32}
use infrarust.Protocol.Error.{invalid}
use infrarust.Protocol.Version.{ProtocolVersion, no_less_than, v1_7_6, v1_16, v1_19, v1_20_5, v1_21}
use infrarust.Protocol.Codec.{
  Reader, Writer, ◌>>=◌, return, fail, ◌>>◌, nothing_written, read_be, read_bool, read_var_int,
  read_string, read_string_bounded, read_option, read_many, write_bool, write_var_int,
  max_string_chars, as_i32, write_string, write_option, write_many,
}
use infrarust.Protocol.Codec.RoundTrips.{
  RoundTrips, nothing-RoundTrips, then-RoundTrips, bind-RoundTrips, last-RoundTrips, if-RoundTrips,
  same-RoundTrips, write_many-RoundTrips,
}
use infrarust.Protocol.Codec.Values.{
  write_var_int-RoundTrips, write_be-RoundTrips, write_bool-RoundTrips, IsText,
  write_string-RoundTrips, OptionAll, write_option-RoundTrips,
}
use infrarust.Protocol.Packets.Login.{
  read_uuid, write_uuid, read_uuid_int_array, write_uuid_int_array,
}
use infrarust.Protocol.Packets.Login.Start.{IsUuid, uuid-RoundTrips}

pub record Property : Type 0 where
  pub name : List ℕ
  pub value : List ℕ
  pub signature : Option (List ℕ)

pub record CLoginSuccess : Type 0 where
  pub uuid : ℕ
  pub username : List ℕ
  pub properties : List Property
  pub strict_error_handling : Bool

-- `Uuid::to_string`, `Uuid::as_simple().to_string()` and `Uuid::parse_str`.
pub record UuidText : Type 0 where
  pub hyphenated : ℕ → List ℕ
  pub simple : ℕ → List ℕ
  pub parse_str : List ℕ → Option ℕ

unfoldable pub read_property : Reader Property
read_property = do
  name ← read_string
  value ← read_string
  signature ← read_option read_string
  return (record { name = name; value = value; signature = signature })

unfoldable pub write_property : Property → Writer
write_property p =
    write_string p.name >> (write_string p.value >> write_option write_string p.signature)

-- A count that is negative is a huge `usize`.
unfoldable pub read_properties : ProtocolVersion → Reader (List Property)
read_properties version =
    if no_less_than version v1_19
    then (read_var_int >>= λ count. read_many read_property (sign_extend_32 count))
    else return []

unfoldable pub write_properties : ProtocolVersion → List Property → Writer
write_properties version properties =
    if no_less_than version v1_19
    then (write_var_int (as_i32 (length properties)) >> write_many write_property properties)
    else nothing_written

-- Only 1.20.5 and 1.21.
unfoldable pub has_strict : ProtocolVersion → Bool
has_strict version = if version == v1_20_5 then true else version == v1_21

unfoldable pub read_strict : ProtocolVersion → Reader Bool
read_strict version = if has_strict version then read_bool else return false

module _ (text : UuidText) where
  unfoldable pub parse_uuid : List ℕ → Reader ℕ
  parse_uuid s = elim (text.parse_str s) [
    | some uuid ↦ return uuid
    | none ↦ fail (invalid "invalid UUID string")
  ]

  unfoldable pub read_versioned_uuid : ProtocolVersion → Reader ℕ
  read_versioned_uuid version =
      if no_less_than version v1_19
      then read_uuid
      else if no_less_than version v1_16
      then read_uuid_int_array
      else if no_less_than version v1_7_6
      then (read_string_bounded 36 >>= parse_uuid)
      else (read_string_bounded 32 >>= parse_uuid)

  unfoldable pub write_versioned_uuid : ProtocolVersion → ℕ → Writer
  write_versioned_uuid version uuid =
      if no_less_than version v1_19
      then write_uuid uuid
      else if no_less_than version v1_16
      then write_uuid_int_array uuid
      else if no_less_than version v1_7_6
      then write_string (text.hyphenated uuid)
      else write_string (text.simple uuid)

  unfoldable pub decode_login_success : ProtocolVersion → Reader CLoginSuccess
  decode_login_success version = do
    uuid ← read_versioned_uuid version
    username ← read_string_bounded 16
    properties ← read_properties version
    strict_error_handling ← read_strict version
    return (record {
      uuid = uuid;
      username = username;
      properties = properties;
      strict_error_handling = strict_error_handling;
    })

  unfoldable pub encode_login_success : ProtocolVersion → CLoginSuccess → Writer
  encode_login_success version p =
      write_versioned_uuid version p.uuid
      >> (write_string p.username
          >> (write_properties version p.properties
              >> (if has_strict version
                  then write_bool p.strict_error_handling
                  else nothing_written)))

  -- The two text forms of a UUID fit their fields and are parsed back.
  pub record UuidTextLaws (uuid : ℕ) : Type 0 where
    pub hyphenated_text : IsText 36 (text.hyphenated uuid)
    pub hyphenated_parsed : text.parse_str (text.hyphenated uuid) ≡ some uuid
    pub simple_text : IsText 32 (text.simple uuid)
    pub simple_parsed : text.parse_str (text.simple uuid) ≡ some uuid

-- The words of a UUID of 1.16.
split_int_array :
    (uuid : ℕ)
    → (uuid / 2 ^ 64 / 2 ^ 32 * 2 ^ 32 + uuid / 2 ^ 64 % 2 ^ 32) * 2 ^ 64
        + (uuid % 2 ^ 64 / 2 ^ 32 * 2 ^ 32 + uuid % 2 ^ 64 % 2 ^ 32)
      ≡ uuid
split_int_array uuid = omega arith

write_uuid_int_array-RoundTrips :
    (uuid : ℕ) → IsUuid uuid → RoundTrips (write_uuid_int_array uuid) read_uuid_int_array uuid
unfolding write_uuid_int_array read_uuid_int_array
write_uuid_int_array-RoundTrips uuid h =
    let back : RoundTrips (write_uuid_int_array uuid) read_uuid_int_array (
        (uuid / 2 ^ 64 / 2 ^ 32 * 2 ^ 32 + uuid / 2 ^ 64 % 2 ^ 32) * 2 ^ 64
        + (uuid % 2 ^ 64 / 2 ^ 32 * 2 ^ 32 + uuid % 2 ^ 64 % 2 ^ 32)) =
      then-RoundTrips _ _ (read_be 4) _ _ _ (write_be-RoundTrips 4 _ (omega (arith, h))) (
        then-RoundTrips _ _ (read_be 4) _ _ _ (write_be-RoundTrips 4 _ (omega arith)) (
          then-RoundTrips _ _ (read_be 4) _ _ _ (write_be-RoundTrips 4 _ (omega arith))
            (last-RoundTrips _ (read_be 4) _ _ (write_be-RoundTrips 4 _ (omega arith))))) in
    rw (split_int_array uuid) at back

pub record IsProperty (p : Property) : Type 0 where
  pub name_text : IsText max_string_chars p.name
  pub value_text : IsText max_string_chars p.value
  pub signature_text : OptionAll (IsText max_string_chars) p.signature

pub record IsLoginSuccess (p : CLoginSuccess) : Type 0 where
  pub uuid_word : IsUuid p.uuid
  pub name_text : IsText 16 p.username
  pub few : length p.properties < 2 ^ 31
  pub each : All IsProperty p.properties

abbrev pub carried_success : ProtocolVersion → CLoginSuccess → CLoginSuccess
carried_success version p = record p {
  properties = if no_less_than version v1_19 then p.properties else [];
  strict_error_handling = if has_strict version then p.strict_error_handling else false;
}

write_property-RoundTrips :
    (p : Property) → IsProperty p → RoundTrips (write_property p) read_property p
unfolding write_property read_property
write_property-RoundTrips p h =
    then-RoundTrips _ _ read_string _ p.name p (write_string-RoundTrips _ _ h.name_text) (
      then-RoundTrips _ _ read_string _ p.value p (write_string-RoundTrips _ _ h.value_text) (
        last-RoundTrips _ (read_option read_string) _ p.signature (
          write_option-RoundTrips write_string read_string (IsText max_string_chars)
            (λ s t. write_string-RoundTrips max_string_chars s t) p.signature h.signature_text)))

write_properties-RoundTrips :
    (version : ProtocolVersion) (properties : List Property)
    → length properties < 2 ^ 31
    → All IsProperty properties
    → RoundTrips
        (write_properties version properties)
        (read_properties version)
        (if no_less_than version v1_19 then properties else [])
unfolding write_properties read_properties
write_properties-RoundTrips version properties few each =
    let len : as_i32 (length properties) ≡ length properties = omega arith in
    let count : sign_extend_32 (length properties) ≡ length properties = ground arith in
    if-RoundTrips (no_less_than version v1_19) _ _ _ _ _ _
      (λ p. rw len (
        then-RoundTrips _ _ read_var_int _ (length properties) properties
          (write_var_int-RoundTrips _ (omega arith))
          (rw count (
            write_many-RoundTrips write_property read_property IsProperty write_property-RoundTrips
              properties each))))
      (λ p. nothing-RoundTrips [])

module _ (text : UuidText) where
  parsed-RoundTrips :
      (max : ℕ) (s : List ℕ) (uuid : ℕ)
      → IsText max s
      → text.parse_str s ≡ some uuid
      → RoundTrips (write_string s) (read_string_bounded max >>= parse_uuid text) uuid
  unfolding parse_uuid
  parsed-RoundTrips max s uuid h e =
      bind-RoundTrips _ (read_string_bounded max) (parse_uuid text) s uuid
        (write_string-RoundTrips max s h) (λ rest. rw (parse_uuid, e) refl)

  write_versioned_uuid-RoundTrips :
      (version : ProtocolVersion) (uuid : ℕ)
      → IsUuid uuid
      → UuidTextLaws text uuid
      → RoundTrips (write_versioned_uuid text version uuid) (read_versioned_uuid text version) uuid
  unfolding write_versioned_uuid read_versioned_uuid
  write_versioned_uuid-RoundTrips version uuid h laws =
      same-RoundTrips (no_less_than version v1_19) _ _ _ _ uuid (λ _. uuid-RoundTrips uuid h)
        (λ _.
          same-RoundTrips (no_less_than version v1_16) _ _ _ _ uuid
            (λ _. write_uuid_int_array-RoundTrips uuid h)
            (λ _.
              same-RoundTrips (no_less_than version v1_7_6) _ _ _ _ uuid
                (λ _. parsed-RoundTrips 36 _ uuid laws.hyphenated_text laws.hyphenated_parsed)
                (λ _. parsed-RoundTrips 32 _ uuid laws.simple_text laws.simple_parsed)))

  pub encode_login_success-RoundTrips :
      (version : ProtocolVersion) (p : CLoginSuccess)
      → IsLoginSuccess p
      → UuidTextLaws text p.uuid
      → RoundTrips
          (encode_login_success text version p)
          (decode_login_success text version)
          (carried_success version p)
  unfolding encode_login_success decode_login_success read_strict
  encode_login_success-RoundTrips version p h laws =
      then-RoundTrips _ _ (read_versioned_uuid text version) _ p.uuid _
        (write_versioned_uuid-RoundTrips version p.uuid h.uuid_word laws)
        (then-RoundTrips _ _ (read_string_bounded 16) _ p.username _
          (write_string-RoundTrips 16 _ h.name_text)
          (then-RoundTrips _ _ (read_properties version) _ _ _
            (write_properties-RoundTrips version p.properties h.few h.each)
            (last-RoundTrips _ (read_strict version) _ _ (
              if-RoundTrips (has_strict version) _ _ _ _ _ _
                (λ _. write_bool-RoundTrips p.strict_error_handling)
                (λ _. nothing-RoundTrips false)))))
