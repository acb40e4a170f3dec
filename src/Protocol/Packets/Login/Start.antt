-- ===== src/Protocol/Packets/Login/Start.antt =====
-- `SLoginStart` of packets/login.rs, written and read back.
use infrarust.Common.{
  ℕ, ◌^◌, ◌≤◌, ◌<◌, ◌≡◌, refl, ap, Option, none, some, List, [], ◌∷◌, ◌++◌, length, if◌then◌else◌,
  arith,
}
use mathlib.Core.List.{append_assoc}
use infrarust.Protocol.Error.{ok}
use infrarust.Protocol.VarInt
use infrarust.Protocol.Version.{
  ProtocolVersion, no_less_than, less_than, v1_19, v1_19_1, v1_19_3, v1_20_2,
}
use infrarust.Protocol.Codec.{
  Writer, ◌>>◌, to_be_bytes, as_i32, read_be, read_byte_array, read_string_bounded, write_all,
  write_be, write_var_int, write_byte_array,
}
use infrarust.Protocol.Codec.RoundTrips.{
  RoundTrips, nothing-RoundTrips, then-RoundTrips, last-RoundTrips, if-RoundTrips,
}
use infrarust.Protocol.Codec.Values.{
  write_be-RoundTrips, IsText, write_string-RoundTrips, write_byte_array-RoundTrips, OptionAll,
  write_option-RoundTrips,
}
use infrarust.Protocol.Packets.Login.{
  SLoginStart, player_key, read_uuid, write_uuid, read_player_key, read_signature_data,
  read_login_uuid, decode_login_keys, decode_login_start_rest, check_name, decode_login_start,
  write_signature_data, uuid_or_nil, write_login_uuid, encode_login_start,
}

-- Bytes that are a player's key.
pub record IsPlayerKey (bytes : List ℕ) : Type 0 where
  pub ts : ℕ
  pub pk : List ℕ
  pub sig : List ℕ
  pub parts : bytes ≡ player_key ts pk sig
  pub ts_word : ts < 2 ^ 64
  pub pk_le : length pk ≤ 512
  pub sig_le : length sig ≤ 4096

abbrev pub IsUuid : ℕ → Type 0
IsUuid uuid = uuid < 2 ^ 128

pub record IsLoginStart (p : SLoginStart) : Type 0 where
  pub name_text : IsText 16 p.name
  pub named : 0 < length p.name
  pub uuid_word : OptionAll IsUuid p.uuid
  pub key : OptionAll IsPlayerKey p.signature_data

-- What a version's format carries of the packet.
abbrev pub carried_uuid : ProtocolVersion → Option ℕ → Option ℕ
carried_uuid version uuid =
    if no_less_than version v1_20_2
    then some (uuid_or_nil uuid)
    else if no_less_than version v1_19_1
    then uuid
    else none

abbrev pub carried_login_start : ProtocolVersion → SLoginStart → SLoginStart
carried_login_start version p =
    if no_less_than version v1_19
    then record {
      name = p.name;
      uuid = carried_uuid version p.uuid;
      signature_data = if less_than version v1_19_3 then p.signature_data else none;
    }
    else record { name = p.name; uuid = none; signature_data = none }

-- The parts of a key, written one after another.
abbrev write_key_parts : ℕ → List ℕ → List ℕ → Writer
write_key_parts ts pk sig = write_be 8 ts >> (write_byte_array pk >> write_byte_array sig)

write_key_parts-all :
    (ts : ℕ) (pk sig : List ℕ) → write_key_parts ts pk sig ≡ write_all (player_key ts pk sig)
unfolding write_be write_byte_array write_var_int
write_key_parts-all ts pk sig =
    ap (λ (l : List ℕ). ok (to_be_bytes 8 ts ++ l))
      (append_assoc (VarInt.encode (as_i32 (length pk))) pk
        (VarInt.encode (as_i32 (length sig)) ++ sig))

write_key_parts-RoundTrips :
    (ts : ℕ) (pk sig : List ℕ)
    → ts < 2 ^ 64
    → length pk ≤ 512
    → length sig ≤ 4096
    → RoundTrips (write_key_parts ts pk sig) read_player_key (player_key ts pk sig)
unfolding read_player_key
write_key_parts-RoundTrips ts pk sig word pk_le sig_le =
    then-RoundTrips _ _ (read_be 8) _ ts _ (write_be-RoundTrips 8 ts (omega (arith, word))) (
      then-RoundTrips _ _ (read_byte_array 512) _ pk _
        (write_byte_array-RoundTrips 512 pk pk_le (omega (arith, pk_le)))
        (last-RoundTrips _ (read_byte_array 4096) _ sig
          (write_byte_array-RoundTrips 4096 sig sig_le (omega (arith, sig_le)))))

write_player_key-RoundTrips :
    (bytes : List ℕ) → IsPlayerKey bytes → RoundTrips (write_all bytes) read_player_key bytes
write_player_key-RoundTrips bytes k = rw k.parts (
    rw (write_key_parts-all k.ts k.pk k.sig) at
      (write_key_parts-RoundTrips k.ts k.pk k.sig k.ts_word k.pk_le k.sig_le))

pub uuid-RoundTrips : (uuid : ℕ) → IsUuid uuid → RoundTrips (write_uuid uuid) read_uuid uuid
uuid-RoundTrips uuid h = write_be-RoundTrips 16 uuid (omega (arith, h))

uuid_or_nil-IsUuid : (uuid : Option ℕ) → OptionAll IsUuid uuid → IsUuid (uuid_or_nil uuid)
uuid_or_nil-IsUuid none h = omega arith
uuid_or_nil-IsUuid (some uuid) h = h

write_login_uuid-RoundTrips :
    (version : ProtocolVersion) (uuid : Option ℕ)
    → OptionAll IsUuid uuid
    → RoundTrips
        (write_login_uuid version uuid)
        (read_login_uuid version)
        (carried_uuid version uuid)
unfolding write_login_uuid read_login_uuid
write_login_uuid-RoundTrips version uuid h =
    if-RoundTrips (no_less_than version v1_20_2) _ _ _ _ _ _
      (λ p. last-RoundTrips _ read_uuid some _ (uuid-RoundTrips _ (uuid_or_nil-IsUuid uuid h)))
      (λ p.
        if-RoundTrips (no_less_than version v1_19_1) _ _ _ _ _ _
          (λ q. write_option-RoundTrips write_uuid read_uuid IsUuid uuid-RoundTrips uuid h)
          (λ q. nothing-RoundTrips none))

write_signature_data-RoundTrips :
    (version : ProtocolVersion) (key : Option (List ℕ))
    → OptionAll IsPlayerKey key
    → RoundTrips
        (write_signature_data version key)
        (read_signature_data version)
        (if less_than version v1_19_3 then key else none)
unfolding write_signature_data read_signature_data
write_signature_data-RoundTrips version key h =
    if-RoundTrips (less_than version v1_19_3) _ _ _ _ _ _
      (λ p.
        write_option-RoundTrips write_all read_player_key IsPlayerKey write_player_key-RoundTrips
          key h)
      (λ p. nothing-RoundTrips none)

check_name_pos :
    (version : ProtocolVersion) (name : List ℕ)
    → 0 < length name
    → check_name version name ≡ decode_login_start_rest version name
unfolding check_name
check_name_pos version [] h = absurd (omega arith)
check_name_pos version (c ∷ name) h = refl

pub encode_login_start-RoundTrips :
    (version : ProtocolVersion) (p : SLoginStart)
    → IsLoginStart p
    → RoundTrips
        (encode_login_start version p)
        (decode_login_start version)
        (carried_login_start version p)
unfolding encode_login_start decode_login_start decode_login_start_rest decode_login_keys
encode_login_start-RoundTrips version p h =
    then-RoundTrips _ _ (read_string_bounded 16) (check_name version) p.name
      (carried_login_start version p) (write_string-RoundTrips 16 p.name h.name_text)
      (rw (check_name_pos version p.name h.named) (
        if-RoundTrips (no_less_than version v1_19) _ _ _ _ _ _
          (λ q.
            then-RoundTrips _ _ (read_signature_data version) _ _ _
              (write_signature_data-RoundTrips version p.signature_data h.key)
              (last-RoundTrips _ (read_login_uuid version) _ _
                (write_login_uuid-RoundTrips version p.uuid h.uuid_word)))
          (λ q. nothing-RoundTrips _)))
