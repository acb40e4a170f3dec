-- ===== src/Protocol/Packets/Config.antt =====
-- packets/config.rs: the packets of the configuration state. The client's and the server's packet
-- of a pair have the same fields and format.
use infrarust.Common.{ℕ, ◌^◌, ◌<◌, ◌≡◌, false, List, length, All, if◌then◌else◌, arith}
use infrarust.Protocol.Words.{is_negative_32}
use infrarust.Protocol.Error.{invalid}
use infrarust.Protocol.Codec.{
  Reader, Writer, ◌>>=◌, return, fail, ◌>>◌, read_var_int, read_string, read_remaining, read_many,
  write_all, write_var_int, max_string_chars, as_i32, write_string, write_many,
}
use infrarust.Protocol.Codec.RoundTrips.{
  RoundTrips, Ends, then-RoundTrips, then-Ends, last-RoundTrips, last-Ends, remaining-Ends,
  write_many-RoundTrips,
}
use infrarust.Protocol.Codec.Values.{write_var_int-RoundTrips, IsText, write_string-RoundTrips}

pub record KnownPack : Type 0 where
  pub namespace : List ℕ
  pub id : List ℕ
  pub version : List ℕ

-- `CKnownPacks` and `SKnownPacks`.
pub record KnownPacks : Type 0 where
  pub packs : List KnownPack

unfoldable pub read_known_pack : Reader KnownPack
read_known_pack = do
  namespace ← read_string
  id ← read_string
  version ← read_string
  return (record { namespace = namespace; id = id; version = version })

unfoldable pub write_known_pack : KnownPack → Writer
write_known_pack p = write_string p.namespace >> (write_string p.id >> write_string p.version)

unfoldable pub read_packs : ℕ → Reader KnownPacks
read_packs count =
    if is_negative_32 count
    then fail (invalid "negative pack count")
    else (read_many read_known_pack count >>= λ packs. return (record { packs = packs }))

unfoldable pub decode_known_packs : Reader KnownPacks
decode_known_packs = read_var_int >>= read_packs

unfoldable pub encode_known_packs : KnownPacks → Writer
encode_known_packs p =
    write_var_int (as_i32 (length p.packs)) >> write_many write_known_pack p.packs

-- `CConfigPluginMessage` and `SConfigPluginMessage`.
pub record ConfigPluginMessage : Type 0 where
  pub channel : List ℕ
  pub payload : List ℕ

unfoldable pub decode_config_message : Reader ConfigPluginMessage
decode_config_message = do
  channel ← read_string
  payload ← read_remaining
  return (record { channel = channel; payload = payload })

unfoldable pub encode_config_message : ConfigPluginMessage → Writer
encode_config_message p = write_string p.channel >> write_all p.payload

-- `CRegistryData` and `CConfigDisconnect`: the rest of the frame as it is.
pub record RawData : Type 0 where
  pub bytes : List ℕ

unfoldable pub decode_raw : Reader RawData
decode_raw = do bytes ← read_remaining; return (record { bytes = bytes })

unfoldable pub encode_raw : RawData → Writer
encode_raw p = write_all p.bytes

pub record IsKnownPack (p : KnownPack) : Type 0 where
  pub namespace_text : IsText max_string_chars p.namespace
  pub id_text : IsText max_string_chars p.id
  pub version_text : IsText max_string_chars p.version

write_known_pack-RoundTrips :
    (p : KnownPack) → IsKnownPack p → RoundTrips (write_known_pack p) read_known_pack p
unfolding write_known_pack read_known_pack
write_known_pack-RoundTrips p h =
    then-RoundTrips _ _ read_string _ p.namespace p (write_string-RoundTrips _ _ h.namespace_text) (
      then-RoundTrips _ _ read_string _ p.id p (write_string-RoundTrips _ _ h.id_text)
        (last-RoundTrips _ read_string _ p.version (write_string-RoundTrips _ _ h.version_text)))

pub encode_known_packs-RoundTrips :
    (p : KnownPacks)
    → (length p.packs < 2 ^ 31) × All IsKnownPack p.packs
    → RoundTrips (encode_known_packs p) decode_known_packs p
unfolding encode_known_packs decode_known_packs read_packs
encode_known_packs-RoundTrips p (few, each) =
    let len : as_i32 (length p.packs) ≡ length p.packs = omega arith in
    let positive : is_negative_32 (length p.packs) ≡ false = ground arith in
    rw len (
      then-RoundTrips _ _ read_var_int read_packs (length p.packs) p
        (write_var_int-RoundTrips _ (omega arith))
        (rw (read_packs, positive)
          (last-RoundTrips _ (read_many read_known_pack (length p.packs)) _ p.packs (
            write_many-RoundTrips write_known_pack read_known_pack IsKnownPack
              write_known_pack-RoundTrips p.packs each))))

pub encode_config_message-Ends :
    (p : ConfigPluginMessage)
    → IsText max_string_chars p.channel
    → Ends (encode_config_message p) decode_config_message p
unfolding encode_config_message decode_config_message
encode_config_message-Ends p text =
    then-Ends _ _ read_string _ p.channel p (write_string-RoundTrips max_string_chars _ text)
      (last-Ends _ read_remaining _ p.payload (remaining-Ends p.payload))

pub encode_raw-Ends : (p : RawData) → Ends (encode_raw p) decode_raw p
unfolding encode_raw decode_raw
encode_raw-Ends p = last-Ends _ read_remaining _ p.bytes (remaining-Ends p.bytes)
