-- ===== src/Protocol/Play/Small.antt =====
-- play/keepalive.rs, chunk_batch.rs, center_chunk.rs, game_event.rs, transfer.rs, tab_complete.rs
-- and plugin_message.rs. Integers are bit patterns, a float its 32 bits.
pub mod RoundTrip
use infrarust.Common.{
  ℕ, ◌+◌, ◌-◌, ◌%◌, ◌^◌, ◌<◌, ◌≡◌, refl, Bool, true, false, Option, none, some, List, [], ◌∷◌, ◌++◌,
  length, All, ◌==◌, if◌then◌else◌, arith,
}
use infrarust.Protocol.Words.{IsByte, IsWord32, IsWord64, sign_extend_32, is_negative_32}
use infrarust.Protocol.Error.{Result, ok, err, invalid}
use infrarust.Protocol.Version.{ProtocolVersion, no_less_than, v1_8, v1_12_2}
use infrarust.Protocol.Codec.{
  Reader, Writer, ◌>>=◌, return, fail, ◌>>◌, read_u8, read_be, read_var_int, read_string,
  read_remaining, read_many, write_all, write_be, write_var_int, max_string_chars, as_i32,
  write_string, write_many,
}
use infrarust.Protocol.Codec.RoundTrips.{
  RoundTrips, Ends, then-RoundTrips, then-Ends, bind-RoundTrips, last-RoundTrips, last-Ends,
  remaining-Ends, if-RoundTrips, write_many-RoundTrips,
}
use infrarust.Protocol.Codec.Values.{
  write_var_int-RoundTrips, write_be-RoundTrips, write_u8-RoundTrips, IsText,
  write_string-RoundTrips, OptionAll,
}

-- `CKeepAlive` and `SKeepAlive`: 64 bits from 1.12.2 on, a 32-bit integer before.
pub record KeepAlive : Type 0 where
  pub id : ℕ

unfoldable pub decode_keepalive_id : ProtocolVersion → Reader ℕ
decode_keepalive_id version =
    if no_less_than version v1_12_2
    then read_be 8
    else if no_less_than version v1_8
    then (read_var_int >>= λ id. return (sign_extend_32 id))
    else (read_be 4 >>= λ id. return (sign_extend_32 id))

unfoldable pub encode_keepalive_id : ProtocolVersion → ℕ → Writer
encode_keepalive_id version id =
    if no_less_than version v1_12_2
    then write_be 8 id
    else if no_less_than version v1_8
    then write_var_int (as_i32 id)
    else write_be 4 (as_i32 id)

unfoldable pub decode_keepalive : ProtocolVersion → Reader KeepAlive
decode_keepalive version = do id ← decode_keepalive_id version; return (record { id = id })

unfoldable pub encode_keepalive : ProtocolVersion → KeepAlive → Writer
encode_keepalive version p = encode_keepalive_id version p.id

-- `CChunkBatchFinished` and `CSetCenterChunk`.
pub record CChunkBatchFinished : Type 0 where
  pub batch_size : ℕ

unfoldable pub decode_batch_finished : Reader CChunkBatchFinished
decode_batch_finished = do batch_size ← read_var_int; return (record { batch_size = batch_size })

unfoldable pub encode_batch_finished : CChunkBatchFinished → Writer
encode_batch_finished p = write_var_int p.batch_size

pub record CSetCenterChunk : Type 0 where
  pub chunk_x : ℕ
  pub chunk_z : ℕ

unfoldable pub decode_center_chunk : Reader CSetCenterChunk
decode_center_chunk = do
  chunk_x ← read_var_int
  chunk_z ← read_var_int
  return (record { chunk_x = chunk_x; chunk_z = chunk_z })

unfoldable pub encode_center_chunk : CSetCenterChunk → Writer
encode_center_chunk p = write_var_int p.chunk_x >> write_var_int p.chunk_z

pub record CGameEvent : Type 0 where
  pub event : ℕ
  pub value : ℕ

unfoldable pub decode_game_event : Reader CGameEvent
decode_game_event = do
  event ← read_u8
  value ← read_be 4
  return (record { event = event; value = value })

unfoldable pub encode_game_event : CGameEvent → Writer
encode_game_event p = write_all (p.event ∷ []) >> write_be 4 p.value

pub record CTransfer : Type 0 where
  pub host : List ℕ
  pub port : ℕ

unfoldable pub decode_transfer : Reader CTransfer
decode_transfer = do
  host ← read_string
  port ← read_var_int
  return (record { host = host; port = port })

unfoldable pub encode_transfer : CTransfer → Writer
encode_transfer p = write_string p.host >> write_var_int p.port

pub record STabCompleteRequest : Type 0 where
  pub transaction_id : ℕ
  pub text : List ℕ

unfoldable pub decode_tab_request : Reader STabCompleteRequest
decode_tab_request = do
  transaction_id ← read_var_int
  text ← read_string
  return (record { transaction_id = transaction_id; text = text })

unfoldable pub encode_tab_request : STabCompleteRequest → Writer
encode_tab_request p = write_var_int p.transaction_id >> write_string p.text

pub record TabCompleteMatch : Type 0 where
  pub text : List ℕ
  pub tooltip : Option (List ℕ)

pub record CTabCompleteResponse : Type 0 where
  pub transaction_id : ℕ
  pub start : ℕ
  pub len : ℕ
  pub matches : List TabCompleteMatch

-- Any byte but zero announces a tooltip.
unfoldable pub read_tooltip : Reader (Option (List ℕ))
read_tooltip = read_u8 >>= λ flag.
    if flag == 0 then return none else (read_string >>= λ tooltip. return (some tooltip))

unfoldable pub write_tooltip : Option (List ℕ) → Writer
write_tooltip (some tooltip) = write_all (1 ∷ []) >> write_string tooltip
write_tooltip none = write_all (0 ∷ [])

unfoldable pub read_match : Reader TabCompleteMatch
read_match = do
  text ← read_string
  tooltip ← read_tooltip
  return (record { text = text; tooltip = tooltip })

unfoldable pub write_match : TabCompleteMatch → Writer
write_match m = write_string m.text >> write_tooltip m.tooltip

unfoldable pub read_matches : ℕ → Reader (List TabCompleteMatch)
read_matches count =
    if is_negative_32 count
    then fail (invalid "negative match count")
    else read_many read_match count

unfoldable pub decode_tab_response : Reader CTabCompleteResponse
decode_tab_response = do
  transaction_id ← read_var_int
  start ← read_var_int
  len ← read_var_int
  count ← read_var_int
  matches ← read_matches count
  return (record { transaction_id = transaction_id; start = start; len = len; matches = matches })

unfoldable pub encode_tab_response : CTabCompleteResponse → Writer
encode_tab_response p =
    write_var_int p.transaction_id
    >> (write_var_int p.start
        >> (write_var_int p.len
            >> (write_var_int (as_i32 (length p.matches)) >> write_many write_match p.matches)))

-- `CPluginMessage` and `SPluginMessage`.
pub record PluginMessage : Type 0 where
  pub channel : List ℕ
  pub payload : List ℕ

unfoldable pub decode_plugin_message : Reader PluginMessage
decode_plugin_message = do
  channel ← read_string
  payload ← read_remaining
  return (record { channel = channel; payload = payload })

unfoldable pub encode_plugin_message : PluginMessage → Writer
encode_plugin_message p = write_string p.channel >> write_all p.payload
