-- ===== src/Protocol/Play/Small/RoundTrip.antt =====
-- The packets of Small, written and read back.
use infrarust.Common.{
  ℕ, ◌^◌, ◌<◌, ◌≡◌, refl, false, Option, none, some, List, length, All, if◌then◌else◌, arith,
}
use infrarust.Protocol.Words.{IsWord32, IsWord64, sign_extend_32, is_negative_32}
use infrarust.Protocol.Version.{ProtocolVersion, no_less_than, v1_8, v1_12_2}
use infrarust.Protocol.Codec.{
  read_u8, read_be, read_var_int, read_string, read_remaining, as_i32, max_string_chars,
}
use infrarust.Protocol.Codec.RoundTrips.{
  RoundTrips, Ends, then-RoundTrips, then-Ends, bind-RoundTrips, last-RoundTrips, last-Ends,
  remaining-Ends, if-RoundTrips, same-RoundTrips, write_many-RoundTrips,
}
use infrarust.Protocol.Codec.Values.{
  write_var_int-RoundTrips, write_be-RoundTrips, write_u8-RoundTrips, IsText,
  write_string-RoundTrips, OptionAll,
}
use infrarust.Protocol.Play.Small.{
  KeepAlive, decode_keepalive_id, encode_keepalive_id, decode_keepalive, encode_keepalive,
  CChunkBatchFinished, decode_batch_finished, encode_batch_finished, CSetCenterChunk,
  decode_center_chunk, encode_center_chunk, CGameEvent, decode_game_event, encode_game_event,
  CTransfer, decode_transfer, encode_transfer, STabCompleteRequest, decode_tab_request,
  encode_tab_request, TabCompleteMatch, CTabCompleteResponse, read_tooltip, write_tooltip,
  read_match, write_match, read_matches, decode_tab_response, encode_tab_response, PluginMessage,
  decode_plugin_message, encode_plugin_message,
}

-- Before 1.12.2 the id is cut to 32 bits and read back with its sign.
abbrev pub carried_keepalive : ProtocolVersion → KeepAlive → KeepAlive
carried_keepalive version p = record {
  id = if no_less_than version v1_12_2 then p.id else sign_extend_32 (as_i32 p.id);
}

pub encode_keepalive-RoundTrips :
    (version : ProtocolVersion) (p : KeepAlive)
    → IsWord64 p.id
    → RoundTrips
        (encode_keepalive version p)
        (decode_keepalive version)
        (carried_keepalive version p)
unfolding encode_keepalive decode_keepalive encode_keepalive_id decode_keepalive_id
encode_keepalive-RoundTrips version p h = last-RoundTrips _ (decode_keepalive_id version) _ _ (
    if-RoundTrips (no_less_than version v1_12_2) _ _ _ _ _ _
      (λ _. write_be-RoundTrips 8 p.id (omega (arith, h)))
      (λ _.
        same-RoundTrips (no_less_than version v1_8) _ _ _ _ _
          (λ _.
            last-RoundTrips _ read_var_int sign_extend_32 _
              (write_var_int-RoundTrips _ (omega arith)))
          (λ _.
            last-RoundTrips _ (read_be 4) sign_extend_32 _
              (write_be-RoundTrips 4 _ (omega arith)))))

pub encode_batch_finished-RoundTrips :
    (p : CChunkBatchFinished)
    → IsWord32 p.batch_size
    → RoundTrips (encode_batch_finished p) decode_batch_finished p
unfolding encode_batch_finished decode_batch_finished
encode_batch_finished-RoundTrips p h =
    last-RoundTrips _ read_var_int _ p.batch_size (write_var_int-RoundTrips _ h)

pub encode_center_chunk-RoundTrips :
    (p : CSetCenterChunk)
    → IsWord32 p.chunk_x × IsWord32 p.chunk_z
    → RoundTrips (encode_center_chunk p) decode_center_chunk p
unfolding encode_center_chunk decode_center_chunk
encode_center_chunk-RoundTrips p (x, z) =
    then-RoundTrips _ _ read_var_int _ p.chunk_x p (write_var_int-RoundTrips _ x)
      (last-RoundTrips _ read_var_int _ p.chunk_z (write_var_int-RoundTrips _ z))

pub encode_game_event-RoundTrips :
    (p : CGameEvent) → IsWord32 p.value → RoundTrips (encode_game_event p) decode_game_event p
unfolding encode_game_event decode_game_event
encode_game_event-RoundTrips p h =
    then-RoundTrips _ _ read_u8 _ p.event p (write_u8-RoundTrips p.event)
      (last-RoundTrips _ (read_be 4) _ p.value (write_be-RoundTrips 4 _ (omega (arith, h))))

pub encode_transfer-RoundTrips :
    (p : CTransfer)
    → IsText max_string_chars p.host × IsWord32 p.port
    → RoundTrips (encode_transfer p) decode_transfer p
unfolding encode_transfer decode_transfer
encode_transfer-RoundTrips p (text, word) =
    then-RoundTrips _ _ read_string _ p.host p (write_string-RoundTrips max_string_chars _ text)
      (last-RoundTrips _ read_var_int _ p.port (write_var_int-RoundTrips _ word))

pub encode_tab_request-RoundTrips :
    (p : STabCompleteRequest)
    → IsWord32 p.transaction_id × IsText max_string_chars p.text
    → RoundTrips (encode_tab_request p) decode_tab_request p
unfolding encode_tab_request decode_tab_request
encode_tab_request-RoundTrips p (word, text) =
    then-RoundTrips _ _ read_var_int _ p.transaction_id p (write_var_int-RoundTrips _ word)
      (last-RoundTrips _ read_string _ p.text (write_string-RoundTrips max_string_chars _ text))

pub record IsMatch (m : TabCompleteMatch) : Type 0 where
  pub match_text : IsText max_string_chars m.text
  pub tooltip_text : OptionAll (IsText max_string_chars) m.tooltip

pub record IsTabResponse (p : CTabCompleteResponse) : Type 0 where
  pub words : IsWord32 p.transaction_id × (IsWord32 p.start × IsWord32 p.len)
  pub few : length p.matches < 2 ^ 31
  pub each : All IsMatch p.matches

write_tooltip-RoundTrips :
    (tooltip : Option (List ℕ))
    → OptionAll (IsText max_string_chars) tooltip
    → RoundTrips (write_tooltip tooltip) read_tooltip tooltip
unfolding write_tooltip read_tooltip
write_tooltip-RoundTrips none h =
    bind-RoundTrips _ read_u8 _ 0 none (write_u8-RoundTrips 0) (λ rest. refl)
write_tooltip-RoundTrips (some tooltip) h =
    then-RoundTrips _ _ read_u8 _ 1 (some tooltip) (write_u8-RoundTrips 1)
      (last-RoundTrips _ read_string some tooltip (write_string-RoundTrips max_string_chars _ h))

write_match-RoundTrips :
    (m : TabCompleteMatch) → IsMatch m → RoundTrips (write_match m) read_match m
unfolding write_match read_match
write_match-RoundTrips m h =
    then-RoundTrips _ _ read_string _ m.text m
      (write_string-RoundTrips max_string_chars _ h.match_text)
      (last-RoundTrips _ read_tooltip _ m.tooltip
        (write_tooltip-RoundTrips m.tooltip h.tooltip_text))

pub encode_tab_response-RoundTrips :
    (p : CTabCompleteResponse)
    → IsTabResponse p
    → RoundTrips (encode_tab_response p) decode_tab_response p
unfolding encode_tab_response decode_tab_response read_matches
encode_tab_response-RoundTrips p h =
    let (id, (start, len)) = h.words in
    let few = h.few in
    let count : as_i32 (length p.matches) ≡ length p.matches = omega arith in
    let positive : is_negative_32 (length p.matches) ≡ false = ground arith in
    then-RoundTrips _ _ read_var_int _ p.transaction_id p (write_var_int-RoundTrips _ id) (
      then-RoundTrips _ _ read_var_int _ p.start p (write_var_int-RoundTrips _ start) (
        then-RoundTrips _ _ read_var_int _ p.len p (write_var_int-RoundTrips _ len) (
          rw count (
            then-RoundTrips _ _ read_var_int _ (length p.matches) p
              (write_var_int-RoundTrips _ (omega arith))
              (last-RoundTrips _ (read_matches (length p.matches)) _ p.matches (
                rw (read_matches, positive)
                  (write_many-RoundTrips write_match read_match IsMatch write_match-RoundTrips
                    p.matches h.each)))))))

pub encode_plugin_message-Ends :
    (p : PluginMessage)
    → IsText max_string_chars p.channel
    → Ends (encode_plugin_message p) decode_plugin_message p
unfolding encode_plugin_message decode_plugin_message
encode_plugin_message-Ends p text =
    then-Ends _ _ read_string _ p.channel p (write_string-RoundTrips max_string_chars _ text)
      (last-Ends _ read_remaining _ p.payload (remaining-Ends p.payload))
