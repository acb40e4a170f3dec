-- ===== src/Protocol/Packets/Login/Plugin.antt =====
-- The remaining packets of packets/login.rs: a refusal, and the exchange of plugin messages, whose
-- payload is the rest of the frame.
use infrarust.Common.{ℕ, Bool, List}
use infrarust.Protocol.Words.{IsWord32}
use infrarust.Protocol.Codec.{
  Reader, Writer, ◌>>=◌, return, ◌>>◌, read_bool, read_var_int, read_string, read_remaining,
  write_all, write_bool, write_var_int, max_string_chars, write_string,
}
use infrarust.Protocol.Codec.RoundTrips.{
  RoundTrips, Ends, then-Ends, last-RoundTrips, last-Ends, remaining-Ends,
}
use infrarust.Protocol.Codec.Values.{
  write_var_int-RoundTrips, write_bool-RoundTrips, IsText, write_string-RoundTrips,
}

pub record CLoginDisconnect : Type 0 where
  pub reason : List ℕ

unfoldable pub decode_login_disconnect : Reader CLoginDisconnect
decode_login_disconnect = do reason ← read_string; return (record { reason = reason })

unfoldable pub encode_login_disconnect : CLoginDisconnect → Writer
encode_login_disconnect p = write_string p.reason

pub record CLoginPluginRequest : Type 0 where
  pub message_id : ℕ
  pub channel : List ℕ
  pub payload : List ℕ

unfoldable pub decode_plugin_request : Reader CLoginPluginRequest
decode_plugin_request = do
  message_id ← read_var_int
  channel ← read_string
  payload ← read_remaining
  return (record { message_id = message_id; channel = channel; payload = payload })

unfoldable pub encode_plugin_request : CLoginPluginRequest → Writer
encode_plugin_request p =
    write_var_int p.message_id >> (write_string p.channel >> write_all p.payload)

pub record SLoginPluginResponse : Type 0 where
  pub message_id : ℕ
  pub successful : Bool
  pub payload : List ℕ

unfoldable pub decode_plugin_response : Reader SLoginPluginResponse
decode_plugin_response = do
  message_id ← read_var_int
  successful ← read_bool
  payload ← read_remaining
  return (record { message_id = message_id; successful = successful; payload = payload })

unfoldable pub encode_plugin_response : SLoginPluginResponse → Writer
encode_plugin_response p =
    write_var_int p.message_id >> (write_bool p.successful >> write_all p.payload)

pub encode_login_disconnect-RoundTrips :
    (p : CLoginDisconnect)
    → IsText max_string_chars p.reason
    → RoundTrips (encode_login_disconnect p) decode_login_disconnect p
unfolding encode_login_disconnect decode_login_disconnect
encode_login_disconnect-RoundTrips p h =
    last-RoundTrips _ read_string _ p.reason (write_string-RoundTrips max_string_chars _ h)

pub encode_plugin_request-Ends :
    (p : CLoginPluginRequest)
    → IsWord32 p.message_id × IsText max_string_chars p.channel
    → Ends (encode_plugin_request p) decode_plugin_request p
unfolding encode_plugin_request decode_plugin_request
encode_plugin_request-Ends p (id, text) =
    then-Ends _ _ read_var_int _ p.message_id p (write_var_int-RoundTrips _ id) (
      then-Ends _ _ read_string _ p.channel p (write_string-RoundTrips max_string_chars _ text)
        (last-Ends _ read_remaining _ p.payload (remaining-Ends p.payload)))

pub encode_plugin_response-Ends :
    (p : SLoginPluginResponse)
    → IsWord32 p.message_id
    → Ends (encode_plugin_response p) decode_plugin_response p
unfolding encode_plugin_response decode_plugin_response
encode_plugin_response-Ends p id =
    then-Ends _ _ read_var_int _ p.message_id p (write_var_int-RoundTrips _ id) (
      then-Ends _ _ read_bool _ p.successful p (write_bool-RoundTrips p.successful)
        (last-Ends _ read_remaining _ p.payload (remaining-Ends p.payload)))
