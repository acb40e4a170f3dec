-- ===== src/Protocol/Play/Texts.antt =====
-- play/disconnect.rs, play/title.rs and play/chat.rs: texts, as a JSON string before 1.20.3 and as
-- the NBT bytes of the rest of the frame from then on.
pub mod RoundTrip
use infrarust.Common.{
  ℕ, ◌+◌, Bool, true, false, Option, none, some, List, [], ◌∷◌, ◌++◌, ◌==◌, if◌then◌else◌,
}
use infrarust.Protocol.Error.{Result, ok, err, invalid}
use infrarust.Protocol.Version.{
  ProtocolVersion, no_less_than, less_than, v1_8, v1_12, v1_16, v1_20_3,
}
use infrarust.Protocol.Codec.{
  Reader, Writer, ◌>>=◌, return, fail, ◌>>◌, nothing_written, read_u8, read_be, read_bool,
  read_var_int, read_string, read_remaining, write_all, write_be, write_bool, write_var_int,
  write_string,
}
use infrarust.Protocol.Codec.Utf8.{is_utf8}

-- The text of `CDisconnect`, `CSetTitle` and `CSetSubtitle`.
unfoldable pub read_component : ProtocolVersion → Reader (List ℕ)
read_component version = if less_than version v1_20_3 then read_string else read_remaining

unfoldable pub write_json : List ℕ → Writer
write_json text =
    if is_utf8 text
    then write_string text
    else err (invalid "text is not valid UTF-8 for JSON version")

unfoldable pub write_component : ProtocolVersion → List ℕ → Writer
write_component version text = if less_than version v1_20_3 then write_json text else write_all text

-- `CDisconnect`, `CSetTitle` and `CSetSubtitle` hold one text.
pub record TextPacket : Type 0 where
  pub text : List ℕ

unfoldable pub decode_text : ProtocolVersion → Reader TextPacket
decode_text version = do text ← read_component version; return (record { text = text })

unfoldable pub encode_text : ProtocolVersion → TextPacket → Writer
encode_text version p = write_component version p.text

-- `CSetTitleTimes`.
pub record CSetTitleTimes : Type 0 where
  pub fade_in : ℕ
  pub stay : ℕ
  pub fade_out : ℕ

unfoldable pub decode_times : Reader CSetTitleTimes
decode_times = do
  fade_in ← read_be 4
  stay ← read_be 4
  fade_out ← read_be 4
  return (record { fade_in = fade_in; stay = stay; fade_out = fade_out })

unfoldable pub encode_times : CSetTitleTimes → Writer
encode_times p = write_be 4 p.fade_in >> (write_be 4 p.stay >> write_be 4 p.fade_out)

pub data CTitleLegacy : Type 0 where
  set_title : List ℕ → CTitleLegacy
  set_subtitle : List ℕ → CTitleLegacy
  set_times : CSetTitleTimes → CTitleLegacy

unfoldable pub times_action : ProtocolVersion → ℕ
times_action version = if less_than version v1_12 then 2 else 3

abbrev pub action_id : ProtocolVersion → CTitleLegacy → ℕ
action_id version (set_title json) = 0
action_id version (set_subtitle json) = 1
action_id version (set_times times) = times_action version

unfoldable pub decode_action : ProtocolVersion → ℕ → Reader CTitleLegacy
decode_action version action =
    if action == 0
    then (read_string >>= λ json. return (set_title json))
    else if action == 1
    then (read_string >>= λ json. return (set_subtitle json))
    else if action == times_action version
    then (decode_times >>= λ times. return (set_times times))
    else fail (invalid "CTitleLegacy: unknown action")

unfoldable pub decode_title_legacy : ProtocolVersion → Reader CTitleLegacy
decode_title_legacy version = read_var_int >>= decode_action version

unfoldable pub encode_action : CTitleLegacy → Writer
encode_action (set_title json) = write_string json
encode_action (set_subtitle json) = write_string json
encode_action (set_times times) = encode_times times

unfoldable pub encode_title_legacy : ProtocolVersion → CTitleLegacy → Writer
encode_title_legacy version p = write_var_int (action_id version p) >> encode_action p

pub record CSystemChatMessage : Type 0 where
  pub content : List ℕ
  pub overlay : Bool

-- The bytes before the last one, and the last one.
unfoldable pub split_last : List ℕ → Option (List ℕ × ℕ)
split_last [] = none
split_last (b ∷ bytes) = elim (split_last bytes) [
  | none ↦ some ([], b)
  | some (front, last) ↦ some (b ∷ front, last)
]

unfoldable pub overlay_of : List ℕ → Reader CSystemChatMessage
overlay_of remaining = elim (split_last remaining) [
  | none ↦ fail (invalid "CSystemChatMessage: empty payload")
  | some (content, last) ↦
      return (record { content = content; overlay = if last == 0 then false else true })
]

unfoldable pub decode_json_chat : Reader CSystemChatMessage
decode_json_chat = do
  content ← read_string
  overlay ← read_bool
  return (record { content = content; overlay = overlay })

unfoldable pub decode_system_chat : ProtocolVersion → Reader CSystemChatMessage
decode_system_chat version =
    if less_than version v1_20_3 then decode_json_chat else (read_remaining >>= overlay_of)

unfoldable pub encode_system_chat : ProtocolVersion → CSystemChatMessage → Writer
encode_system_chat version p = write_component version p.content >> write_bool p.overlay

pub record CChatMessageLegacy : Type 0 where
  pub content : List ℕ
  pub position : ℕ

unfoldable pub read_position : ProtocolVersion → Reader ℕ
read_position version = if no_less_than version v1_8 then read_u8 else return 0

unfoldable pub read_sender : ProtocolVersion → Reader ℕ
read_sender version = if no_less_than version v1_16 then read_be 16 else return 0

unfoldable pub decode_chat_legacy : ProtocolVersion → Reader CChatMessageLegacy
decode_chat_legacy version = do
  content ← read_string
  position ← read_position version
  sender ← read_sender version
  return (record { content = content; position = position })

unfoldable pub encode_chat_legacy : ProtocolVersion → CChatMessageLegacy → Writer
encode_chat_legacy version p =
    write_string p.content
    >> ((if no_less_than version v1_8 then write_all (p.position ∷ []) else nothing_written)
        >> (if no_less_than version v1_16 then write_be 16 0 else nothing_written))

-- `SChatMessage` and `SChatCommand`: the message, and the signatures as they are.
pub record SChatMessage : Type 0 where
  pub message : List ℕ
  pub remaining : List ℕ

unfoldable pub decode_chat_message : Reader SChatMessage
decode_chat_message = do
  message ← read_string
  remaining ← read_remaining
  return (record { message = message; remaining = remaining })

unfoldable pub encode_chat_message : SChatMessage → Writer
encode_chat_message p = write_string p.message >> write_all p.remaining
