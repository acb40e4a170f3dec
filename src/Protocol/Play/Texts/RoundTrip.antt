-- ===== src/Protocol/Play/Texts/RoundTrip.antt =====
-- The packets of Texts, written and read back.
use infrarust.Common.{
  ℕ, ◌<◌, ◌≡◌, refl, Bool, true, false, some, List, [], ◌∷◌, ◌++◌, ◌==◌, if◌then◌else◌, Bool-cases,
  inl, inr, arith,
}
use infrarust.Protocol.Words.{IsWord32}
use infrarust.Protocol.Version.{ProtocolVersion, no_less_than, less_than, v1_8, v1_16, v1_20_3}
use infrarust.Protocol.Codec.{
  ◌>>=◌, ◌>>◌, read_be, read_bool, read_var_int, read_string, read_remaining, write_all, write_bool,
  max_string_chars,
}
use infrarust.Protocol.Codec.RoundTrips.{
  RoundTrips, Ends, nothing-RoundTrips, RoundTrips-Ends, then-RoundTrips, then-Ends,
  bind-RoundTrips, last-RoundTrips, last-Ends, remaining-Ends, if-RoundTrips, same-Ends,
}
use infrarust.Protocol.Codec.Values.{
  write_var_int-RoundTrips, write_be-RoundTrips, write_u8-RoundTrips, write_bool-RoundTrips, IsText,
  write_string-RoundTrips,
}
use infrarust.Protocol.Play.Texts.{
  read_component, write_json, write_component, TextPacket, decode_text, encode_text, CSetTitleTimes,
  decode_times, encode_times, CTitleLegacy, set_title, set_subtitle, set_times, times_action,
  action_id, decode_action, decode_title_legacy, encode_action, encode_title_legacy,
  CSystemChatMessage, split_last, overlay_of, decode_json_chat, decode_system_chat,
  encode_system_chat, CChatMessageLegacy, read_position, read_sender, decode_chat_legacy,
  encode_chat_legacy, SChatMessage, decode_chat_message, encode_chat_message,
}

-- A text that a version can send: any bytes from 1.20.3 on.
abbrev pub IsComponent : ProtocolVersion → List ℕ → Type 0
IsComponent version text = less_than version v1_20_3 ≡ true → IsText max_string_chars text

write_json-RoundTrips :
    (text : List ℕ) → IsText max_string_chars text → RoundTrips (write_json text) read_string text
unfolding write_json
write_json-RoundTrips text (utf8, short) =
    rw utf8 (write_string-RoundTrips max_string_chars text (utf8, short))

write_component-Ends :
    (version : ProtocolVersion) (text : List ℕ)
    → IsComponent version text
    → Ends (write_component version text) (read_component version) text
unfolding write_component read_component
write_component-Ends version text h =
    same-Ends (less_than version v1_20_3) _ _ _ _ text
      (λ p. RoundTrips-Ends _ read_string text (write_json-RoundTrips text (h p)))
      (λ p. remaining-Ends text)

pub encode_text-Ends :
    (version : ProtocolVersion) (p : TextPacket)
    → IsComponent version p.text
    → Ends (encode_text version p) (decode_text version) p
unfolding encode_text decode_text
encode_text-Ends version p h =
    last-Ends _ (read_component version) _ p.text (write_component-Ends version p.text h)

abbrev pub AreTimes : CSetTitleTimes → Type 0
AreTimes p = IsWord32 p.fade_in × (IsWord32 p.stay × IsWord32 p.fade_out)

pub encode_times-RoundTrips :
    (p : CSetTitleTimes) → AreTimes p → RoundTrips (encode_times p) decode_times p
unfolding encode_times decode_times
encode_times-RoundTrips p (fade_in, (stay, fade_out)) =
    then-RoundTrips _ _ (read_be 4) _ p.fade_in p (write_be-RoundTrips 4 _ (omega (arith, fade_in)))
      (then-RoundTrips _ _ (read_be 4) _ p.stay p (write_be-RoundTrips 4 _ (omega (arith, stay))) (
        last-RoundTrips _ (read_be 4) _ p.fade_out
          (write_be-RoundTrips 4 _ (omega (arith, fade_out)))))

abbrev pub IsTitleLegacy : CTitleLegacy → Type 0
IsTitleLegacy (set_title json) = IsText max_string_chars json
IsTitleLegacy (set_subtitle json) = IsText max_string_chars json
IsTitleLegacy (set_times times) = AreTimes times

times_action_big :
    (version : ProtocolVersion) → (1 < times_action version) × (times_action version < 4)
unfolding times_action
times_action_big version = ground arith

action_id_lt : (version : ProtocolVersion) (p : CTitleLegacy) → IsWord32 (action_id version p)
action_id_lt version (set_title json) = omega arith
action_id_lt version (set_subtitle json) = omega arith
action_id_lt version (set_times times) = omega (arith, times_action_big version)

encode_action-RoundTrips :
    (version : ProtocolVersion) (p : CTitleLegacy)
    → IsTitleLegacy p
    → RoundTrips (encode_action p) (decode_action version (action_id version p)) p
unfolding encode_action decode_action
encode_action-RoundTrips version (set_title json) h =
    last-RoundTrips _ read_string set_title json (write_string-RoundTrips max_string_chars json h)
encode_action-RoundTrips version (set_subtitle json) h =
    last-RoundTrips _ read_string set_subtitle json
      (write_string-RoundTrips max_string_chars json h)
encode_action-RoundTrips version (set_times times) h =
    let first : (times_action version == 0) ≡ false = ground (arith, times_action_big version) in
    let second : (times_action version == 1) ≡ false = ground (arith, times_action_big version) in
    let third : (times_action version == times_action version) ≡ true = ground arith in
    rw (decode_action, first, second, third)
      (last-RoundTrips _ decode_times set_times times (encode_times-RoundTrips times h))

pub encode_title_legacy-RoundTrips :
    (version : ProtocolVersion) (p : CTitleLegacy)
    → IsTitleLegacy p
    → RoundTrips (encode_title_legacy version p) (decode_title_legacy version) p
unfolding encode_title_legacy decode_title_legacy
encode_title_legacy-RoundTrips version p h =
    then-RoundTrips _ _ read_var_int (decode_action version) (action_id version p) p
      (write_var_int-RoundTrips _ (action_id_lt version p)) (encode_action-RoundTrips version p h)

split_last-append : (bytes : List ℕ) (b : ℕ) → split_last (bytes ++ (b ∷ [])) ≡ some (bytes, b)
unfolding split_last
split_last-append [] b = refl
split_last-append (c ∷ bytes) b = rw (split_last, split_last-append bytes b) refl

overlay_of-write_bool :
    (content : List ℕ) (overlay : Bool)
    → Ends
        (write_all content >> write_bool overlay)
        (read_remaining >>= overlay_of)
        (record { content = content; overlay = overlay })
unfolding overlay_of write_bool
overlay_of-write_bool content true =
    (content ++ (1 ∷ []), refl, rw (overlay_of, split_last-append content 1) refl)
overlay_of-write_bool content false =
    (content ++ (0 ∷ []), refl, rw (overlay_of, split_last-append content 0) refl)

pub encode_system_chat-Ends :
    (version : ProtocolVersion) (p : CSystemChatMessage)
    → IsComponent version p.content
    → Ends (encode_system_chat version p) (decode_system_chat version) p
unfolding encode_system_chat decode_system_chat decode_json_chat write_component
encode_system_chat-Ends version p h = elim (Bool-cases (less_than version v1_20_3)) [
  | inl old ↦ rw old (
      RoundTrips-Ends _ decode_json_chat p (
        then-RoundTrips _ _ read_string _ p.content p (write_json-RoundTrips p.content (h old))
          (last-RoundTrips _ read_bool _ p.overlay (write_bool-RoundTrips p.overlay))))
  | inr new ↦ rw new (overlay_of-write_bool p.content p.overlay)
]

-- Before 1.8 the message has no position.
abbrev pub carried_chat_legacy : ProtocolVersion → CChatMessageLegacy → CChatMessageLegacy
carried_chat_legacy version p = record p {
  position = if no_less_than version v1_8 then p.position else 0;
}

pub encode_chat_legacy-RoundTrips :
    (version : ProtocolVersion) (p : CChatMessageLegacy)
    → IsText max_string_chars p.content
    → RoundTrips
        (encode_chat_legacy version p)
        (decode_chat_legacy version)
        (carried_chat_legacy version p)
unfolding encode_chat_legacy decode_chat_legacy read_position read_sender
encode_chat_legacy-RoundTrips version p h =
    then-RoundTrips _ _ read_string _ p.content _ (write_string-RoundTrips max_string_chars _ h) (
      then-RoundTrips _ _ (read_position version) _ _ _
        (if-RoundTrips (no_less_than version v1_8) _ _ _ _ _ _ (λ _. write_u8-RoundTrips p.position)
          (λ _. nothing-RoundTrips 0))
        (bind-RoundTrips _ (read_sender version) _ _ _
          (if-RoundTrips (no_less_than version v1_16) _ _ _ _ 0 0
            (λ _. write_be-RoundTrips 16 0 (omega arith)) (λ _. nothing-RoundTrips 0))
          (λ rest. refl)))

pub encode_chat_message-Ends :
    (p : SChatMessage)
    → IsText max_string_chars p.message
    → Ends (encode_chat_message p) decode_chat_message p
unfolding encode_chat_message decode_chat_message
encode_chat_message-Ends p h =
    then-Ends _ _ read_string _ p.message p (write_string-RoundTrips max_string_chars _ h)
      (last-Ends _ read_remaining _ p.remaining (remaining-Ends p.remaining))
