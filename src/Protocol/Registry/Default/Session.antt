-- ===== src/Protocol/Registry/Default/Session.antt =====
-- The clientbound registrations of the game for commands, the session and texts.
use infrarust.Common.{true, false, List, [], ◌∷◌}
use infrarust.Protocol.Version.{
  v1_7_2, v1_8, v1_9, v1_12, v1_12_1, v1_13, v1_14, v1_15, v1_16, v1_16_2, v1_17, v1_18, v1_19,
  v1_19_1, v1_19_3, v1_19_4, v1_20_2, v1_20_3, v1_20_5, v1_21_2, v1_21_5, v1_21_6, v1_21_9, play,
  serverbound, clientbound,
}
use infrarust.Protocol.Registry.{
  from_version, registration, PacketRegistration, from_version, registration,
}
use infrarust.Protocol.Registry.Keys.{
  c_commands, s_tab_complete_request, c_tab_complete_response, c_keep_alive, c_disconnect,
  c_join_game, c_respawn, c_plugin_message, c_chat_message_legacy, c_system_chat_message,
  c_title_legacy, c_set_title, c_set_subtitle, c_set_title_times,
}

abbrev pub play_commands : List PacketRegistration
play_commands =
    registration c_commands play clientbound (
      from_version 0x11 v1_13 false
      ∷ from_version 0x12 v1_15 false
      ∷ from_version 0x11 v1_16 false
      ∷ from_version 0x10 v1_16_2 false
      ∷ from_version 0x12 v1_17 false
      ∷ from_version 0x0f v1_19 false
      ∷ from_version 0x0e v1_19_3 false
      ∷ from_version 0x10 v1_19_4 false
      ∷ from_version 0x11 v1_20_2 false
      ∷ from_version 0x10 v1_21_5 false
      ∷ [])
    ∷ registration s_tab_complete_request play serverbound (
        from_version 0x05 v1_13 false
        ∷ from_version 0x06 v1_14 false
        ∷ from_version 0x08 v1_19 false
        ∷ from_version 0x09 v1_19_1 false
        ∷ from_version 0x08 v1_19_3 false
        ∷ from_version 0x09 v1_19_4 false
        ∷ from_version 0x0a v1_20_2 false
        ∷ from_version 0x0b v1_20_5 false
        ∷ from_version 0x0d v1_21_2 false
        ∷ from_version 0x0e v1_21_6 false
        ∷ [])
    ∷ registration c_tab_complete_response play clientbound (
        from_version 0x10 v1_13 false
        ∷ from_version 0x11 v1_15 false
        ∷ from_version 0x10 v1_16 false
        ∷ from_version 0x0f v1_16_2 false
        ∷ from_version 0x11 v1_17 false
        ∷ from_version 0x0e v1_19 false
        ∷ from_version 0x0d v1_19_3 false
        ∷ from_version 0x0f v1_19_4 false
        ∷ from_version 0x10 v1_20_2 false
        ∷ from_version 0x0f v1_21_5 false
        ∷ [])
    ∷ []

abbrev pub play_session : List PacketRegistration
play_session =
    registration c_keep_alive play clientbound (
      from_version 0x00 v1_7_2 false
      ∷ from_version 0x1f v1_9 false
      ∷ from_version 0x21 v1_13 false
      ∷ from_version 0x20 v1_14 false
      ∷ from_version 0x21 v1_15 false
      ∷ from_version 0x20 v1_16 false
      ∷ from_version 0x1f v1_16_2 false
      ∷ from_version 0x21 v1_17 false
      ∷ from_version 0x1e v1_19 false
      ∷ from_version 0x20 v1_19_1 false
      ∷ from_version 0x1f v1_19_3 false
      ∷ from_version 0x23 v1_19_4 false
      ∷ from_version 0x24 v1_20_2 false
      ∷ from_version 0x26 v1_20_5 false
      ∷ from_version 0x27 v1_21_2 false
      ∷ from_version 0x26 v1_21_5 false
      ∷ from_version 0x2b v1_21_9 false
      ∷ [])
    ∷ registration c_disconnect play clientbound (
        from_version 0x40 v1_7_2 false
        ∷ from_version 0x1a v1_9 false
        ∷ from_version 0x1b v1_13 false
        ∷ from_version 0x1a v1_14 false
        ∷ from_version 0x1b v1_15 false
        ∷ from_version 0x1a v1_16 false
        ∷ from_version 0x19 v1_16_2 false
        ∷ from_version 0x1a v1_17 false
        ∷ from_version 0x17 v1_19 false
        ∷ from_version 0x19 v1_19_1 false
        ∷ from_version 0x17 v1_19_3 false
        ∷ from_version 0x1a v1_19_4 false
        ∷ from_version 0x1b v1_20_2 false
        ∷ from_version 0x1d v1_20_5 false
        ∷ from_version 0x1c v1_21_5 false
        ∷ from_version 0x20 v1_21_9 false
        ∷ [])
    ∷ registration c_join_game play clientbound (
        from_version 0x01 v1_7_2 true
        ∷ from_version 0x23 v1_9 true
        ∷ from_version 0x25 v1_13 true
        ∷ from_version 0x25 v1_14 true
        ∷ from_version 0x26 v1_15 true
        ∷ from_version 0x25 v1_16 true
        ∷ from_version 0x24 v1_16_2 true
        ∷ from_version 0x26 v1_17 true
        ∷ from_version 0x23 v1_19 true
        ∷ from_version 0x25 v1_19_1 true
        ∷ from_version 0x24 v1_19_3 true
        ∷ from_version 0x28 v1_19_4 true
        ∷ from_version 0x29 v1_20_2 true
        ∷ from_version 0x2b v1_20_5 true
        ∷ from_version 0x2c v1_21_2 true
        ∷ from_version 0x2b v1_21_5 true
        ∷ from_version 0x30 v1_21_9 true
        ∷ [])
    ∷ registration c_respawn play clientbound (
        from_version 0x07 v1_7_2 true
        ∷ from_version 0x33 v1_9 true
        ∷ from_version 0x34 v1_12 true
        ∷ from_version 0x35 v1_12_1 true
        ∷ from_version 0x38 v1_13 true
        ∷ from_version 0x3a v1_14 true
        ∷ from_version 0x3b v1_15 true
        ∷ from_version 0x3a v1_16 true
        ∷ from_version 0x39 v1_16_2 true
        ∷ from_version 0x3d v1_17 true
        ∷ from_version 0x3b v1_19 true
        ∷ from_version 0x3e v1_19_1 true
        ∷ from_version 0x3d v1_19_3 true
        ∷ from_version 0x41 v1_19_4 true
        ∷ from_version 0x43 v1_20_2 true
        ∷ from_version 0x45 v1_20_3 true
        ∷ from_version 0x47 v1_20_5 true
        ∷ from_version 0x4c v1_21_2 true
        ∷ from_version 0x4b v1_21_5 true
        ∷ from_version 0x50 v1_21_9 true
        ∷ [])
    ∷ registration c_plugin_message play clientbound (
        from_version 0x3f v1_7_2 true
        ∷ from_version 0x18 v1_9 true
        ∷ from_version 0x19 v1_13 true
        ∷ from_version 0x18 v1_14 true
        ∷ from_version 0x19 v1_15 true
        ∷ from_version 0x18 v1_16 true
        ∷ from_version 0x17 v1_16_2 true
        ∷ from_version 0x18 v1_17 true
        ∷ from_version 0x15 v1_19 true
        ∷ from_version 0x16 v1_19_1 true
        ∷ from_version 0x15 v1_19_3 true
        ∷ from_version 0x17 v1_19_4 true
        ∷ from_version 0x18 v1_20_2 true
        ∷ from_version 0x19 v1_20_5 true
        ∷ from_version 0x18 v1_21_5 true
        ∷ [])
    ∷ []

abbrev pub play_chat_title : List PacketRegistration
play_chat_title =
    registration c_chat_message_legacy play clientbound (
      from_version 0x02 v1_7_2 true
      ∷ from_version 0x0f v1_9 true
      ∷ from_version 0x0e v1_13 true
      ∷ from_version 0x0f v1_15 true
      ∷ from_version 0x0e v1_16 true
      ∷ from_version 0x0f v1_17 true
      ∷ [])
    ∷ registration c_system_chat_message play clientbound (
        from_version 0x5f v1_19 true
        ∷ from_version 0x62 v1_19_1 true
        ∷ from_version 0x60 v1_19_3 true
        ∷ from_version 0x64 v1_19_4 true
        ∷ from_version 0x67 v1_20_2 true
        ∷ from_version 0x69 v1_20_3 true
        ∷ from_version 0x6c v1_20_5 true
        ∷ from_version 0x73 v1_21_2 true
        ∷ from_version 0x72 v1_21_5 true
        ∷ from_version 0x77 v1_21_9 true
        ∷ [])
    ∷ registration c_title_legacy play clientbound (
        from_version 0x45 v1_8 true
        ∷ from_version 0x47 v1_9 true
        ∷ from_version 0x48 v1_12 true
        ∷ from_version 0x4b v1_13 true
        ∷ from_version 0x4f v1_14 true
        ∷ from_version 0x50 v1_15 true
        ∷ from_version 0x4f v1_16 true
        ∷ [])
    ∷ registration c_set_title play clientbound (
        from_version 0x59 v1_17 true
        ∷ from_version 0x5a v1_18 true
        ∷ from_version 0x5d v1_19_1 true
        ∷ from_version 0x5b v1_19_3 true
        ∷ from_version 0x5f v1_19_4 true
        ∷ from_version 0x61 v1_20_2 true
        ∷ from_version 0x63 v1_20_3 true
        ∷ from_version 0x65 v1_20_5 true
        ∷ from_version 0x6c v1_21_2 true
        ∷ from_version 0x6b v1_21_5 true
        ∷ from_version 0x70 v1_21_9 true
        ∷ [])
    ∷ registration c_set_subtitle play clientbound (
        from_version 0x57 v1_17 true
        ∷ from_version 0x58 v1_18 true
        ∷ from_version 0x5b v1_19_1 true
        ∷ from_version 0x59 v1_19_3 true
        ∷ from_version 0x5d v1_19_4 true
        ∷ from_version 0x5f v1_20_2 true
        ∷ from_version 0x61 v1_20_3 true
        ∷ from_version 0x63 v1_20_5 true
        ∷ from_version 0x6a v1_21_2 true
        ∷ from_version 0x69 v1_21_5 true
        ∷ from_version 0x6e v1_21_9 true
        ∷ [])
    ∷ registration c_set_title_times play clientbound (
        from_version 0x5a v1_17 true
        ∷ from_version 0x5b v1_18 true
        ∷ from_version 0x5e v1_19_1 true
        ∷ from_version 0x5c v1_19_3 true
        ∷ from_version 0x60 v1_19_4 true
        ∷ from_version 0x62 v1_20_2 true
        ∷ from_version 0x64 v1_20_3 true
        ∷ from_version 0x66 v1_20_5 true
        ∷ from_version 0x6d v1_21_2 true
        ∷ from_version 0x6c v1_21_5 true
        ∷ from_version 0x71 v1_21_9 true
        ∷ [])
    ∷ []
