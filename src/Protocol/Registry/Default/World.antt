-- ===== src/Protocol/Registry/Default/World.antt =====
-- The clientbound registrations of the game for the world, and the serverbound ones.
use infrarust.Common.{true, false, List, [], ◌∷◌}
use infrarust.Protocol.Version.{
  v1_7_2, v1_9, v1_12, v1_12_1, v1_13, v1_14, v1_15, v1_16, v1_16_2, v1_17, v1_18, v1_19, v1_19_1,
  v1_19_3, v1_19_4, v1_20_2, v1_20_3, v1_20_5, v1_21, v1_21_2, v1_21_5, v1_21_6, v1_21_9, play,
  serverbound, clientbound,
}
use infrarust.Protocol.Registry.{
  from_version, registration, PacketRegistration, from_version, registration,
}
use infrarust.Protocol.Registry.Keys.{
  c_transfer, c_start_configuration, c_game_event, c_set_center_chunk, c_chunk_batch_start,
  c_chunk_batch_finished, c_set_default_spawn_position, c_synchronize_player_position,
  s_acknowledge_configuration, s_keep_alive, s_chat_message, s_chat_command, s_chat_session_update,
  s_plugin_message,
}

abbrev pub play_world : List PacketRegistration
play_world =
    registration c_transfer play clientbound (
      from_version 0x73 v1_20_5 true
      ∷ from_version 0x7a v1_21_2 true
      ∷ from_version 0x7f v1_21_9 true
      ∷ [])
    ∷ registration c_start_configuration play clientbound (
        from_version 0x65 v1_20_2 true
        ∷ from_version 0x67 v1_20_3 true
        ∷ from_version 0x69 v1_20_5 true
        ∷ from_version 0x70 v1_21_2 true
        ∷ from_version 0x6f v1_21_5 true
        ∷ from_version 0x74 v1_21_9 true
        ∷ [])
    ∷ registration c_game_event play clientbound (
        from_version 0x1b v1_9 true
        ∷ from_version 0x1e v1_13 true
        ∷ from_version 0x1d v1_14 true
        ∷ from_version 0x1e v1_15 true
        ∷ from_version 0x1d v1_16 true
        ∷ from_version 0x1c v1_16_2 true
        ∷ from_version 0x1d v1_17 true
        ∷ from_version 0x1b v1_19 true
        ∷ from_version 0x1d v1_19_1 true
        ∷ from_version 0x1c v1_19_3 true
        ∷ from_version 0x20 v1_19_4 true
        ∷ from_version 0x20 v1_20_2 true
        ∷ from_version 0x22 v1_20_5 true
        ∷ from_version 0x23 v1_21_2 true
        ∷ from_version 0x22 v1_21_5 true
        ∷ from_version 0x26 v1_21_9 true
        ∷ [])
    ∷ registration c_set_center_chunk play clientbound (
        from_version 0x40 v1_14 true
        ∷ from_version 0x41 v1_15 true
        ∷ from_version 0x40 v1_16 true
        ∷ from_version 0x49 v1_17 true
        ∷ from_version 0x4a v1_18 true
        ∷ from_version 0x48 v1_19 true
        ∷ from_version 0x4b v1_19_1 true
        ∷ from_version 0x4a v1_19_3 true
        ∷ from_version 0x4e v1_19_4 true
        ∷ from_version 0x50 v1_20_2 true
        ∷ from_version 0x52 v1_20_3 true
        ∷ from_version 0x54 v1_20_5 true
        ∷ from_version 0x58 v1_21_2 true
        ∷ from_version 0x57 v1_21_5 true
        ∷ from_version 0x5c v1_21_9 true
        ∷ [])
    ∷ registration c_chunk_batch_start play clientbound (
        from_version 0x0d v1_20_2 true
        ∷ from_version 0x0d v1_20_5 true
        ∷ from_version 0x0c v1_21_5 true
        ∷ from_version 0x0c v1_21_9 true
        ∷ [])
    ∷ registration c_chunk_batch_finished play clientbound (
        from_version 0x0c v1_20_2 true
        ∷ from_version 0x0c v1_20_5 true
        ∷ from_version 0x0b v1_21_5 true
        ∷ from_version 0x0b v1_21_9 true
        ∷ [])
    ∷ registration c_set_default_spawn_position play clientbound (
        from_version 0x05 v1_7_2 true
        ∷ from_version 0x43 v1_9 true
        ∷ from_version 0x46 v1_12 true
        ∷ from_version 0x49 v1_13 true
        ∷ from_version 0x4d v1_14 true
        ∷ from_version 0x4e v1_15 true
        ∷ from_version 0x42 v1_16 true
        ∷ from_version 0x4b v1_17 true
        ∷ from_version 0x4c v1_18 true
        ∷ from_version 0x4a v1_19 true
        ∷ from_version 0x4d v1_19_1 true
        ∷ from_version 0x4c v1_19_3 true
        ∷ from_version 0x50 v1_19_4 true
        ∷ from_version 0x52 v1_20_2 true
        ∷ from_version 0x54 v1_20_3 true
        ∷ from_version 0x56 v1_20_5 true
        ∷ from_version 0x5b v1_21_2 true
        ∷ from_version 0x5a v1_21_5 true
        ∷ from_version 0x5f v1_21_9 true
        ∷ [])
    ∷ registration c_synchronize_player_position play clientbound (
        from_version 0x08 v1_7_2 true
        ∷ from_version 0x2e v1_9 true
        ∷ from_version 0x2f v1_12_1 true
        ∷ from_version 0x32 v1_13 true
        ∷ from_version 0x35 v1_14 true
        ∷ from_version 0x36 v1_15 true
        ∷ from_version 0x35 v1_16 true
        ∷ from_version 0x34 v1_16_2 true
        ∷ from_version 0x38 v1_17 true
        ∷ from_version 0x39 v1_18 true
        ∷ from_version 0x36 v1_19 true
        ∷ from_version 0x39 v1_19_1 true
        ∷ from_version 0x38 v1_19_3 true
        ∷ from_version 0x3c v1_19_4 true
        ∷ from_version 0x3e v1_20_2 true
        ∷ from_version 0x40 v1_20_3 true
        ∷ from_version 0x42 v1_20_5 true
        ∷ from_version 0x42 v1_21_2 true
        ∷ from_version 0x41 v1_21_5 true
        ∷ from_version 0x46 v1_21_9 true
        ∷ [])
    ∷ []

abbrev pub play_serverbound : List PacketRegistration
play_serverbound =
    registration s_acknowledge_configuration play serverbound (
      from_version 0x0b v1_20_2 false
      ∷ from_version 0x0c v1_20_5 false
      ∷ from_version 0x0e v1_21_2 false
      ∷ from_version 0x0f v1_21_6 false
      ∷ [])
    ∷ registration s_keep_alive play serverbound (
        from_version 0x00 v1_7_2 false
        ∷ from_version 0x0b v1_9 false
        ∷ from_version 0x0c v1_12 false
        ∷ from_version 0x0b v1_12_1 false
        ∷ from_version 0x0e v1_13 false
        ∷ from_version 0x0f v1_14 false
        ∷ from_version 0x10 v1_16 false
        ∷ from_version 0x0f v1_17 false
        ∷ from_version 0x11 v1_19 false
        ∷ from_version 0x12 v1_19_1 false
        ∷ from_version 0x11 v1_19_3 false
        ∷ from_version 0x12 v1_19_4 false
        ∷ from_version 0x14 v1_20_2 false
        ∷ from_version 0x15 v1_20_3 false
        ∷ from_version 0x18 v1_20_5 false
        ∷ from_version 0x1a v1_21_2 false
        ∷ from_version 0x1b v1_21_6 false
        ∷ [])
    ∷ registration s_chat_message play serverbound (
        from_version 0x01 v1_7_2 true
        ∷ from_version 0x02 v1_9 true
        ∷ from_version 0x03 v1_12 true
        ∷ from_version 0x02 v1_12_1 true
        ∷ from_version 0x02 v1_13 true
        ∷ from_version 0x03 v1_14 true
        ∷ from_version 0x03 v1_15 true
        ∷ from_version 0x03 v1_16 true
        ∷ from_version 0x03 v1_17 true
        ∷ from_version 0x05 v1_19 true
        ∷ from_version 0x05 v1_19_1 true
        ∷ from_version 0x05 v1_19_3 true
        ∷ from_version 0x05 v1_19_4 true
        ∷ from_version 0x06 v1_20_2 true
        ∷ from_version 0x06 v1_20_5 true
        ∷ from_version 0x07 v1_21_2 true
        ∷ from_version 0x08 v1_21_6 true
        ∷ [])
    ∷ registration s_chat_command play serverbound (
        from_version 0x04 v1_19 true
        ∷ from_version 0x04 v1_19_1 true
        ∷ from_version 0x04 v1_19_3 true
        ∷ from_version 0x04 v1_19_4 true
        ∷ from_version 0x04 v1_20_2 true
        ∷ from_version 0x04 v1_20_5 true
        ∷ from_version 0x05 v1_21_2 true
        ∷ from_version 0x06 v1_21_6 true
        ∷ [])
    ∷ registration s_chat_session_update play serverbound (
        from_version 0x07 v1_21 true
        ∷ from_version 0x08 v1_21_2 true
        ∷ from_version 0x09 v1_21_6 true
        ∷ [])
    ∷ registration s_plugin_message play serverbound (
        from_version 0x17 v1_7_2 true
        ∷ from_version 0x09 v1_9 true
        ∷ from_version 0x0a v1_12 true
        ∷ from_version 0x09 v1_12_1 true
        ∷ from_version 0x0a v1_13 true
        ∷ from_version 0x0b v1_14 true
        ∷ from_version 0x0a v1_17 true
        ∷ from_version 0x0c v1_19 true
        ∷ from_version 0x0d v1_19_1 true
        ∷ from_version 0x0c v1_19_3 true
        ∷ from_version 0x0d v1_19_4 true
        ∷ from_version 0x0f v1_20_2 true
        ∷ from_version 0x10 v1_20_3 true
        ∷ from_version 0x12 v1_20_5 true
        ∷ from_version 0x14 v1_21_2 true
        ∷ from_version 0x15 v1_21_6 true
        ∷ [])
    ∷ []
