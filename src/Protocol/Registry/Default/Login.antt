-- ===== src/Protocol/Registry/Default/Login.antt =====
-- The registrations of the states before the game.
use infrarust.Common.{false, List, [], ◌∷◌}
use infrarust.Protocol.Version.{
  v1_7_2, v1_8, v1_13, v1_20_2, v1_20_5, handshake, status, login, config, serverbound, clientbound,
}
use infrarust.Protocol.Registry.{
  from_version, registration, PacketRegistration, from_version, registration,
}
use infrarust.Protocol.Registry.Keys.{
  s_handshake, s_status_request, s_ping_request, c_status_response, c_ping_response, s_login_start,
  s_encryption_response, s_login_plugin_response, s_login_acknowledged, c_login_disconnect,
  c_encryption_request, c_login_success, c_set_compression, c_login_plugin_request,
  s_config_plugin_message, s_acknowledge_finish_config, s_known_packs, c_config_plugin_message,
  c_config_disconnect, c_finish_config, c_registry_data, c_known_packs,
}

abbrev pub handshake_status : List PacketRegistration
handshake_status =
    registration s_handshake handshake serverbound (from_version 0x00 v1_7_2 false ∷ [])
    ∷ registration s_status_request status serverbound (from_version 0x00 v1_7_2 false ∷ [])
    ∷ registration s_ping_request status serverbound (from_version 0x01 v1_7_2 false ∷ [])
    ∷ registration c_status_response status clientbound (from_version 0x00 v1_7_2 false ∷ [])
    ∷ registration c_ping_response status clientbound (from_version 0x01 v1_7_2 false ∷ [])
    ∷ []

abbrev pub login_table : List PacketRegistration
login_table =
    registration s_login_start login serverbound (from_version 0x00 v1_7_2 false ∷ [])
    ∷ registration s_encryption_response login serverbound (from_version 0x01 v1_7_2 false ∷ [])
    ∷ registration s_login_plugin_response login serverbound (from_version 0x02 v1_13 false ∷ [])
    ∷ registration s_login_acknowledged login serverbound (from_version 0x03 v1_20_2 false ∷ [])
    ∷ registration c_login_disconnect login clientbound (from_version 0x00 v1_7_2 false ∷ [])
    ∷ registration c_encryption_request login clientbound (from_version 0x01 v1_7_2 false ∷ [])
    ∷ registration c_login_success login clientbound (from_version 0x02 v1_7_2 false ∷ [])
    ∷ registration c_set_compression login clientbound (from_version 0x03 v1_8 false ∷ [])
    ∷ registration c_login_plugin_request login clientbound (from_version 0x04 v1_13 false ∷ [])
    ∷ []

abbrev pub config_table : List PacketRegistration
config_table =
    registration s_config_plugin_message config serverbound
      (from_version 0x01 v1_20_2 false ∷ from_version 0x02 v1_20_5 false ∷ [])
    ∷ registration s_acknowledge_finish_config config serverbound
        (from_version 0x02 v1_20_2 false ∷ from_version 0x03 v1_20_5 false ∷ [])
    ∷ registration s_known_packs config serverbound (from_version 0x07 v1_20_5 false ∷ [])
    ∷ registration c_config_plugin_message config clientbound
        (from_version 0x00 v1_20_2 false ∷ from_version 0x01 v1_20_5 false ∷ [])
    ∷ registration c_config_disconnect config clientbound
        (from_version 0x01 v1_20_2 false ∷ from_version 0x02 v1_20_5 false ∷ [])
    ∷ registration c_finish_config config clientbound
        (from_version 0x02 v1_20_2 false ∷ from_version 0x03 v1_20_5 false ∷ [])
    ∷ registration c_registry_data config clientbound
        (from_version 0x05 v1_20_2 false ∷ from_version 0x07 v1_20_5 false ∷ [])
    ∷ registration c_known_packs config clientbound (from_version 0x0e v1_20_5 false ∷ [])
    ∷ []
