-- ===== src/Protocol/Dispatch/Carried.antt =====
-- What of a packet a version's format carries, and which packets can be sent.
use infrarust.Common.{◌^◌, ◌<◌, length, All}
use infrarust.Protocol.Words.{IsWord32, IsWord64}
use infrarust.Protocol.Version.{ProtocolVersion}
use infrarust.Protocol.Codec.{max_string_chars}
use infrarust.Protocol.Codec.Values.{IsText}
use infrarust.Protocol.Dispatch.{Packet}
use infrarust.Protocol.Packets.Handshake.{IsHandshake}
use infrarust.Protocol.Packets.Login.Start.{IsLoginStart, carried_login_start}
use infrarust.Protocol.Packets.Login.Encryption.{
  IsEncryptionResponse, IsEncryptionRequest, carried_response, carried_request,
}
use infrarust.Protocol.Packets.Login.Success.{
  UuidText, UuidTextLaws, IsLoginSuccess, carried_success,
}
use infrarust.Protocol.Packets.Config.{IsKnownPack}
use infrarust.Protocol.Play.Small.RoundTrip.{IsTabResponse, carried_keepalive}
use infrarust.Protocol.Play.Texts.RoundTrip.{
  IsComponent, IsTitleLegacy, AreTimes, carried_chat_legacy,
}
use infrarust.Protocol.Play.Join.RoundTrip.{IsJoinGame, IsRespawn, carried_join, carried_respawn}
use infrarust.Protocol.Play.World.Positions.{
  IsSpawnPosition, IsPlayerPosition, carried_spawn, carried_position,
}
use infrarust.Protocol.Play.Commands.RoundTrip.{IsCommands}

-- The packet as the format of the version carries it.
unfoldable pub carried : ProtocolVersion → Packet → Packet
carried version (Packet.s_handshake p) = Packet.s_handshake p
carried version Packet.s_status_request = Packet.s_status_request
carried version (Packet.s_ping_request p) = Packet.s_ping_request p
carried version (Packet.c_status_response p) = Packet.c_status_response p
carried version (Packet.c_ping_response p) = Packet.c_ping_response p
carried version (Packet.s_login_start p) = Packet.s_login_start (carried_login_start version p)
carried version (Packet.s_encryption_response p) =
    Packet.s_encryption_response (carried_response version p)
carried version (Packet.s_login_plugin_response p) = Packet.s_login_plugin_response p
carried version Packet.s_login_acknowledged = Packet.s_login_acknowledged
carried version (Packet.c_login_disconnect p) = Packet.c_login_disconnect p
carried version (Packet.c_encryption_request p) =
    Packet.c_encryption_request (carried_request version p)
carried version (Packet.c_login_success p) = Packet.c_login_success (carried_success version p)
carried version (Packet.c_set_compression p) = Packet.c_set_compression p
carried version (Packet.c_login_plugin_request p) = Packet.c_login_plugin_request p
carried version (Packet.s_config_plugin_message p) = Packet.s_config_plugin_message p
carried version Packet.s_acknowledge_finish_config = Packet.s_acknowledge_finish_config
carried version (Packet.s_known_packs p) = Packet.s_known_packs p
carried version (Packet.c_config_plugin_message p) = Packet.c_config_plugin_message p
carried version (Packet.c_config_disconnect p) = Packet.c_config_disconnect p
carried version Packet.c_finish_config = Packet.c_finish_config
carried version (Packet.c_registry_data p) = Packet.c_registry_data p
carried version (Packet.c_known_packs p) = Packet.c_known_packs p
carried version (Packet.c_commands p) = Packet.c_commands p
carried version (Packet.s_tab_complete_request p) = Packet.s_tab_complete_request p
carried version (Packet.c_tab_complete_response p) = Packet.c_tab_complete_response p
carried version (Packet.c_keep_alive p) = Packet.c_keep_alive (carried_keepalive version p)
carried version (Packet.c_disconnect p) = Packet.c_disconnect p
carried version (Packet.c_join_game p) = Packet.c_join_game (carried_join version p)
carried version (Packet.c_respawn p) = Packet.c_respawn (carried_respawn version p)
carried version (Packet.c_plugin_message p) = Packet.c_plugin_message p
carried version (Packet.c_chat_message_legacy p) =
    Packet.c_chat_message_legacy (carried_chat_legacy version p)
carried version (Packet.c_system_chat_message p) = Packet.c_system_chat_message p
carried version (Packet.c_title_legacy p) = Packet.c_title_legacy p
carried version (Packet.c_set_title p) = Packet.c_set_title p
carried version (Packet.c_set_subtitle p) = Packet.c_set_subtitle p
carried version (Packet.c_set_title_times p) = Packet.c_set_title_times p
carried version (Packet.c_transfer p) = Packet.c_transfer p
carried version Packet.c_start_configuration = Packet.c_start_configuration
carried version (Packet.c_game_event p) = Packet.c_game_event p
carried version (Packet.c_set_center_chunk p) = Packet.c_set_center_chunk p
carried version Packet.c_chunk_batch_start = Packet.c_chunk_batch_start
carried version (Packet.c_chunk_batch_finished p) = Packet.c_chunk_batch_finished p
carried version (Packet.c_set_default_spawn_position p) =
    Packet.c_set_default_spawn_position (carried_spawn version p)
carried version (Packet.c_synchronize_player_position p) =
    Packet.c_synchronize_player_position (carried_position version p)
carried version Packet.s_acknowledge_configuration = Packet.s_acknowledge_configuration
carried version (Packet.s_keep_alive p) = Packet.s_keep_alive (carried_keepalive version p)
carried version (Packet.s_chat_message p) = Packet.s_chat_message p
carried version (Packet.s_chat_command p) = Packet.s_chat_command p
carried version Packet.s_chat_session_update = Packet.s_chat_session_update
carried version (Packet.s_plugin_message p) = Packet.s_plugin_message p

-- The bounds of the fields in which a packet can be sent. `SChatSessionUpdate` is never read.
abbrev pub IsSendable : UuidText → ProtocolVersion → Packet → Type 0
IsSendable text version (Packet.s_handshake p) = IsHandshake p
IsSendable text version Packet.s_status_request = Unit
IsSendable text version (Packet.s_ping_request p) = p.payload < 2 ^ 64
IsSendable text version (Packet.c_status_response p) = IsText max_string_chars p.json_response
IsSendable text version (Packet.c_ping_response p) = p.payload < 2 ^ 64
IsSendable text version (Packet.s_login_start p) = IsLoginStart p
IsSendable text version (Packet.s_encryption_response p) = IsEncryptionResponse p
IsSendable text version (Packet.s_login_plugin_response p) = IsWord32 p.message_id
IsSendable text version Packet.s_login_acknowledged = Unit
IsSendable text version (Packet.c_login_disconnect p) = IsText max_string_chars p.reason
IsSendable text version (Packet.c_encryption_request p) = IsEncryptionRequest p
IsSendable text version (Packet.c_login_success p) = IsLoginSuccess p × UuidTextLaws text p.uuid
IsSendable text version (Packet.c_set_compression p) = IsWord32 p.threshold
IsSendable text version (Packet.c_login_plugin_request p) =
    IsWord32 p.message_id × IsText max_string_chars p.channel
IsSendable text version (Packet.s_config_plugin_message p) = IsText max_string_chars p.channel
IsSendable text version Packet.s_acknowledge_finish_config = Unit
IsSendable text version (Packet.s_known_packs p) =
    (length p.packs < 2 ^ 31) × All IsKnownPack p.packs
IsSendable text version (Packet.c_config_plugin_message p) = IsText max_string_chars p.channel
IsSendable text version (Packet.c_config_disconnect p) = Unit
IsSendable text version Packet.c_finish_config = Unit
IsSendable text version (Packet.c_registry_data p) = Unit
IsSendable text version (Packet.c_known_packs p) =
    (length p.packs < 2 ^ 31) × All IsKnownPack p.packs
IsSendable text version (Packet.c_commands p) = IsCommands version p
IsSendable text version (Packet.s_tab_complete_request p) =
    IsWord32 p.transaction_id × IsText max_string_chars p.text
IsSendable text version (Packet.c_tab_complete_response p) = IsTabResponse p
IsSendable text version (Packet.c_keep_alive p) = IsWord64 p.id
IsSendable text version (Packet.c_disconnect p) = IsComponent version p.text
IsSendable text version (Packet.c_join_game p) = IsJoinGame version p
IsSendable text version (Packet.c_respawn p) = IsRespawn version p
IsSendable text version (Packet.c_plugin_message p) = IsText max_string_chars p.channel
IsSendable text version (Packet.c_chat_message_legacy p) = IsText max_string_chars p.content
IsSendable text version (Packet.c_system_chat_message p) = IsComponent version p.content
IsSendable text version (Packet.c_title_legacy p) = IsTitleLegacy p
IsSendable text version (Packet.c_set_title p) = IsComponent version p.text
IsSendable text version (Packet.c_set_subtitle p) = IsComponent version p.text
IsSendable text version (Packet.c_set_title_times p) = AreTimes p
IsSendable text version (Packet.c_transfer p) = IsText max_string_chars p.host × IsWord32 p.port
IsSendable text version Packet.c_start_configuration = Unit
IsSendable text version (Packet.c_game_event p) = IsWord32 p.value
IsSendable text version (Packet.c_set_center_chunk p) = IsWord32 p.chunk_x × IsWord32 p.chunk_z
IsSendable text version Packet.c_chunk_batch_start = Unit
IsSendable text version (Packet.c_chunk_batch_finished p) = IsWord32 p.batch_size
IsSendable text version (Packet.c_set_default_spawn_position p) = IsSpawnPosition p
IsSendable text version (Packet.c_synchronize_player_position p) = IsPlayerPosition p
IsSendable text version Packet.s_acknowledge_configuration = Unit
IsSendable text version (Packet.s_keep_alive p) = IsWord64 p.id
IsSendable text version (Packet.s_chat_message p) = IsText max_string_chars p.message
IsSendable text version (Packet.s_chat_command p) = IsText max_string_chars p.message
IsSendable text version Packet.s_chat_session_update = ⊥
IsSendable text version (Packet.s_plugin_message p) = IsText max_string_chars p.channel
