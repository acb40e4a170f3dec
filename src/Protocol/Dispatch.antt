-- ===== src/Protocol/Dispatch.antt =====
-- packets/mod.rs: a packet of any type, as `ErasedPacket` holds it, with the decoder and the encoder
-- of its type. `text` is the `uuid` crate's text form of a UUID.
pub mod Carried
pub mod RoundTrip
mod Frame
mod Wire
mod Tests
use infrarust.Protocol.Error.{invalid}
use infrarust.Protocol.Version.{ProtocolVersion}
use infrarust.Protocol.Codec.{Reader, Writer, ◌>>=◌, return, fail, nothing_written}
use infrarust.Protocol.Registry.Keys.{PacketType}
use infrarust.Protocol.Packets.Handshake.{
  SHandshake, Ping, CStatusResponse, decode_handshake, encode_handshake, decode_ping, encode_ping,
  decode_status_response, encode_status_response,
}
use infrarust.Protocol.Packets.Login.{SLoginStart, decode_login_start, encode_login_start}
use infrarust.Protocol.Packets.Login.Encryption.{
  SEncryptionResponse, CEncryptionRequest, CSetCompression, decode_encryption_response,
  encode_encryption_response, decode_encryption_request, encode_encryption_request,
  decode_set_compression, encode_set_compression,
}
use infrarust.Protocol.Packets.Login.Success.{
  CLoginSuccess, UuidText, decode_login_success, encode_login_success,
}
use infrarust.Protocol.Packets.Login.Plugin.{
  SLoginPluginResponse, CLoginDisconnect, CLoginPluginRequest, decode_plugin_response,
  encode_plugin_response, decode_login_disconnect, encode_login_disconnect, decode_plugin_request,
  encode_plugin_request,
}
use infrarust.Protocol.Packets.Config.{
  ConfigPluginMessage, KnownPacks, RawData, decode_config_message, encode_config_message,
  decode_known_packs, encode_known_packs, decode_raw, encode_raw,
}
use infrarust.Protocol.Play.Small.{
  STabCompleteRequest, CTabCompleteResponse, KeepAlive, PluginMessage, CTransfer, CGameEvent,
  CSetCenterChunk, CChunkBatchFinished, decode_tab_request, encode_tab_request, decode_tab_response,
  encode_tab_response, decode_keepalive, encode_keepalive, decode_plugin_message,
  encode_plugin_message, decode_transfer, encode_transfer, decode_game_event, encode_game_event,
  decode_center_chunk, encode_center_chunk, decode_batch_finished, encode_batch_finished,
}
use infrarust.Protocol.Play.Texts.{
  TextPacket, CChatMessageLegacy, CSystemChatMessage, CTitleLegacy, CSetTitleTimes, SChatMessage,
  decode_text, encode_text, decode_chat_legacy, encode_chat_legacy, decode_system_chat,
  encode_system_chat, decode_title_legacy, encode_title_legacy, decode_times, encode_times,
  decode_chat_message, encode_chat_message,
}
use infrarust.Protocol.Play.Join.{
  CJoinGame, CRespawn, decode_join_game, encode_join_game, decode_respawn, encode_respawn,
}
use infrarust.Protocol.Play.World.{
  CSetDefaultSpawnPosition, CSynchronizePlayerPosition, decode_spawn_position,
  encode_spawn_position, decode_player_position, encode_player_position,
}
use infrarust.Protocol.Play.Commands.{CCommands, decode_commands, encode_commands}

pub data Packet : Type 0 where
  s_handshake : SHandshake → Packet
  s_status_request : Packet
  s_ping_request : Ping → Packet
  c_status_response : CStatusResponse → Packet
  c_ping_response : Ping → Packet
  s_login_start : SLoginStart → Packet
  s_encryption_response : SEncryptionResponse → Packet
  s_login_plugin_response : SLoginPluginResponse → Packet
  s_login_acknowledged : Packet
  c_login_disconnect : CLoginDisconnect → Packet
  c_encryption_request : CEncryptionRequest → Packet
  c_login_success : CLoginSuccess → Packet
  c_set_compression : CSetCompression → Packet
  c_login_plugin_request : CLoginPluginRequest → Packet
  s_config_plugin_message : ConfigPluginMessage → Packet
  s_acknowledge_finish_config : Packet
  s_known_packs : KnownPacks → Packet
  c_config_plugin_message : ConfigPluginMessage → Packet
  c_config_disconnect : RawData → Packet
  c_finish_config : Packet
  c_registry_data : RawData → Packet
  c_known_packs : KnownPacks → Packet
  c_commands : CCommands → Packet
  s_tab_complete_request : STabCompleteRequest → Packet
  c_tab_complete_response : CTabCompleteResponse → Packet
  c_keep_alive : KeepAlive → Packet
  c_disconnect : TextPacket → Packet
  c_join_game : CJoinGame → Packet
  c_respawn : CRespawn → Packet
  c_plugin_message : PluginMessage → Packet
  c_chat_message_legacy : CChatMessageLegacy → Packet
  c_system_chat_message : CSystemChatMessage → Packet
  c_title_legacy : CTitleLegacy → Packet
  c_set_title : TextPacket → Packet
  c_set_subtitle : TextPacket → Packet
  c_set_title_times : CSetTitleTimes → Packet
  c_transfer : CTransfer → Packet
  c_start_configuration : Packet
  c_game_event : CGameEvent → Packet
  c_set_center_chunk : CSetCenterChunk → Packet
  c_chunk_batch_start : Packet
  c_chunk_batch_finished : CChunkBatchFinished → Packet
  c_set_default_spawn_position : CSetDefaultSpawnPosition → Packet
  c_synchronize_player_position : CSynchronizePlayerPosition → Packet
  s_acknowledge_configuration : Packet
  s_keep_alive : KeepAlive → Packet
  s_chat_message : SChatMessage → Packet
  s_chat_command : SChatMessage → Packet
  s_chat_session_update : Packet
  s_plugin_message : PluginMessage → Packet

unfoldable pub packet_type : Packet → PacketType
packet_type (Packet.s_handshake p) = PacketType.s_handshake
packet_type Packet.s_status_request = PacketType.s_status_request
packet_type (Packet.s_ping_request p) = PacketType.s_ping_request
packet_type (Packet.c_status_response p) = PacketType.c_status_response
packet_type (Packet.c_ping_response p) = PacketType.c_ping_response
packet_type (Packet.s_login_start p) = PacketType.s_login_start
packet_type (Packet.s_encryption_response p) = PacketType.s_encryption_response
packet_type (Packet.s_login_plugin_response p) = PacketType.s_login_plugin_response
packet_type Packet.s_login_acknowledged = PacketType.s_login_acknowledged
packet_type (Packet.c_login_disconnect p) = PacketType.c_login_disconnect
packet_type (Packet.c_encryption_request p) = PacketType.c_encryption_request
packet_type (Packet.c_login_success p) = PacketType.c_login_success
packet_type (Packet.c_set_compression p) = PacketType.c_set_compression
packet_type (Packet.c_login_plugin_request p) = PacketType.c_login_plugin_request
packet_type (Packet.s_config_plugin_message p) = PacketType.s_config_plugin_message
packet_type Packet.s_acknowledge_finish_config = PacketType.s_acknowledge_finish_config
packet_type (Packet.s_known_packs p) = PacketType.s_known_packs
packet_type (Packet.c_config_plugin_message p) = PacketType.c_config_plugin_message
packet_type (Packet.c_config_disconnect p) = PacketType.c_config_disconnect
packet_type Packet.c_finish_config = PacketType.c_finish_config
packet_type (Packet.c_registry_data p) = PacketType.c_registry_data
packet_type (Packet.c_known_packs p) = PacketType.c_known_packs
packet_type (Packet.c_commands p) = PacketType.c_commands
packet_type (Packet.s_tab_complete_request p) = PacketType.s_tab_complete_request
packet_type (Packet.c_tab_complete_response p) = PacketType.c_tab_complete_response
packet_type (Packet.c_keep_alive p) = PacketType.c_keep_alive
packet_type (Packet.c_disconnect p) = PacketType.c_disconnect
packet_type (Packet.c_join_game p) = PacketType.c_join_game
packet_type (Packet.c_respawn p) = PacketType.c_respawn
packet_type (Packet.c_plugin_message p) = PacketType.c_plugin_message
packet_type (Packet.c_chat_message_legacy p) = PacketType.c_chat_message_legacy
packet_type (Packet.c_system_chat_message p) = PacketType.c_system_chat_message
packet_type (Packet.c_title_legacy p) = PacketType.c_title_legacy
packet_type (Packet.c_set_title p) = PacketType.c_set_title
packet_type (Packet.c_set_subtitle p) = PacketType.c_set_subtitle
packet_type (Packet.c_set_title_times p) = PacketType.c_set_title_times
packet_type (Packet.c_transfer p) = PacketType.c_transfer
packet_type Packet.c_start_configuration = PacketType.c_start_configuration
packet_type (Packet.c_game_event p) = PacketType.c_game_event
packet_type (Packet.c_set_center_chunk p) = PacketType.c_set_center_chunk
packet_type Packet.c_chunk_batch_start = PacketType.c_chunk_batch_start
packet_type (Packet.c_chunk_batch_finished p) = PacketType.c_chunk_batch_finished
packet_type (Packet.c_set_default_spawn_position p) = PacketType.c_set_default_spawn_position
packet_type (Packet.c_synchronize_player_position p) = PacketType.c_synchronize_player_position
packet_type Packet.s_acknowledge_configuration = PacketType.s_acknowledge_configuration
packet_type (Packet.s_keep_alive p) = PacketType.s_keep_alive
packet_type (Packet.s_chat_message p) = PacketType.s_chat_message
packet_type (Packet.s_chat_command p) = PacketType.s_chat_command
packet_type Packet.s_chat_session_update = PacketType.s_chat_session_update
packet_type (Packet.s_plugin_message p) = PacketType.s_plugin_message

module _ (text : UuidText) where
  unfoldable pub decode_as : PacketType → ProtocolVersion → Reader Packet
  decode_as PacketType.s_handshake version = decode_handshake >>= λ p. return (Packet.s_handshake p)
  decode_as PacketType.s_status_request version = return Packet.s_status_request
  decode_as PacketType.s_ping_request version =
      decode_ping >>= λ p. return (Packet.s_ping_request p)
  decode_as PacketType.c_status_response version =
      decode_status_response >>= λ p. return (Packet.c_status_response p)
  decode_as PacketType.c_ping_response version =
      decode_ping >>= λ p. return (Packet.c_ping_response p)
  decode_as PacketType.s_login_start version =
      decode_login_start version >>= λ p. return (Packet.s_login_start p)
  decode_as PacketType.s_encryption_response version =
      decode_encryption_response version >>= λ p. return (Packet.s_encryption_response p)
  decode_as PacketType.s_login_plugin_response version =
      decode_plugin_response >>= λ p. return (Packet.s_login_plugin_response p)
  decode_as PacketType.s_login_acknowledged version = return Packet.s_login_acknowledged
  decode_as PacketType.c_login_disconnect version =
      decode_login_disconnect >>= λ p. return (Packet.c_login_disconnect p)
  decode_as PacketType.c_encryption_request version =
      decode_encryption_request version >>= λ p. return (Packet.c_encryption_request p)
  decode_as PacketType.c_login_success version =
      decode_login_success text version >>= λ p. return (Packet.c_login_success p)
  decode_as PacketType.c_set_compression version =
      decode_set_compression >>= λ p. return (Packet.c_set_compression p)
  decode_as PacketType.c_login_plugin_request version =
      decode_plugin_request >>= λ p. return (Packet.c_login_plugin_request p)
  decode_as PacketType.s_config_plugin_message version =
      decode_config_message >>= λ p. return (Packet.s_config_plugin_message p)
  decode_as PacketType.s_acknowledge_finish_config version =
      return Packet.s_acknowledge_finish_config
  decode_as PacketType.s_known_packs version =
      decode_known_packs >>= λ p. return (Packet.s_known_packs p)
  decode_as PacketType.c_config_plugin_message version =
      decode_config_message >>= λ p. return (Packet.c_config_plugin_message p)
  decode_as PacketType.c_config_disconnect version =
      decode_raw >>= λ p. return (Packet.c_config_disconnect p)
  decode_as PacketType.c_finish_config version = return Packet.c_finish_config
  decode_as PacketType.c_registry_data version =
      decode_raw >>= λ p. return (Packet.c_registry_data p)
  decode_as PacketType.c_known_packs version =
      decode_known_packs >>= λ p. return (Packet.c_known_packs p)
  decode_as PacketType.c_commands version =
      decode_commands version >>= λ p. return (Packet.c_commands p)
  decode_as PacketType.s_tab_complete_request version =
      decode_tab_request >>= λ p. return (Packet.s_tab_complete_request p)
  decode_as PacketType.c_tab_complete_response version =
      decode_tab_response >>= λ p. return (Packet.c_tab_complete_response p)
  decode_as PacketType.c_keep_alive version =
      decode_keepalive version >>= λ p. return (Packet.c_keep_alive p)
  decode_as PacketType.c_disconnect version =
      decode_text version >>= λ p. return (Packet.c_disconnect p)
  decode_as PacketType.c_join_game version =
      decode_join_game version >>= λ p. return (Packet.c_join_game p)
  decode_as PacketType.c_respawn version =
      decode_respawn version >>= λ p. return (Packet.c_respawn p)
  decode_as PacketType.c_plugin_message version =
      decode_plugin_message >>= λ p. return (Packet.c_plugin_message p)
  decode_as PacketType.c_chat_message_legacy version =
      decode_chat_legacy version >>= λ p. return (Packet.c_chat_message_legacy p)
  decode_as PacketType.c_system_chat_message version =
      decode_system_chat version >>= λ p. return (Packet.c_system_chat_message p)
  decode_as PacketType.c_title_legacy version =
      decode_title_legacy version >>= λ p. return (Packet.c_title_legacy p)
  decode_as PacketType.c_set_title version =
      decode_text version >>= λ p. return (Packet.c_set_title p)
  decode_as PacketType.c_set_subtitle version =
      decode_text version >>= λ p. return (Packet.c_set_subtitle p)
  decode_as PacketType.c_set_title_times version =
      decode_times >>= λ p. return (Packet.c_set_title_times p)
  decode_as PacketType.c_transfer version = decode_transfer >>= λ p. return (Packet.c_transfer p)
  decode_as PacketType.c_start_configuration version = return Packet.c_start_configuration
  decode_as PacketType.c_game_event version =
      decode_game_event >>= λ p. return (Packet.c_game_event p)
  decode_as PacketType.c_set_center_chunk version =
      decode_center_chunk >>= λ p. return (Packet.c_set_center_chunk p)
  decode_as PacketType.c_chunk_batch_start version = return Packet.c_chunk_batch_start
  decode_as PacketType.c_chunk_batch_finished version =
      decode_batch_finished >>= λ p. return (Packet.c_chunk_batch_finished p)
  decode_as PacketType.c_set_default_spawn_position version =
      decode_spawn_position version >>= λ p. return (Packet.c_set_default_spawn_position p)
  decode_as PacketType.c_synchronize_player_position version =
      decode_player_position version >>= λ p. return (Packet.c_synchronize_player_position p)
  decode_as PacketType.s_acknowledge_configuration version =
      return Packet.s_acknowledge_configuration
  decode_as PacketType.s_keep_alive version =
      decode_keepalive version >>= λ p. return (Packet.s_keep_alive p)
  decode_as PacketType.s_chat_message version =
      decode_chat_message >>= λ p. return (Packet.s_chat_message p)
  decode_as PacketType.s_chat_command version =
      decode_chat_message >>= λ p. return (Packet.s_chat_command p)
  decode_as PacketType.s_chat_session_update version =
      fail (invalid "SChatSessionUpdate is not decoded by the proxy")
  decode_as PacketType.s_plugin_message version =
      decode_plugin_message >>= λ p. return (Packet.s_plugin_message p)

  unfoldable pub encode_packet : ProtocolVersion → Packet → Writer
  encode_packet version (Packet.s_handshake p) = encode_handshake p
  encode_packet version Packet.s_status_request = nothing_written
  encode_packet version (Packet.s_ping_request p) = encode_ping p
  encode_packet version (Packet.c_status_response p) = encode_status_response p
  encode_packet version (Packet.c_ping_response p) = encode_ping p
  encode_packet version (Packet.s_login_start p) = encode_login_start version p
  encode_packet version (Packet.s_encryption_response p) = encode_encryption_response version p
  encode_packet version (Packet.s_login_plugin_response p) = encode_plugin_response p
  encode_packet version Packet.s_login_acknowledged = nothing_written
  encode_packet version (Packet.c_login_disconnect p) = encode_login_disconnect p
  encode_packet version (Packet.c_encryption_request p) = encode_encryption_request version p
  encode_packet version (Packet.c_login_success p) = encode_login_success text version p
  encode_packet version (Packet.c_set_compression p) = encode_set_compression p
  encode_packet version (Packet.c_login_plugin_request p) = encode_plugin_request p
  encode_packet version (Packet.s_config_plugin_message p) = encode_config_message p
  encode_packet version Packet.s_acknowledge_finish_config = nothing_written
  encode_packet version (Packet.s_known_packs p) = encode_known_packs p
  encode_packet version (Packet.c_config_plugin_message p) = encode_config_message p
  encode_packet version (Packet.c_config_disconnect p) = encode_raw p
  encode_packet version Packet.c_finish_config = nothing_written
  encode_packet version (Packet.c_registry_data p) = encode_raw p
  encode_packet version (Packet.c_known_packs p) = encode_known_packs p
  encode_packet version (Packet.c_commands p) = encode_commands version p
  encode_packet version (Packet.s_tab_complete_request p) = encode_tab_request p
  encode_packet version (Packet.c_tab_complete_response p) = encode_tab_response p
  encode_packet version (Packet.c_keep_alive p) = encode_keepalive version p
  encode_packet version (Packet.c_disconnect p) = encode_text version p
  encode_packet version (Packet.c_join_game p) = encode_join_game version p
  encode_packet version (Packet.c_respawn p) = encode_respawn version p
  encode_packet version (Packet.c_plugin_message p) = encode_plugin_message p
  encode_packet version (Packet.c_chat_message_legacy p) = encode_chat_legacy version p
  encode_packet version (Packet.c_system_chat_message p) = encode_system_chat version p
  encode_packet version (Packet.c_title_legacy p) = encode_title_legacy version p
  encode_packet version (Packet.c_set_title p) = encode_text version p
  encode_packet version (Packet.c_set_subtitle p) = encode_text version p
  encode_packet version (Packet.c_set_title_times p) = encode_times p
  encode_packet version (Packet.c_transfer p) = encode_transfer p
  encode_packet version Packet.c_start_configuration = nothing_written
  encode_packet version (Packet.c_game_event p) = encode_game_event p
  encode_packet version (Packet.c_set_center_chunk p) = encode_center_chunk p
  encode_packet version Packet.c_chunk_batch_start = nothing_written
  encode_packet version (Packet.c_chunk_batch_finished p) = encode_batch_finished p
  encode_packet version (Packet.c_set_default_spawn_position p) = encode_spawn_position version p
  encode_packet version (Packet.c_synchronize_player_position p) = encode_player_position version p
  encode_packet version Packet.s_acknowledge_configuration = nothing_written
  encode_packet version (Packet.s_keep_alive p) = encode_keepalive version p
  encode_packet version (Packet.s_chat_message p) = encode_chat_message p
  encode_packet version (Packet.s_chat_command p) = encode_chat_message p
  encode_packet version Packet.s_chat_session_update = nothing_written
  encode_packet version (Packet.s_plugin_message p) = encode_plugin_message p
