-- ===== src/Protocol/Registry/Tests.antt =====
-- Two registrations of one state, in which a packet changes its id at 1.9.
use infrarust.Common.{◌≡◌, some, true, false, List, [], ◌∷◌}
use infrarust.Protocol.Version.{
  v1_7_2, v1_9, play, clientbound, no_less_than, no_greater_than, signed_order,
}
use infrarust.Protocol.Registry.{PacketRegistration, get_packet_id, find_decoder, register_all}
use infrarust.Protocol.Registry.Keys.{
  PacketType, registry_key, same_key, state_index, direction_index, type_id,
}
use infrarust.Protocol.Registry.Table.{
  listed, lasts, in_force, covers, last_id, last_decoder, table_id, table_decoder,
}
use infrarust.Protocol.Registry.Refines.{register_all-table}
use infrarust.Protocol.Registry.{from_version, registration}

abbrev two_registrations : List PacketRegistration
two_registrations =
    registration PacketType.c_keep_alive play clientbound
      (from_version 0x00 v1_7_2 false ∷ from_version 0x1f v1_9 false ∷ [])
    ∷ registration PacketType.c_join_game play clientbound
        (from_version 0x1f v1_7_2 true ∷ from_version 0x24 v1_9 true ∷ [])
    ∷ []

-- At 1.9 the second mapping of each takes over.
register_all-table_example :
    (get_packet_id
        (register_all two_registrations [])
        (registry_key play clientbound v1_9)
        PacketType.c_join_game
      ≡ some 0x24)
    × (find_decoder (register_all two_registrations []) (registry_key play clientbound v1_9) 0x1f
        ≡ some PacketType.c_keep_alive)
unfolding listed in_force covers last_id last_decoder table_id table_decoder same_key state_index
    direction_index type_id signed_order no_less_than no_greater_than lasts
register_all-table_example =
    register_all-table two_registrations (registry_key play clientbound v1_9) PacketType.c_join_game
      0x1f
