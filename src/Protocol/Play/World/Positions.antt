-- ===== src/Protocol/Play/World/Positions.antt =====
-- The positions of World, written and read back.
use infrarust.Common.{◌^◌, ◌<◌, ◌%◌, if◌then◌else◌, arith}
use infrarust.Protocol.Words.{IsWord32, IsWord64}
use infrarust.Protocol.Version.{ProtocolVersion, no_less_than, v1_9, v1_21_2, v1_21_9}
use infrarust.Protocol.Codec.{read_u8, read_be, read_var_int, max_string_chars}
use infrarust.Protocol.Codec.RoundTrips.{
  RoundTrips, nothing-RoundTrips, then-RoundTrips, last-RoundTrips, if-RoundTrips,
}
use infrarust.Protocol.Codec.Values.{
  write_var_int-RoundTrips, write_be-RoundTrips, write_u8-RoundTrips, IsText,
  write_string-RoundTrips,
}
use infrarust.Protocol.Play.World.{
  overworld, CSetDefaultSpawnPosition, read_spawn_dimension, read_spawn_pitch,
  decode_spawn_position, encode_spawn_position, CSynchronizePlayerPosition, decode_position_1_21_2,
  read_teleport_id, decode_position_1_7, decode_player_position, encode_player_position,
}

pub record IsSpawnPosition (p : CSetDefaultSpawnPosition) : Type 0 where
  pub dimension_text : IsText max_string_chars p.dimension_name
  pub location_word : IsWord64 p.location
  pub angles : IsWord32 p.yaw × IsWord32 p.pitch

-- Before 1.21.9 there is neither a dimension nor a pitch.
abbrev pub carried_spawn : ProtocolVersion → CSetDefaultSpawnPosition → CSetDefaultSpawnPosition
carried_spawn version p = record p {
  dimension_name = if no_less_than version v1_21_9 then p.dimension_name else overworld;
  pitch = if no_less_than version v1_21_9 then p.pitch else 0;
}

pub encode_spawn_position-RoundTrips :
    (version : ProtocolVersion) (p : CSetDefaultSpawnPosition)
    → IsSpawnPosition p
    → RoundTrips
        (encode_spawn_position version p)
        (decode_spawn_position version)
        (carried_spawn version p)
unfolding encode_spawn_position decode_spawn_position read_spawn_dimension read_spawn_pitch
encode_spawn_position-RoundTrips version p h =
    let (yaw, pitch) = h.angles in
    let location = h.location_word in
    then-RoundTrips _ _ (read_spawn_dimension version) _ _ _
      (if-RoundTrips (no_less_than version v1_21_9) _ _ _ _ _ _
        (λ _. write_string-RoundTrips max_string_chars _ h.dimension_text)
        (λ _. nothing-RoundTrips overworld))
      (then-RoundTrips _ _ (read_be 8) _ p.location _
        (write_be-RoundTrips 8 _ (omega (arith, location)))
        (then-RoundTrips _ _ (read_be 4) _ p.yaw _ (write_be-RoundTrips 4 _ (omega (arith, yaw))) (
          last-RoundTrips _ (read_spawn_pitch version) _ _ (
            if-RoundTrips (no_less_than version v1_21_9) _ _ _ _ _ _
              (λ _. write_be-RoundTrips 4 _ (omega (arith, pitch))) (λ _. nothing-RoundTrips 0)))))

pub record IsPlayerPosition (p : CSynchronizePlayerPosition) : Type 0 where
  pub place : (p.x < 256 ^ 8) × ((p.y < 256 ^ 8) × (p.z < 256 ^ 8))
  pub delta : (p.delta_x < 256 ^ 8) × ((p.delta_y < 256 ^ 8) × (p.delta_z < 256 ^ 8))
  pub angles : (p.yaw < 256 ^ 4) × (p.pitch < 256 ^ 4)
  pub flag_word : p.flags < 256 ^ 4
  pub id_word : IsWord32 p.teleport_id

-- Before 1.21.2 there are no deltas and one byte of flags, before 1.9 no teleport.
abbrev pub carried_position :
    ProtocolVersion → CSynchronizePlayerPosition → CSynchronizePlayerPosition
carried_position version p = if no_less_than version v1_21_2 then p else record p {
  delta_x = 0;
  delta_y = 0;
  delta_z = 0;
  flags = p.flags % 256;
  teleport_id = if no_less_than version v1_9 then p.teleport_id else 0;
}

pub encode_player_position-RoundTrips :
    (version : ProtocolVersion) (p : CSynchronizePlayerPosition)
    → IsPlayerPosition p
    → RoundTrips
        (encode_player_position version p)
        (decode_player_position version)
        (carried_position version p)
unfolding encode_player_position decode_player_position decode_position_1_21_2 decode_position_1_7
    read_teleport_id
encode_player_position-RoundTrips version p h =
    let (x, (y, z)) = h.place in
    let (dx, (dy, dz)) = h.delta in
    let (yaw, pitch) = h.angles in
    if-RoundTrips (no_less_than version v1_21_2) _ _ _ _ _ _
      (λ _.
        then-RoundTrips _ _ read_var_int _ p.teleport_id _ (write_var_int-RoundTrips _ h.id_word) (
          then-RoundTrips _ _ (read_be 8) _ p.x _ (write_be-RoundTrips 8 _ x) (
            then-RoundTrips _ _ (read_be 8) _ p.y _ (write_be-RoundTrips 8 _ y) (
              then-RoundTrips _ _ (read_be 8) _ p.z _ (write_be-RoundTrips 8 _ z) (
                then-RoundTrips _ _ (read_be 8) _ p.delta_x _ (write_be-RoundTrips 8 _ dx) (
                  then-RoundTrips _ _ (read_be 8) _ p.delta_y _ (write_be-RoundTrips 8 _ dy) (
                    then-RoundTrips _ _ (read_be 8) _ p.delta_z _ (write_be-RoundTrips 8 _ dz) (
                      then-RoundTrips _ _ (read_be 4) _ p.yaw _ (write_be-RoundTrips 4 _ yaw) (
                        then-RoundTrips _ _ (read_be 4) _ p.pitch _ (write_be-RoundTrips 4 _ pitch)
                          (last-RoundTrips _ (read_be 4) _ p.flags
                            (write_be-RoundTrips 4 _ h.flag_word)))))))))))
      (λ _. then-RoundTrips _ _ (read_be 8) _ p.x _ (write_be-RoundTrips 8 _ x) (
        then-RoundTrips _ _ (read_be 8) _ p.y _ (write_be-RoundTrips 8 _ y) (
          then-RoundTrips _ _ (read_be 8) _ p.z _ (write_be-RoundTrips 8 _ z) (
            then-RoundTrips _ _ (read_be 4) _ p.yaw _ (write_be-RoundTrips 4 _ yaw) (
              then-RoundTrips _ _ (read_be 4) _ p.pitch _ (write_be-RoundTrips 4 _ pitch) (
                then-RoundTrips _ _ read_u8 _ (p.flags % 256) _ (write_u8-RoundTrips _) (
                  last-RoundTrips _ (read_teleport_id version) _ _ (
                    if-RoundTrips (no_less_than version v1_9) _ _ _ _ _ _
                      (λ _. write_var_int-RoundTrips _ h.id_word)
                      (λ _. nothing-RoundTrips 0)))))))))
