-- ===== src/Protocol/Play/World.antt =====
-- play/spawn_position.rs, play/player_position.rs and play/common.rs. Floats are
-- their bits: `0.0` is zero.
pub mod Positions
use infrarust.Common.{
  ℕ, ◌+◌, ◌-◌, ◌%◌, ◌^◌, Bool, true, false, Option, none, some, List, [], ◌∷◌, ◌++◌, ◌==◌,
  if◌then◌else◌,
}
use infrarust.Protocol.Error.{Result, ok, err}
use infrarust.Protocol.Version.{
  ProtocolVersion, no_less_than, less_than, v1_9, v1_20_2, v1_20_5, v1_21_2, v1_21_9,
}
use infrarust.Protocol.Codec.{
  Reader, Writer, ◌>>=◌, return, ◌>>◌, nothing_written, read_u8, read_be, read_bool, read_var_int,
  read_string, read_remaining, write_all, write_be, write_bool, write_var_int, write_string,
}

-- "minecraft:overworld".
abbrev pub overworld : List ℕ
overworld =
    109 ∷ 105 ∷ 110 ∷ 101 ∷ 99 ∷ 114 ∷ 97 ∷ 102 ∷ 116 ∷ 58 ∷ 111 ∷ 118 ∷ 101 ∷ 114 ∷ 119 ∷ 111 ∷ 114
    ∷ 108 ∷ 100 ∷ []

pub record CSetDefaultSpawnPosition : Type 0 where
  pub dimension_name : List ℕ
  pub location : ℕ
  pub yaw : ℕ
  pub pitch : ℕ

unfoldable pub read_spawn_dimension : ProtocolVersion → Reader (List ℕ)
read_spawn_dimension version =
    if no_less_than version v1_21_9 then read_string else return overworld

unfoldable pub read_spawn_pitch : ProtocolVersion → Reader ℕ
read_spawn_pitch version = if no_less_than version v1_21_9 then read_be 4 else return 0

unfoldable pub decode_spawn_position : ProtocolVersion → Reader CSetDefaultSpawnPosition
decode_spawn_position version = do
  dimension_name ← read_spawn_dimension version
  location ← read_be 8
  yaw ← read_be 4
  pitch ← read_spawn_pitch version
  return (record { dimension_name = dimension_name; location = location; yaw = yaw; pitch = pitch })

unfoldable pub encode_spawn_position : ProtocolVersion → CSetDefaultSpawnPosition → Writer
encode_spawn_position version p =
    (if no_less_than version v1_21_9 then write_string p.dimension_name else nothing_written)
    >> (write_be 8 p.location
        >> (write_be 4 p.yaw
            >> (if no_less_than version v1_21_9 then write_be 4 p.pitch else nothing_written)))

pub record CSynchronizePlayerPosition : Type 0 where
  pub x : ℕ
  pub y : ℕ
  pub z : ℕ
  pub delta_x : ℕ
  pub delta_y : ℕ
  pub delta_z : ℕ
  pub yaw : ℕ
  pub pitch : ℕ
  pub flags : ℕ
  pub teleport_id : ℕ

-- The formats of 1.21.2 and of the versions before it.
unfoldable pub decode_position_1_21_2 : Reader CSynchronizePlayerPosition
decode_position_1_21_2 = do
  teleport_id ← read_var_int
  x ← read_be 8
  y ← read_be 8
  z ← read_be 8
  delta_x ← read_be 8
  delta_y ← read_be 8
  delta_z ← read_be 8
  yaw ← read_be 4
  pitch ← read_be 4
  flags ← read_be 4
  return (record {
    x = x;
    y = y;
    z = z;
    delta_x = delta_x;
    delta_y = delta_y;
    delta_z = delta_z;
    yaw = yaw;
    pitch = pitch;
    flags = flags;
    teleport_id = teleport_id;
  })

unfoldable pub read_teleport_id : ProtocolVersion → Reader ℕ
read_teleport_id version = if no_less_than version v1_9 then read_var_int else return 0

unfoldable pub decode_position_1_7 : ProtocolVersion → Reader CSynchronizePlayerPosition
decode_position_1_7 version = do
  x ← read_be 8
  y ← read_be 8
  z ← read_be 8
  yaw ← read_be 4
  pitch ← read_be 4
  flags ← read_u8
  teleport_id ← read_teleport_id version
  return (record {
    x = x;
    y = y;
    z = z;
    delta_x = 0;
    delta_y = 0;
    delta_z = 0;
    yaw = yaw;
    pitch = pitch;
    flags = flags;
    teleport_id = teleport_id;
  })

unfoldable pub decode_player_position : ProtocolVersion → Reader CSynchronizePlayerPosition
decode_player_position version =
    if no_less_than version v1_21_2 then decode_position_1_21_2 else decode_position_1_7 version

unfoldable pub encode_player_position : ProtocolVersion → CSynchronizePlayerPosition → Writer
encode_player_position version p =
    if no_less_than version v1_21_2
    then (write_var_int p.teleport_id
        >> (write_be 8 p.x
            >> (write_be 8 p.y
                >> (write_be 8 p.z
                    >> (write_be 8 p.delta_x
                        >> (write_be 8 p.delta_y
                            >> (write_be 8 p.delta_z
                                >> (write_be 4 p.yaw
                                    >> (write_be 4 p.pitch >> write_be 4 p.flags)))))))))
    else (write_be 8 p.x
        >> (write_be 8 p.y
            >> (write_be 8 p.z
                >> (write_be 4 p.yaw
                    >> (write_be 4 p.pitch
                        >> (write_all (p.flags % 256 ∷ [])
                            >> (if no_less_than version v1_9
                                then write_var_int p.teleport_id
                                else nothing_written)))))))

-- The place of the last death, where there is one.
pub record Death : Type 0 where
  pub dimension : Option (List ℕ)
  pub position : Option ℕ

unfoldable pub read_death : Bool → Reader Death
read_death false = return (record { dimension = none; position = none })
read_death true = do
  dim ← read_string
  pos ← read_be 8
  return (record { dimension = some dim; position = some pos })

unfoldable pub decode_death_location : Reader Death
decode_death_location = read_bool >>= read_death

unfoldable pub encode_death_location : Option (List ℕ) → Option ℕ → Writer
encode_death_location (some dim) (some pos) =
    write_bool true >> (write_string dim >> write_be 8 pos)
encode_death_location (some dim) none = write_bool false
encode_death_location none pos = write_bool false

pub record WorldInfo : Type 0 where
  pub portal_cooldown : ℕ
  pub sea_level : ℕ

unfoldable pub read_sea_level : ProtocolVersion → Reader ℕ
read_sea_level version = if no_less_than version v1_21_2 then read_var_int else return 63

unfoldable pub decode_world_info : ProtocolVersion → Reader WorldInfo
decode_world_info version = do
  portal_cooldown ← read_var_int
  sea_level ← read_sea_level version
  return (record { portal_cooldown = portal_cooldown; sea_level = sea_level })

unfoldable pub encode_world_info : ProtocolVersion → ℕ → ℕ → Writer
encode_world_info version portal_cooldown sea_level =
    write_var_int portal_cooldown
    >> (if no_less_than version v1_21_2 then write_var_int sea_level else nothing_written)
