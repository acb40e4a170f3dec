-- ===== src/Protocol/Play/Join.antt =====
-- play/join_game.rs and play/respawn.rs. From 1.20.2 on the fields are read; before, the rest of the
-- frame is kept as it is.
pub mod RoundTrip
use infrarust.Common.{
  ℕ, ◌+◌, ◌-◌, ◌%◌, ◌^◌, Bool, true, false, Option, none, some, List, [], ◌∷◌, ◌++◌, length, ◌==◌,
  if◌then◌else◌,
}
use infrarust.Protocol.Words.{sign_extend_32}
use infrarust.Protocol.Error.{Result, ok, err}
use infrarust.Protocol.Version.{ProtocolVersion, no_less_than, less_than, v1_20_2, v1_20_5, v1_21_2}
use infrarust.Protocol.Codec.{
  Reader, Writer, ◌>>=◌, return, ◌>>◌, nothing_written, read_u8, read_be, read_bool, read_var_int,
  read_string, read_remaining, read_many, write_all, write_be, write_bool, write_var_int, as_i32,
  write_string, write_many,
}
use infrarust.Protocol.Play.World.{
  overworld, Death, WorldInfo, decode_death_location, encode_death_location, decode_world_info,
  encode_world_info,
}

-- The fields that both packets have, in their order on the wire.
pub record Spawn : Type 0 where
  pub level_name : List ℕ
  pub hashed_seed : ℕ
  pub gamemode : ℕ
  pub previous_gamemode : ℕ
  pub is_debug : Bool
  pub is_flat : Bool
  pub death : Death
  pub world : WorldInfo

-- The defaults: no previous game mode is `-1`, the sea level is 63.
abbrev pub default_spawn : Spawn
default_spawn = record {
  level_name = [];
  hashed_seed = 0;
  gamemode = 0;
  previous_gamemode = 255;
  is_debug = false;
  is_flat = false;
  death = record { dimension = none; position = none };
  world = record { portal_cooldown = 0; sea_level = 63 };
}

unfoldable pub read_spawn : ProtocolVersion → Reader Spawn
read_spawn version = do
  level_name ← read_string
  hashed_seed ← read_be 8
  gamemode ← read_u8
  previous_gamemode ← read_u8
  is_debug ← read_bool
  is_flat ← read_bool
  death ← decode_death_location
  world ← decode_world_info version
  return (record {
    level_name = level_name;
    hashed_seed = hashed_seed;
    gamemode = gamemode;
    previous_gamemode = previous_gamemode;
    is_debug = is_debug;
    is_flat = is_flat;
    death = death;
    world = world;
  })

unfoldable pub write_spawn : ProtocolVersion → Spawn → Writer
write_spawn version p =
    write_string p.level_name
    >> (write_be 8 p.hashed_seed
        >> (write_all (p.gamemode ∷ [])
            >> (write_all (p.previous_gamemode ∷ [])
                >> (write_bool p.is_debug
                    >> (write_bool p.is_flat
                        >> (encode_death_location p.death.dimension p.death.position
                            >> encode_world_info version p.world.portal_cooldown
                                p.world.sea_level))))))

pub record CRespawn : Type 0 where
  pub dimension : ℕ
  pub spawn : Spawn
  pub data_to_keep : ℕ
  pub raw_payload : Option (List ℕ)

-- The dimension from 1.20.5 on; the name before it is dropped.
unfoldable pub read_respawn_dimension : ProtocolVersion → Reader ℕ
read_respawn_dimension version =
    if no_less_than version v1_20_5 then read_var_int else (read_string >>= λ key. return 0)

unfoldable pub decode_respawn_1_20_2 : ProtocolVersion → Reader CRespawn
decode_respawn_1_20_2 version = do
  dimension ← read_respawn_dimension version
  spawn ← read_spawn version
  data_to_keep ← read_u8
  return (record {
    dimension = dimension;
    spawn = spawn;
    data_to_keep = data_to_keep;
    raw_payload = none;
  })

abbrev pub raw_respawn : List ℕ → CRespawn
raw_respawn raw = record {
  dimension = 0;
  spawn = default_spawn;
  data_to_keep = 0;
  raw_payload = some raw;
}

unfoldable pub decode_respawn : ProtocolVersion → Reader CRespawn
decode_respawn version =
    if less_than version v1_20_2
    then (read_remaining >>= λ raw. return (raw_respawn raw))
    else decode_respawn_1_20_2 version

unfoldable pub encode_respawn_1_20_2 : ProtocolVersion → CRespawn → Writer
encode_respawn_1_20_2 version p =
    (if no_less_than version v1_20_5 then write_var_int p.dimension else write_string overworld)
    >> (write_spawn version p.spawn >> write_all (p.data_to_keep ∷ []))

unfoldable pub encode_respawn : ProtocolVersion → CRespawn → Writer
encode_respawn version p = elim (p.raw_payload) [
  | some raw ↦ write_all raw
  | none ↦ encode_respawn_1_20_2 version p
]

pub record CJoinGame : Type 0 where
  pub entity_id : ℕ
  pub is_hardcore : Bool
  pub level_names : List (List ℕ)
  pub max_players : ℕ
  pub view_distance : ℕ
  pub simulation_distance : ℕ
  pub reduced_debug_info : Bool
  pub enable_respawn_screen : Bool
  pub do_limited_crafting : Bool
  pub dimension : ℕ
  pub spawn : Spawn
  pub enforces_secure_chat : Bool
  pub raw_payload : Option (List ℕ)

abbrev pub raw_join_game : ℕ → List ℕ → CJoinGame
raw_join_game entity_id raw = record {
  entity_id = entity_id;
  is_hardcore = false;
  level_names = [];
  max_players = 20;
  view_distance = 10;
  simulation_distance = 10;
  reduced_debug_info = false;
  enable_respawn_screen = true;
  do_limited_crafting = false;
  dimension = 0;
  spawn = default_spawn;
  enforces_secure_chat = false;
  raw_payload = some raw;
}

-- The names of the levels; a count that is negative is a huge `usize`.
unfoldable pub read_level_names : Reader (List (List ℕ))
read_level_names = read_var_int >>= λ count. read_many read_string (sign_extend_32 count)

-- The dimension from 1.21.2 on; the name before it is dropped.
unfoldable pub read_join_dimension : ProtocolVersion → Reader ℕ
read_join_dimension version =
    if no_less_than version v1_21_2 then read_var_int else (read_string >>= λ key. return 0)

unfoldable pub read_secure_chat : ProtocolVersion → Reader Bool
read_secure_chat version = if no_less_than version v1_20_5 then read_bool else return false

unfoldable pub decode_join_1_20_2 : ProtocolVersion → ℕ → Reader CJoinGame
decode_join_1_20_2 version entity_id = do
  is_hardcore ← read_bool
  level_names ← read_level_names
  max_players ← read_var_int
  view_distance ← read_var_int
  simulation_distance ← read_var_int
  reduced_debug_info ← read_bool
  enable_respawn_screen ← read_bool
  do_limited_crafting ← read_bool
  dimension ← read_join_dimension version
  spawn ← read_spawn version
  enforces_secure_chat ← read_secure_chat version
  return (record {
    entity_id = entity_id;
    is_hardcore = is_hardcore;
    level_names = level_names;
    max_players = max_players;
    view_distance = view_distance;
    simulation_distance = simulation_distance;
    reduced_debug_info = reduced_debug_info;
    enable_respawn_screen = enable_respawn_screen;
    do_limited_crafting = do_limited_crafting;
    dimension = dimension;
    spawn = spawn;
    enforces_secure_chat = enforces_secure_chat;
    raw_payload = none;
  })

unfoldable pub decode_join_rest : ProtocolVersion → ℕ → Reader CJoinGame
decode_join_rest version entity_id =
    if less_than version v1_20_2
    then (read_remaining >>= λ raw. return (raw_join_game entity_id raw))
    else decode_join_1_20_2 version entity_id

unfoldable pub decode_join_game : ProtocolVersion → Reader CJoinGame
decode_join_game version = read_be 4 >>= decode_join_rest version

unfoldable pub encode_join_1_20_2 : ProtocolVersion → CJoinGame → Writer
encode_join_1_20_2 version p =
    write_bool p.is_hardcore
    >> ((write_var_int (as_i32 (length p.level_names)) >> write_many write_string p.level_names)
        >> (write_var_int p.max_players
            >> (write_var_int p.view_distance
                >> (write_var_int p.simulation_distance
                    >> (write_bool p.reduced_debug_info
                        >> (write_bool p.enable_respawn_screen
                            >> (write_bool p.do_limited_crafting
                                >> ((if no_less_than version v1_21_2
                                      then write_var_int p.dimension
                                      else write_string p.spawn.level_name)
                                    >> (write_spawn version p.spawn
                                        >> (if no_less_than version v1_20_5
                                            then write_bool p.enforces_secure_chat
                                            else nothing_written))))))))))

unfoldable pub encode_join_game : ProtocolVersion → CJoinGame → Writer
encode_join_game version p = elim (p.raw_payload) [
  | some raw ↦ write_be 4 p.entity_id >> write_all raw
  | none ↦ write_be 4 p.entity_id >> encode_join_1_20_2 version p
]
