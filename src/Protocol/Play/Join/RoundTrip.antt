-- ===== src/Protocol/Play/Join/RoundTrip.antt =====
-- The packets of Join, written and read back.
use infrarust.Common.{
  ℕ, ◌^◌, ◌<◌, ◌≡◌, refl, true, false, Option, none, some, List, [], length, All, if◌then◌else◌,
  Bool-cases, inl, inr, arith,
}
use infrarust.Protocol.Words.{IsWord32, IsWord64, sign_extend_32}
use infrarust.Protocol.Version.{ProtocolVersion, no_less_than, less_than, v1_20_2, v1_20_5, v1_21_2}
use infrarust.Protocol.Codec.{
  read_u8, read_be, read_bool, read_var_int, read_string, read_remaining, as_i32, write_string,
  max_string_chars, write_var_int, write_many, write_all, ◌>>◌,
}
use infrarust.Protocol.Codec.RoundTrips.{
  RoundTrips, Ends, nothing-RoundTrips, RoundTrips-Ends, then-RoundTrips, then-Ends,
  bind-RoundTrips, last-RoundTrips, last-Ends, remaining-Ends, if-RoundTrips, write_many-RoundTrips,
}
use infrarust.Protocol.Codec.Values.{
  write_var_int-RoundTrips, write_be-RoundTrips, write_u8-RoundTrips, write_bool-RoundTrips, IsText,
  write_string-RoundTrips, OptionAll,
}
use infrarust.Protocol.Codec.Utf8.{validate, after_first, char_count}
use infrarust.Protocol.Play.World.{
  overworld, Death, WorldInfo, read_death, decode_death_location, encode_death_location,
  read_sea_level, decode_world_info, encode_world_info,
}
use infrarust.Protocol.Play.Join.{
  Spawn, read_spawn, write_spawn, CRespawn, read_respawn_dimension, decode_respawn_1_20_2,
  raw_respawn, decode_respawn, encode_respawn_1_20_2, encode_respawn, CJoinGame, raw_join_game,
  read_level_names, read_join_dimension, read_secure_chat, decode_join_1_20_2, decode_join_rest,
  decode_join_game, encode_join_1_20_2, encode_join_game,
}

-- A place of death is sent when both its parts are there.
abbrev pub carried_death : Option (List ℕ) → Option ℕ → Death
carried_death (some dim) (some pos) = record { dimension = some dim; position = some pos }
carried_death (some dim) none = record { dimension = none; position = none }
carried_death none pos = record { dimension = none; position = none }

abbrev pub carried_world : ProtocolVersion → WorldInfo → WorldInfo
carried_world version p = record p {
  sea_level = if no_less_than version v1_21_2 then p.sea_level else 63;
}

abbrev pub carried_spawn_info : ProtocolVersion → Spawn → Spawn
carried_spawn_info version p = record p {
  death = carried_death p.death.dimension p.death.position;
  world = carried_world version p.world;
}

pub record IsSpawn (p : Spawn) : Type 0 where
  pub level_text : IsText max_string_chars p.level_name
  pub seed_word : IsWord64 p.hashed_seed
  pub death_text : OptionAll (IsText max_string_chars) p.death.dimension
  pub death_word : OptionAll IsWord64 p.death.position
  pub world_words : IsWord32 p.world.portal_cooldown × IsWord32 p.world.sea_level

death-RoundTrips :
    (dimension : Option (List ℕ)) (position : Option ℕ)
    → OptionAll (IsText max_string_chars) dimension
    → OptionAll IsWord64 position
    → RoundTrips
        (encode_death_location dimension position)
        decode_death_location
        (carried_death dimension position)
unfolding encode_death_location decode_death_location read_death
death-RoundTrips (some dim) (some pos) text word =
    then-RoundTrips _ _ read_bool read_death true _ (write_bool-RoundTrips true) (
      then-RoundTrips _ _ read_string _ dim _ (write_string-RoundTrips max_string_chars dim text)
        (last-RoundTrips _ (read_be 8) _ pos (write_be-RoundTrips 8 pos (omega (arith, word)))))
death-RoundTrips (some dim) none text word =
    bind-RoundTrips _ read_bool read_death false _ (write_bool-RoundTrips false) (λ rest. refl)
death-RoundTrips none pos text word =
    bind-RoundTrips _ read_bool read_death false _ (write_bool-RoundTrips false) (λ rest. refl)

world-RoundTrips :
    (version : ProtocolVersion) (p : WorldInfo)
    → IsWord32 p.portal_cooldown × IsWord32 p.sea_level
    → RoundTrips
        (encode_world_info version p.portal_cooldown p.sea_level)
        (decode_world_info version)
        (carried_world version p)
unfolding encode_world_info decode_world_info read_sea_level
world-RoundTrips version p (cooldown, sea) =
    then-RoundTrips _ _ read_var_int _ p.portal_cooldown _ (write_var_int-RoundTrips _ cooldown) (
      last-RoundTrips _ (read_sea_level version) _ _ (
        if-RoundTrips (no_less_than version v1_21_2) _ _ _ _ _ _
          (λ _. write_var_int-RoundTrips _ sea) (λ _. nothing-RoundTrips 63)))

write_spawn-RoundTrips :
    (version : ProtocolVersion) (p : Spawn)
    → IsSpawn p
    → RoundTrips (write_spawn version p) (read_spawn version) (carried_spawn_info version p)
unfolding write_spawn read_spawn
write_spawn-RoundTrips version p h =
    let seed = h.seed_word in
    then-RoundTrips _ _ read_string _ p.level_name _
      (write_string-RoundTrips max_string_chars _ h.level_text)
      (then-RoundTrips _ _ (read_be 8) _ p.hashed_seed _
        (write_be-RoundTrips 8 _ (omega (arith, seed)))
        (then-RoundTrips _ _ read_u8 _ p.gamemode _ (write_u8-RoundTrips _) (
          then-RoundTrips _ _ read_u8 _ p.previous_gamemode _ (write_u8-RoundTrips _) (
            then-RoundTrips _ _ read_bool _ p.is_debug _ (write_bool-RoundTrips p.is_debug) (
              then-RoundTrips _ _ read_bool _ p.is_flat _ (write_bool-RoundTrips p.is_flat) (
                then-RoundTrips _ _ decode_death_location _ _ _
                  (death-RoundTrips p.death.dimension p.death.position h.death_text h.death_word)
                  (last-RoundTrips _ (decode_world_info version) _ _
                    (world-RoundTrips version p.world h.world_words))))))))

-- A packet holds the rest of the frame before 1.20.2, and its fields from then on.
pub record IsRaw (version : ProtocolVersion) (raw_payload : Option (List ℕ)) : Type 0 where
  pub old : less_than version v1_20_2 ≡ true → (raw : List ℕ) × (raw_payload ≡ some raw)
  pub new : less_than version v1_20_2 ≡ false → raw_payload ≡ none

pub record IsRespawn (version : ProtocolVersion) (p : CRespawn) : Type 0 where
  pub dimension_word : IsWord32 p.dimension
  pub fields : IsSpawn p.spawn
  pub raw : IsRaw version p.raw_payload

abbrev raw_or_empty : Option (List ℕ) → List ℕ
raw_or_empty (some raw) = raw
raw_or_empty none = []

-- Before 1.20.5 the dimension is a name that is not kept.
abbrev pub carried_respawn : ProtocolVersion → CRespawn → CRespawn
carried_respawn version p =
    if less_than version v1_20_2 then raw_respawn (raw_or_empty p.raw_payload) else record p {
      dimension = if no_less_than version v1_20_5 then p.dimension else 0;
      spawn = carried_spawn_info version p.spawn;
      raw_payload = none;
    }

overworld-IsText : IsText max_string_chars overworld
unfolding validate after_first char_count
overworld-IsText = (refl, (omega arith, omega arith))

encode_respawn_1_20_2-RoundTrips :
    (version : ProtocolVersion) (p : CRespawn)
    → IsWord32 p.dimension
    → IsSpawn p.spawn
    → RoundTrips (encode_respawn_1_20_2 version p) (decode_respawn_1_20_2 version) (record p {
      dimension = if no_less_than version v1_20_5 then p.dimension else 0;
      spawn = carried_spawn_info version p.spawn;
      raw_payload = none;
    })
unfolding encode_respawn_1_20_2 decode_respawn_1_20_2 read_respawn_dimension
encode_respawn_1_20_2-RoundTrips version p word fields =
    then-RoundTrips _ _ (read_respawn_dimension version) _ _ _
      (if-RoundTrips (no_less_than version v1_20_5) _ _ _ _ _ _
        (λ _. write_var_int-RoundTrips _ word)
        (λ _.
          last-RoundTrips _ read_string (λ key. 0) overworld
            (write_string-RoundTrips max_string_chars overworld overworld-IsText)))
      (then-RoundTrips _ _ (read_spawn version) _ _ _
        (write_spawn-RoundTrips version p.spawn fields)
        (last-RoundTrips _ read_u8 _ p.data_to_keep (write_u8-RoundTrips p.data_to_keep)))

pub encode_respawn-Ends :
    (version : ProtocolVersion) (p : CRespawn)
    → IsRespawn version p
    → Ends (encode_respawn version p) (decode_respawn version) (carried_respawn version p)
unfolding encode_respawn decode_respawn
encode_respawn-Ends version p h = elim (Bool-cases (less_than version v1_20_2)) [
  | inl old ↦
      let (raw, e) = h.raw.old old in
      rw (encode_respawn, e, old)
        (last-Ends (write_all raw) read_remaining raw_respawn raw (remaining-Ends raw))
  | inr new ↦
      let e = h.raw.new new in
      rw (encode_respawn, e, new)
        (RoundTrips-Ends _ (decode_respawn_1_20_2 version) _
          (encode_respawn_1_20_2-RoundTrips version p h.dimension_word h.fields))
]

pub record IsJoinGame (version : ProtocolVersion) (p : CJoinGame) : Type 0 where
  pub words : IsWord32 p.entity_id × IsWord32 p.dimension
  pub limits : IsWord32 p.max_players × (IsWord32 p.view_distance × IsWord32 p.simulation_distance)
  pub few_levels : length p.level_names < 2 ^ 31
  pub each_level : All (IsText max_string_chars) p.level_names
  pub fields : IsSpawn p.spawn
  pub raw : IsRaw version p.raw_payload

-- The fields of 1.20.2: before 1.21.2 the dimension is the level's name and is not kept.
abbrev carried_join_fields : ProtocolVersion → CJoinGame → CJoinGame
carried_join_fields version p = record p {
  dimension = if no_less_than version v1_21_2 then p.dimension else 0;
  spawn = carried_spawn_info version p.spawn;
  enforces_secure_chat = if no_less_than version v1_20_5 then p.enforces_secure_chat else false;
  raw_payload = none;
}

abbrev pub carried_join : ProtocolVersion → CJoinGame → CJoinGame
carried_join version p =
    if less_than version v1_20_2
    then raw_join_game p.entity_id (raw_or_empty p.raw_payload)
    else carried_join_fields version p

level_names-RoundTrips :
    (names : List (List ℕ))
    → length names < 2 ^ 31
    → All (IsText max_string_chars) names
    → RoundTrips
        (write_var_int (as_i32 (length names)) >> write_many write_string names)
        read_level_names
        names
unfolding read_level_names
level_names-RoundTrips names few each =
    let len : as_i32 (length names) ≡ length names = omega arith in
    let count : sign_extend_32 (length names) ≡ length names = ground arith in
    rw len (
      then-RoundTrips _ _ read_var_int _ (length names) names
        (write_var_int-RoundTrips _ (omega arith))
        (rw count (
          write_many-RoundTrips write_string read_string (IsText max_string_chars)
            (λ s t. write_string-RoundTrips max_string_chars s t) names each)))

encode_join_1_20_2-RoundTrips :
    (version : ProtocolVersion) (p : CJoinGame)
    → IsJoinGame version p
    → RoundTrips
        (encode_join_1_20_2 version p)
        (decode_join_1_20_2 version p.entity_id)
        (carried_join_fields version p)
unfolding encode_join_1_20_2 decode_join_1_20_2 read_join_dimension read_secure_chat
encode_join_1_20_2-RoundTrips version p h =
    let (max, (view, simulation)) = h.limits in
    let (id, dimension) = h.words in
    then-RoundTrips _ _ read_bool _ p.is_hardcore _ (write_bool-RoundTrips p.is_hardcore) (
      then-RoundTrips _ _ read_level_names _ p.level_names _
        (level_names-RoundTrips p.level_names h.few_levels h.each_level)
        (then-RoundTrips _ _ read_var_int _ p.max_players _ (write_var_int-RoundTrips _ max) (
          then-RoundTrips _ _ read_var_int _ p.view_distance _ (write_var_int-RoundTrips _ view) (
            then-RoundTrips _ _ read_var_int _ p.simulation_distance _
              (write_var_int-RoundTrips _ simulation)
              (then-RoundTrips _ _ read_bool _ p.reduced_debug_info _
                (write_bool-RoundTrips p.reduced_debug_info)
                (then-RoundTrips _ _ read_bool _ p.enable_respawn_screen _
                  (write_bool-RoundTrips p.enable_respawn_screen)
                  (then-RoundTrips _ _ read_bool _ p.do_limited_crafting _
                    (write_bool-RoundTrips p.do_limited_crafting)
                    (then-RoundTrips _ _ (read_join_dimension version) _ _ _
                      (if-RoundTrips (no_less_than version v1_21_2) _ _ _ _ _ _
                        (λ _. write_var_int-RoundTrips _ dimension)
                        (λ _.
                          last-RoundTrips _ read_string (λ key. 0) p.spawn.level_name
                            (write_string-RoundTrips max_string_chars _ h.fields.level_text)))
                      (then-RoundTrips _ _ (read_spawn version) _ _ _
                        (write_spawn-RoundTrips version p.spawn h.fields)
                        (last-RoundTrips _ (read_secure_chat version) _ _ (
                          if-RoundTrips (no_less_than version v1_20_5) _ _ _ _ _ _
                            (λ _. write_bool-RoundTrips p.enforces_secure_chat)
                            (λ _. nothing-RoundTrips false))))))))))))

pub encode_join_game-Ends :
    (version : ProtocolVersion) (p : CJoinGame)
    → IsJoinGame version p
    → Ends (encode_join_game version p) (decode_join_game version) (carried_join version p)
unfolding encode_join_game decode_join_game decode_join_rest
encode_join_game-Ends version p h =
    let (id, dimension) = h.words in
    elim (Bool-cases (less_than version v1_20_2)) [
      | inl old ↦
          let (raw, e) = h.raw.old old in
          rw (encode_join_game, e)
            (then-Ends _ _ (read_be 4) (decode_join_rest version) p.entity_id _
              (write_be-RoundTrips 4 _ (omega (arith, id)))
              (rw (decode_join_rest, old)
                (last-Ends (write_all raw) read_remaining (raw_join_game p.entity_id) raw
                  (remaining-Ends raw))))
      | inr new ↦
          let e = h.raw.new new in
          rw (encode_join_game, e)
            (then-Ends _ _ (read_be 4) (decode_join_rest version) p.entity_id _
              (write_be-RoundTrips 4 _ (omega (arith, id)))
              (rw (decode_join_rest, new)
                (RoundTrips-Ends _ (decode_join_1_20_2 version p.entity_id) _
                  (encode_join_1_20_2-RoundTrips version p h))))
    ]
