-- ===== src/Protocol/Registry/Keys.antt =====
-- The keys of a registry, and the types of packets as `TypeId` tells them apart.
use infrarust.Common.{
  ℕ, zero, suc, List, [], ◌∷◌, ◌≡◌, refl, ap, sym, ◌∙◌, Bool, true, false, ◌==◌, ==_iff,
  if◌then◌else◌, Bool-cases, inl, inr, arith,
}
use infrarust.Common.Maps.{Eq}
use infrarust.Protocol.Version.{
  ProtocolVersion, ConnectionState, handshake, status, login, config, play, Direction, serverbound,
  clientbound,
}

pub record Key : Type 0 where
  pub state : ConnectionState
  pub direction : Direction
  pub version : ProtocolVersion

abbrev pub registry_key : ConnectionState → Direction → ProtocolVersion → Key
registry_key state direction version = record {
  state = state;
  direction = direction;
  version = version;
}

unfoldable pub state_index : ConnectionState → ℕ
state_index handshake = 0
state_index status = 1
state_index login = 2
state_index config = 3
state_index play = 4

unfoldable state_of : ℕ → ConnectionState
state_of zero = handshake
state_of (suc zero) = status
state_of (suc (suc zero)) = login
state_of (suc (suc (suc zero))) = config
state_of (suc (suc (suc (suc n)))) = play

state_of-state_index : (s : ConnectionState) → state_of (state_index s) ≡ s
unfolding state_of state_index
state_of-state_index handshake = refl
state_of-state_index status = refl
state_of-state_index login = refl
state_of-state_index config = refl
state_of-state_index play = refl

unfoldable pub direction_index : Direction → ℕ
direction_index serverbound = 0
direction_index clientbound = 1

unfoldable direction_of : ℕ → Direction
direction_of zero = serverbound
direction_of (suc n) = clientbound

direction_of-direction_index : (d : Direction) → direction_of (direction_index d) ≡ d
unfolding direction_of direction_index
direction_of-direction_index serverbound = refl
direction_of-direction_index clientbound = refl

-- The key as three numbers.
unfoldable pub same_key : Key → Key → Bool
same_key a b =
    if state_index a.state == state_index b.state
    then (if direction_index a.direction == direction_index b.direction
        then a.version == b.version
        else false)
    else false

pub same_key_sound : (a b : Key) → same_key a b ≡ true → a ≡ b
unfolding same_key
same_key_sound a b h = elim (Bool-cases (state_index a.state == state_index b.state)) [
  | inr q ↦ absurd (ground (arith, q))
  | inl p ↦ elim (Bool-cases (direction_index a.direction == direction_index b.direction)) [
    | inr q ↦ absurd (ground (arith, q))
    | inl q ↦
        let state : a.state ≡ b.state =
          sym (state_of-state_index a.state)
          ∙ (ap state_of ((==_iff (state_index a.state) (state_index b.state)).0 p)
              ∙ state_of-state_index b.state) in
        let direction : a.direction ≡ b.direction =
          sym (direction_of-direction_index a.direction)
          ∙ (ap direction_of
                ((==_iff (direction_index a.direction) (direction_index b.direction)).0 q)
              ∙ direction_of-direction_index b.direction) in
        let version : a.version ≡ b.version = ground (arith, p, q) in
        λ i. record { state = state i; direction = direction i; version = version i }
  ]
]

pub same_key_refl : (a : Key) → same_key a a ≡ true
unfolding same_key
same_key_refl a = ground arith

instance abbrev pub key_eq : Eq Key
key_eq = record {
  beq = same_key;
  beq_iff = λ a b. (same_key_sound a b, λ e. rw (sym e) (same_key_refl a));
}

pub data PacketType : Type 0 where
  s_handshake s_status_request s_ping_request c_status_response c_ping_response s_login_start
        s_encryption_response s_login_plugin_response s_login_acknowledged c_login_disconnect
        c_encryption_request c_login_success c_set_compression c_login_plugin_request
        s_config_plugin_message s_acknowledge_finish_config s_known_packs c_config_plugin_message
        c_config_disconnect c_finish_config c_registry_data c_known_packs c_commands
        s_tab_complete_request c_tab_complete_response c_keep_alive c_disconnect c_join_game
        c_respawn c_plugin_message c_chat_message_legacy c_system_chat_message c_title_legacy
        c_set_title c_set_subtitle c_set_title_times c_transfer c_start_configuration c_game_event
        c_set_center_chunk c_chunk_batch_start c_chunk_batch_finished c_set_default_spawn_position
        c_synchronize_player_position s_acknowledge_configuration s_keep_alive s_chat_message
        s_chat_command s_chat_session_update s_plugin_message :
      PacketType

-- `TypeId::of`.
unfoldable pub type_id : PacketType → ℕ
type_id s_handshake = 0
type_id s_status_request = 1
type_id s_ping_request = 2
type_id c_status_response = 3
type_id c_ping_response = 4
type_id s_login_start = 5
type_id s_encryption_response = 6
type_id s_login_plugin_response = 7
type_id s_login_acknowledged = 8
type_id c_login_disconnect = 9
type_id c_encryption_request = 10
type_id c_login_success = 11
type_id c_set_compression = 12
type_id c_login_plugin_request = 13
type_id s_config_plugin_message = 14
type_id s_acknowledge_finish_config = 15
type_id s_known_packs = 16
type_id c_config_plugin_message = 17
type_id c_config_disconnect = 18
type_id c_finish_config = 19
type_id c_registry_data = 20
type_id c_known_packs = 21
type_id c_commands = 22
type_id s_tab_complete_request = 23
type_id c_tab_complete_response = 24
type_id c_keep_alive = 25
type_id c_disconnect = 26
type_id c_join_game = 27
type_id c_respawn = 28
type_id c_plugin_message = 29
type_id c_chat_message_legacy = 30
type_id c_system_chat_message = 31
type_id c_title_legacy = 32
type_id c_set_title = 33
type_id c_set_subtitle = 34
type_id c_set_title_times = 35
type_id c_transfer = 36
type_id c_start_configuration = 37
type_id c_game_event = 38
type_id c_set_center_chunk = 39
type_id c_chunk_batch_start = 40
type_id c_chunk_batch_finished = 41
type_id c_set_default_spawn_position = 42
type_id c_synchronize_player_position = 43
type_id s_acknowledge_configuration = 44
type_id s_keep_alive = 45
type_id s_chat_message = 46
type_id s_chat_command = 47
type_id s_chat_session_update = 48
type_id s_plugin_message = 49

abbrev all_types : List PacketType
all_types =
    s_handshake ∷ s_status_request ∷ s_ping_request ∷ c_status_response ∷ c_ping_response
    ∷ s_login_start ∷ s_encryption_response ∷ s_login_plugin_response ∷ s_login_acknowledged
    ∷ c_login_disconnect ∷ c_encryption_request ∷ c_login_success ∷ c_set_compression
    ∷ c_login_plugin_request ∷ s_config_plugin_message ∷ s_acknowledge_finish_config ∷ s_known_packs
    ∷ c_config_plugin_message ∷ c_config_disconnect ∷ c_finish_config ∷ c_registry_data
    ∷ c_known_packs ∷ c_commands ∷ s_tab_complete_request ∷ c_tab_complete_response ∷ c_keep_alive
    ∷ c_disconnect ∷ c_join_game ∷ c_respawn ∷ c_plugin_message ∷ c_chat_message_legacy
    ∷ c_system_chat_message ∷ c_title_legacy ∷ c_set_title ∷ c_set_subtitle ∷ c_set_title_times
    ∷ c_transfer ∷ c_start_configuration ∷ c_game_event ∷ c_set_center_chunk ∷ c_chunk_batch_start
    ∷ c_chunk_batch_finished ∷ c_set_default_spawn_position ∷ c_synchronize_player_position
    ∷ s_acknowledge_configuration ∷ s_keep_alive ∷ s_chat_message ∷ s_chat_command
    ∷ s_chat_session_update ∷ s_plugin_message ∷ []

unfoldable type_at : ℕ → List PacketType → PacketType
type_at n [] = s_handshake
type_at zero (t ∷ types) = t
type_at (suc n) (t ∷ types) = type_at n types

type_at-type_id : (t : PacketType) → type_at (type_id t) all_types ≡ t
unfolding type_at type_id
type_at-type_id s_handshake = refl
type_at-type_id s_status_request = refl
type_at-type_id s_ping_request = refl
type_at-type_id c_status_response = refl
type_at-type_id c_ping_response = refl
type_at-type_id s_login_start = refl
type_at-type_id s_encryption_response = refl
type_at-type_id s_login_plugin_response = refl
type_at-type_id s_login_acknowledged = refl
type_at-type_id c_login_disconnect = refl
type_at-type_id c_encryption_request = refl
type_at-type_id c_login_success = refl
type_at-type_id c_set_compression = refl
type_at-type_id c_login_plugin_request = refl
type_at-type_id s_config_plugin_message = refl
type_at-type_id s_acknowledge_finish_config = refl
type_at-type_id s_known_packs = refl
type_at-type_id c_config_plugin_message = refl
type_at-type_id c_config_disconnect = refl
type_at-type_id c_finish_config = refl
type_at-type_id c_registry_data = refl
type_at-type_id c_known_packs = refl
type_at-type_id c_commands = refl
type_at-type_id s_tab_complete_request = refl
type_at-type_id c_tab_complete_response = refl
type_at-type_id c_keep_alive = refl
type_at-type_id c_disconnect = refl
type_at-type_id c_join_game = refl
type_at-type_id c_respawn = refl
type_at-type_id c_plugin_message = refl
type_at-type_id c_chat_message_legacy = refl
type_at-type_id c_system_chat_message = refl
type_at-type_id c_title_legacy = refl
type_at-type_id c_set_title = refl
type_at-type_id c_set_subtitle = refl
type_at-type_id c_set_title_times = refl
type_at-type_id c_transfer = refl
type_at-type_id c_start_configuration = refl
type_at-type_id c_game_event = refl
type_at-type_id c_set_center_chunk = refl
type_at-type_id c_chunk_batch_start = refl
type_at-type_id c_chunk_batch_finished = refl
type_at-type_id c_set_default_spawn_position = refl
type_at-type_id c_synchronize_player_position = refl
type_at-type_id s_acknowledge_configuration = refl
type_at-type_id s_keep_alive = refl
type_at-type_id s_chat_message = refl
type_at-type_id s_chat_command = refl
type_at-type_id s_chat_session_update = refl
type_at-type_id s_plugin_message = refl

pub type_id-injective : (t u : PacketType) → type_id t ≡ type_id u → t ≡ u
type_id-injective t u e =
    sym (type_at-type_id t) ∙ (ap (λ n. type_at n all_types) e ∙ type_at-type_id u)
