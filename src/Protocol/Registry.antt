-- ===== src/Protocol/Registry.antt =====
-- registry/mod.rs and registry/builder.rs: for a state, a direction and a version, the id of a
-- packet's type, and the decoder of an id.
pub mod Keys
mod Lookups
pub mod Table
mod Ranges
pub mod Refines
pub mod Default
pub mod Decodes
mod Tests
use infrarust.Common.{ℕ, Bool, true, false, Option, none, some, List, [], ◌∷◌, ◌==◌, if◌then◌else◌}
use infrarust.Common.Maps.{Map, lookup, insert, nat_key}
use infrarust.Protocol.Error.{Result, ok, err}
use infrarust.Protocol.Version.{ProtocolVersion, range, v1_21_11, ConnectionState, Direction}
use infrarust.Protocol.Codec.{Reader}
use infrarust.Protocol.Registry.Keys.{Key, registry_key, key_eq, PacketType, type_id}

-- The two maps of one key: `id_to_decoder`, where a decoder stands for the type it decodes, and
-- `type_to_id`.
pub record VersionRegistry : Type 0 where
  pub id_to_decoder : Map ℕ PacketType
  pub type_to_id : Map ℕ ℕ

abbrev pub PacketRegistry : Type 0
PacketRegistry = Map Key VersionRegistry

abbrev pub empty_version : VersionRegistry
empty_version = record { id_to_decoder = []; type_to_id = [] }

-- `entry(key).or_default()`.
abbrev pub or_default : Option VersionRegistry → VersionRegistry
or_default (some ver_reg) = ver_reg
or_default none = empty_version

unfoldable pub insert_type_mapping : Key → PacketType → ℕ → PacketRegistry → PacketRegistry
insert_type_mapping key t packet_id registry =
    let ver_reg = or_default (lookup key registry) in
    insert key (record ver_reg { type_to_id = insert (type_id t) packet_id ver_reg.type_to_id })
      registry

unfoldable pub insert_decoder : Key → ℕ → PacketType → PacketRegistry → PacketRegistry
insert_decoder key packet_id decoder registry =
    let ver_reg = or_default (lookup key registry) in
    insert key (record ver_reg { id_to_decoder = insert packet_id decoder ver_reg.id_to_decoder })
      registry

unfoldable pub get_packet_id : PacketRegistry → Key → PacketType → Option ℕ
get_packet_id registry key t = elim (lookup key registry) [
  | some ver_reg ↦ lookup (type_id t) ver_reg.type_to_id
  | none ↦ none
]

-- The decoder that `decode_frame` and `has_decoder` look for.
unfoldable pub find_decoder : PacketRegistry → Key → ℕ → Option PacketType
find_decoder registry key packet_id = elim (lookup key registry) [
  | some ver_reg ↦ lookup packet_id ver_reg.id_to_decoder
  | none ↦ none
]

abbrev pub has_decoder : PacketRegistry → Key → ℕ → Bool
has_decoder registry key packet_id = elim (find_decoder registry key packet_id) [
  | some decoder ↦ true
  | none ↦ false
]

-- `DecodedPacket`, for packets of any kind.
pub data DecodedPacket (Packet : Type 0) : Type 0 where
  typed : ℕ → Packet → DecodedPacket Packet
  opaque_packet : ℕ → List ℕ → DecodedPacket Packet

-- `decode_frame`: the packet that was decoded, or the payload as it came where no decoder stands.
unfoldable pub decode_frame :
    {Packet : Type 0}
    → (PacketType → ProtocolVersion → Reader Packet)
    → PacketRegistry
    → Key
    → ℕ
    → List ℕ
    → Result (DecodedPacket Packet)
decode_frame decode_as registry key id payload = elim (find_decoder registry key id) [
  | some decoder ↦ elim (decode_as decoder key.version payload) [
    | ok (packet, rest) ↦ ok (typed id packet)
    | err e ↦ err e
  ]
  | none ↦ ok (opaque_packet id payload)
]

pub record PacketMapping : Type 0 where
  pub id : ℕ
  pub from : ProtocolVersion
  pub to : Option ProtocolVersion
  pub encode_only : Bool

pub record PacketRegistration : Type 0 where
  pub packet : PacketType
  pub state : ConnectionState
  pub direction : Direction
  pub mappings : List PacketMapping

-- Where a mapping ends: its own end, or short of the next mapping, or at the last version.
pub record MappingEnd : Type 0 where
  pub to : ProtocolVersion
  pub inclusive : Bool

unfoldable pub mapping_end : PacketMapping → List PacketMapping → MappingEnd
mapping_end mapping rest = elim (mapping.to) [
  | some explicit_to ↦ record { to = explicit_to; inclusive = true }
  | none ↦ elim rest [
    | next ∷ others ↦ record { to = next.from; inclusive = false }
    | [] ↦ record { to = v1_21_11; inclusive = true }
  ]
]

-- `!inclusive && version == to`.
abbrev pub skipped : MappingEnd → ProtocolVersion → Bool
skipped e version = if e.inclusive then false else version == e.to

unfoldable pub register_version :
    PacketRegistration → PacketMapping → ProtocolVersion → PacketRegistry → PacketRegistry
register_version r mapping version registry =
    let key = registry_key r.state r.direction version in
    let mapped = insert_type_mapping key r.packet mapping.id registry in
    if mapping.encode_only then mapped else insert_decoder key mapping.id r.packet mapped

unfoldable pub register_versions :
    PacketRegistration
    → PacketMapping
    → MappingEnd
    → List ProtocolVersion
    → PacketRegistry
    → PacketRegistry
register_versions r mapping e [] registry = registry
register_versions r mapping e (version ∷ versions) registry =
    register_versions r mapping e versions
      (if skipped e version then registry else register_version r mapping version registry)

unfoldable pub register_mappings :
    PacketRegistration → List PacketMapping → PacketRegistry → PacketRegistry
register_mappings r [] registry = registry
register_mappings r (mapping ∷ rest) registry =
    let e = mapping_end mapping rest in
    register_mappings r rest (register_versions r mapping e (range mapping.from e.to) registry)

unfoldable pub register : PacketRegistration → PacketRegistry → PacketRegistry
register r registry = register_mappings r r.mappings registry

-- One registration after another, as `build_default_registry` makes them.
unfoldable pub register_all : List PacketRegistration → PacketRegistry → PacketRegistry
register_all [] registry = registry
register_all (r ∷ registrations) registry = register_all registrations (register r registry)

-- `map`.
abbrev pub from_version : ℕ → ProtocolVersion → Bool → PacketMapping
from_version id from encode_only = record {
  id = id;
  from = from;
  to = none;
  encode_only = encode_only;
}

abbrev pub registration :
    PacketType → ConnectionState → Direction → List PacketMapping → PacketRegistration
registration packet state direction mappings = record {
  packet = packet;
  state = state;
  direction = direction;
  mappings = mappings;
}
