-- ===== src/Protocol/Registry/Refines.antt =====
-- The maps of a registry hold what the table of registrations says.
use infrarust.Common.{
  ℕ, ◌≡◌, ◌∙◌, refl, false, Option, none, some, List, [], ◌∷◌, ◌==◌, if◌then◌else◌, Bool-cases, inl,
  inr, arith,
}
use infrarust.Common.Maps.{lookup}
use infrarust.Protocol.Version.{ProtocolVersion, range}
use infrarust.Protocol.Registry.{
  PacketRegistry, get_packet_id, find_decoder, PacketMapping, PacketRegistration, MappingEnd,
  mapping_end, skipped, register_version, register_versions, register_mappings, register,
  register_all,
}
use infrarust.Protocol.Registry.Lookups.{
  get_packet_id-insert_type_mapping, find_decoder-insert_type_mapping, get_packet_id-insert_decoder,
  find_decoder-insert_decoder,
}
use infrarust.Protocol.Registry.Ranges.{hits, covered}
use infrarust.Protocol.Registry.Keys.{Key, registry_key, same_key, PacketType, type_id}
use infrarust.Protocol.Registry.Table.{
  at_place, covers, last_id, last_decoder, table_id, table_decoder,
}

get_packet_id-register_version :
    (r : PacketRegistration) (mapping : PacketMapping) (v : ProtocolVersion)
    (registry : PacketRegistry) (k : Key) (t : PacketType)
    → get_packet_id (register_version r mapping v registry) k t ≡ (
        if same_key (registry_key r.state r.direction v) k
        then (if type_id r.packet == type_id t then some mapping.id else get_packet_id registry k t)
        else get_packet_id registry k t)
unfolding register_version
get_packet_id-register_version r mapping v registry k t =
    let key = registry_key r.state r.direction v in
    elim (Bool-cases (mapping.encode_only)) [
      | inl only ↦
          rw (register_version, only)
            (get_packet_id-insert_type_mapping key k r.packet t mapping.id registry)
      | inr both ↦
          rw (register_version, both)
            (get_packet_id-insert_decoder key k r.packet t mapping.id _
              ∙ get_packet_id-insert_type_mapping key k r.packet t mapping.id registry)
    ]

find_decoder-register_version :
    (r : PacketRegistration) (mapping : PacketMapping) (v : ProtocolVersion)
    (registry : PacketRegistry) (k : Key) (id : ℕ)
    → find_decoder (register_version r mapping v registry) k id ≡ (
        if mapping.encode_only
        then find_decoder registry k id
        else if same_key (registry_key r.state r.direction v) k
        then (if mapping.id == id then some r.packet else find_decoder registry k id)
        else find_decoder registry k id)
unfolding register_version
find_decoder-register_version r mapping v registry k id =
    let key = registry_key r.state r.direction v in
    let mapped = find_decoder-insert_type_mapping key k r.packet mapping.id id registry in
    elim (Bool-cases (mapping.encode_only)) [
      | inl only ↦ rw (register_version, only) mapped
      | inr both ↦
          rw (register_version, both)
            (find_decoder-insert_decoder key k r.packet mapping.id id _ ∙ rw mapped refl)
    ]

get_packet_id-register_versions :
    (r : PacketRegistration) (mapping : PacketMapping) (e : MappingEnd)
    (versions : List ProtocolVersion) (registry : PacketRegistry) (k : Key) (t : PacketType)
    → get_packet_id (register_versions r mapping e versions registry) k t ≡ (
        if type_id r.packet == type_id t
        then (if hits r e versions k then some mapping.id else get_packet_id registry k t)
        else get_packet_id registry k t)
unfolding register_versions hits
get_packet_id-register_versions r mapping e [] registry k t = ground arith
get_packet_id-register_versions r mapping e (v ∷ versions) registry k t =
    let next = if skipped e v then registry else register_version r mapping v registry in
    rw (get_packet_id-register_versions r mapping e versions next k t)
      (elim (Bool-cases (skipped e v)) [
        | inl skip ↦ rw skip (ground arith)
        | inr kept ↦
            rw (kept, get_packet_id-register_version r mapping v registry k t) (ground arith)
      ])

find_decoder-register_versions :
    (r : PacketRegistration) (mapping : PacketMapping) (e : MappingEnd)
    (versions : List ProtocolVersion) (registry : PacketRegistry) (k : Key) (id : ℕ)
    → find_decoder (register_versions r mapping e versions registry) k id ≡ (
        if mapping.encode_only
        then find_decoder registry k id
        else if hits r e versions k
        then (if mapping.id == id then some r.packet else find_decoder registry k id)
        else find_decoder registry k id)
unfolding register_versions hits
find_decoder-register_versions r mapping e [] registry k id = ground arith
find_decoder-register_versions r mapping e (v ∷ versions) registry k id =
    let next = if skipped e v then registry else register_version r mapping v registry in
    rw (find_decoder-register_versions r mapping e versions next k id)
      (elim (Bool-cases (skipped e v)) [
        | inl skip ↦ rw skip (ground arith)
        | inr kept ↦
            rw (kept, find_decoder-register_version r mapping v registry k id) (ground arith)
      ])

get_packet_id-register_mappings :
    (r : PacketRegistration) (mappings : List PacketMapping) (registry : PacketRegistry) (k : Key)
    (t : PacketType)
    → get_packet_id (register_mappings r mappings registry) k t ≡ (
        if type_id r.packet == type_id t
        then last_id r mappings k (get_packet_id registry k t)
        else get_packet_id registry k t)
unfolding register_mappings last_id covers
get_packet_id-register_mappings r [] registry k t = ground arith
get_packet_id-register_mappings r (mapping ∷ rest) registry k t =
    let e = mapping_end mapping rest in
    rw
      (
        get_packet_id-register_mappings r rest _ k t,
        get_packet_id-register_versions r mapping e (range mapping.from e.to) registry k t,
        covered r mapping rest k,
      )
      (elim (Bool-cases (type_id r.packet == type_id t)) [
        | inl same ↦ rw same refl
        | inr other ↦ rw other refl
      ])

find_decoder-register_mappings :
    (r : PacketRegistration) (mappings : List PacketMapping) (registry : PacketRegistry) (k : Key)
    (id : ℕ)
    → find_decoder (register_mappings r mappings registry) k id
      ≡ last_decoder r mappings k id (find_decoder registry k id)
unfolding register_mappings last_decoder covers
find_decoder-register_mappings r [] registry k id = refl
find_decoder-register_mappings r (mapping ∷ rest) registry k id =
    let e = mapping_end mapping rest in
    rw
      (
        find_decoder-register_mappings r rest _ k id,
        find_decoder-register_versions r mapping e (range mapping.from e.to) registry k id,
        covered r mapping rest k,
      )
      refl

-- A registration of another state or direction covers nothing.
last_decoder-elsewhere :
    (r : PacketRegistration) (mappings : List PacketMapping) (k : Key) (id : ℕ)
    (before : Option PacketType)
    → at_place r k ≡ false
    → last_decoder r mappings k id before ≡ before
unfolding last_decoder covers
last_decoder-elsewhere r [] k id before h = refl
last_decoder-elsewhere r (mapping ∷ rest) k id before h =
    rw (last_decoder, h)
      (elim (Bool-cases (mapping.encode_only)) [
        | inl only ↦ rw only (last_decoder-elsewhere r rest k id before h)
        | inr both ↦ rw both (last_decoder-elsewhere r rest k id before h)
      ])

-- Registering one packet after another gives each type the id of its last mapping in force.
pub get_packet_id-register_all :
    (table : List PacketRegistration) (registry : PacketRegistry) (k : Key) (t : PacketType)
    → get_packet_id (register_all table registry) k t
      ≡ table_id table k t (get_packet_id registry k t)
unfolding register_all register table_id
get_packet_id-register_all [] registry k t = refl
get_packet_id-register_all (r ∷ table) registry k t =
    rw
      (
        get_packet_id-register_all table (register_mappings r r.mappings registry) k t,
        get_packet_id-register_mappings r r.mappings registry k t,
      )
      refl

pub find_decoder-register_all :
    (table : List PacketRegistration) (registry : PacketRegistry) (k : Key) (id : ℕ)
    → find_decoder (register_all table registry) k id
      ≡ table_decoder table k id (find_decoder registry k id)
unfolding register_all register table_decoder
find_decoder-register_all [] registry k id = refl
find_decoder-register_all (r ∷ table) registry k id =
    rw
      (
        find_decoder-register_all table (register_mappings r r.mappings registry) k id,
        find_decoder-register_mappings r r.mappings registry k id,
      )
      (elim (Bool-cases (at_place r k)) [
        | inl here ↦ rw here refl
        | inr elsewhere ↦
            rw
              (
                elsewhere,
                last_decoder-elsewhere r r.mappings k id (find_decoder registry k id) elsewhere,
              )
              refl
      ])

-- After any list of registrations in an empty registry, the id of a packet type and the decoder
-- of an id are those of the last mapping in force in the list, at every state, direction and
-- version. A mapping is in force from its first version on until the end it names, or else until
-- short of the first version of the next mapping, or else for good.
pub register_all-table :
    (table : List PacketRegistration) (k : Key) (t : PacketType) (id : ℕ)
    → (get_packet_id (register_all table []) k t ≡ table_id table k t none)
      × (find_decoder (register_all table []) k id ≡ table_decoder table k id none)
unfolding get_packet_id find_decoder lookup
register_all-table table k t id =
    (get_packet_id-register_all table [] k t, find_decoder-register_all table [] k id)
