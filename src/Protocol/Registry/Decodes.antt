-- ===== src/Protocol/Registry/Decodes.antt =====
-- The default registry, read back: the id of a type leads to the decoder of that type.
use infrarust.Common.{
  ℕ, ◌≡◌, ◌∙◌, refl, sym, ap, Bool, true, false, none, some, List, [], ◌∷◌, ◌⊎◌, inl, inr, ◌==◌,
  ==_iff, if◌then◌else◌, Bool-cases, Option-cases, arith,
}
use infrarust.Common.Maps.{lookup}
use infrarust.Protocol.Error.{Result, ok, err}
use infrarust.Protocol.Version.{
  ProtocolVersion, supported, signed_order, no_less_than, no_greater_than,
}
use infrarust.Protocol.Codec.{Reader}
use infrarust.Protocol.Registry.{
  DecodedPacket, typed, get_packet_id, find_decoder, decode_frame, PacketRegistration, register_all,
}
use infrarust.Protocol.Registry.Keys.{
  registry_key, PacketType, type_id, same_key, state_index, direction_index, type_id-injective,
}
use infrarust.Protocol.Registry.Table.{
  listed, lasts, in_force, covers, last_id, last_decoder, table_id, table_decoder,
}
use infrarust.Protocol.Registry.Refines.{find_decoder-register_all}
use infrarust.Protocol.Registry.Refines.{get_packet_id-register_all}
use infrarust.Protocol.Registry.Default.{default_registrations, build_default_registry}

-- The packet is read by the proxy, not only sent.
unfoldable pub is_read : PacketRegistration → Bool
is_read r = elim (r.mappings) [
  | [] ↦ false
  | mapping ∷ rest ↦ if mapping.encode_only then false else true
]

-- The decoder of the registration's id, at a version.
unfoldable reads_itself : List PacketRegistration → PacketRegistration → ProtocolVersion → Bool
reads_itself table r v =
    let key = registry_key r.state r.direction v in
    elim (table_id table key r.packet none) [
      | none ↦ true
      | some id ↦ elim (table_decoder table key id none) [
        | none ↦ false
        | some t ↦ type_id t == type_id r.packet
      ]
    ]

unfoldable each_version : List PacketRegistration → PacketRegistration → List ProtocolVersion → Bool
each_version table r [] = true
each_version table r (v ∷ versions) =
    if reads_itself table r v then each_version table r versions else false

unfoldable each_registration :
    List PacketRegistration → List PacketRegistration → List ProtocolVersion → Bool
each_registration table [] versions = true
each_registration table (r ∷ rest) versions =
    let here = if is_read r then each_version table r versions else true in
    if here then each_registration table rest versions else false

default_reads_itself :
    each_registration default_registrations default_registrations supported ≡ true
unfolding default_registrations each_registration each_version reads_itself is_read table_id
    table_decoder last_id last_decoder covers in_force listed same_key state_index direction_index
    type_id signed_order no_less_than no_greater_than lasts
default_reads_itself = refl

-- The registration is in the table.
abbrev pub IsIn : PacketRegistration → List PacketRegistration → Type 0
IsIn r [] = ⊥
IsIn r (s ∷ table) = (s ≡ r) ⊎ IsIn r table

each_version-listed :
    (table : List PacketRegistration) (r : PacketRegistration) (versions : List ProtocolVersion)
    (v : ProtocolVersion)
    → each_version table r versions ≡ true
    → listed v versions ≡ true
    → reads_itself table r v ≡ true
unfolding each_version listed
each_version-listed table r [] v h l = absurd (ground arith)
each_version-listed table r (w ∷ versions) v h l = elim (Bool-cases (reads_itself table r w)) [
  | inr e ↦ absurd (ground (arith, rw (each_version, e) at h))
  | inl e ↦ elim (Bool-cases (w == v)) [
    | inl q ↦ let same : w ≡ v = (==_iff w v).0 q in rw same at e
    | inr q ↦
        each_version-listed table r versions v (rw (each_version, e) at h) (rw (listed, q) at l)
  ]
]

each_registration-IsIn :
    (table rest : List PacketRegistration) (versions : List ProtocolVersion)
    (r : PacketRegistration)
    → each_registration table rest versions ≡ true
    → IsIn r rest
    → is_read r ≡ true
    → each_version table r versions ≡ true
unfolding each_registration
each_registration-IsIn table [] versions r h m d = absurd m
each_registration-IsIn table (s ∷ rest) versions r h (inl same) d =
    elim (Bool-cases (each_version table r versions)) [
      | inl e ↦ e
      | inr e ↦ absurd (ground (arith, rw (each_registration, same, d, e) at h))
    ]
each_registration-IsIn table (s ∷ rest) versions r h (inr deeper) d =
    elim (Bool-cases (if is_read s then each_version table s versions else true)) [
      | inl e ↦
          each_registration-IsIn table rest versions r (rw (each_registration, e) at h) deeper d
      | inr e ↦ absurd (ground (arith, rw (each_registration, e) at h))
    ]

-- What `decode_frame` makes of a decoder's result.
abbrev pub as_typed :
    {Packet : Type 0} → ℕ → Result (Packet × List ℕ) → Result (DecodedPacket Packet)
as_typed id (ok (packet, rest)) = ok (typed id packet)
as_typed id (err e) = err e

module _ (table : List PacketRegistration) where
  table_decoder-table_id :
      (r : PacketRegistration) (v : ProtocolVersion) (id : ℕ)
      → reads_itself table r v ≡ true
      → table_id table (registry_key r.state r.direction v) r.packet none ≡ some id
      → table_decoder table (registry_key r.state r.direction v) id none ≡ some r.packet
  unfolding reads_itself
  table_decoder-table_id r v id h e =
      let key = registry_key r.state r.direction v in
      elim (Option-cases (table_decoder table key id none)) [
        | inl missing ↦ absurd (ground (arith, rw (reads_itself, e, missing) at h))
        | inr (t, found) ↦
            let same : t ≡ r.packet =
              type_id-injective t r.packet
                ((==_iff (type_id t) (type_id r.packet)).0 (rw (reads_itself, e, found) at h)) in
            found ∙ ap some same
      ]

  decode_frame-register_all :
      {Packet : Type 0} (decode_as : PacketType → ProtocolVersion → Reader Packet)
      (r : PacketRegistration) (version : ProtocolVersion) (id : ℕ) (payload : List ℕ)
      → each_registration table table supported ≡ true
      → IsIn r table
      → is_read r ≡ true
      → listed version supported ≡ true
      → get_packet_id (register_all table []) (registry_key r.state r.direction version) r.packet
        ≡ some id
      → decode_frame decode_as
          (register_all table [])
          (registry_key r.state r.direction version)
          id
          payload
        ≡ as_typed id (decode_as r.packet version payload)
  unfolding decode_frame get_packet_id find_decoder lookup
  decode_frame-register_all decode_as r version id payload checked member read within e =
      let key = registry_key r.state r.direction version in
      let itself =
        each_version-listed table r supported version
          (each_registration-IsIn table table supported r checked member read) within in
      let found : find_decoder (register_all table []) key id ≡ some r.packet =
        find_decoder-register_all table [] key id
        ∙ table_decoder-table_id r version id itself
            (sym (get_packet_id-register_all table [] key r.packet) ∙ e) in
      rw (decode_frame, found) refl

-- A packet that the proxy reads: at a supported version, the frame with the id of its type is
-- decoded as a packet of that type.
pub decode_frame-get_packet_id :
    {Packet : Type 0} (decode_as : PacketType → ProtocolVersion → Reader Packet)
    (r : PacketRegistration) (version : ProtocolVersion) (id : ℕ) (payload : List ℕ)
    → IsIn r default_registrations
    → is_read r ≡ true
    → listed version supported ≡ true
    → get_packet_id build_default_registry (registry_key r.state r.direction version) r.packet
      ≡ some id
    → decode_frame decode_as build_default_registry
        (registry_key r.state r.direction version)
        id
        payload
      ≡ as_typed id (decode_as r.packet version payload)
decode_frame-get_packet_id decode_as r version id payload member read within e =
    decode_frame-register_all default_registrations decode_as r version id payload
      default_reads_itself member read within e
