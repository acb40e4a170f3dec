-- ===== src/Protocol/Registry/Lookups.antt =====
-- What registering changes of the two lookups.
use infrarust.Common.{
  ℕ, ◌≡◌, refl, sym, some, ◌==◌, if◌then◌else◌, Bool-cases, Option-cases, inl, inr,
}
use infrarust.Common.Maps.{lookup, insert, lookup-insert, lookup-empty, nat_key}
use infrarust.Protocol.Registry.{
  VersionRegistry, PacketRegistry, or_default, insert_type_mapping, insert_decoder, get_packet_id,
  find_decoder,
}
use infrarust.Protocol.Registry.Keys.{Key, key_eq, same_key, PacketType, type_id}

-- Both lookups see a missing registry of a key as an empty one.
get_packet_id-or_default :
    (registry : PacketRegistry) (key : Key) (t : PacketType)
    → get_packet_id registry key t
      ≡ lookup (type_id t) (or_default (lookup key registry)).type_to_id
unfolding get_packet_id
get_packet_id-or_default registry key t = elim (Option-cases (lookup key registry)) [
  | inl e ↦ rw (get_packet_id, e) (sym (lookup-empty (type_id t)))
  | inr (v, e) ↦ rw (get_packet_id, e) refl
]

find_decoder-or_default :
    (registry : PacketRegistry) (key : Key) (id : ℕ)
    → find_decoder registry key id ≡ lookup id (or_default (lookup key registry)).id_to_decoder
unfolding find_decoder
find_decoder-or_default registry key id = elim (Option-cases (lookup key registry)) [
  | inl e ↦ rw (find_decoder, e) (sym (lookup-empty id))
  | inr (v, e) ↦ rw (find_decoder, e) refl
]

-- A lookup at a key in a registry where the entry of `key` was set.
abbrev at : Key → Key → VersionRegistry → PacketRegistry → VersionRegistry
at key k v registry = if same_key key k then v else or_default (lookup k registry)

or_default-insert :
    (key k : Key) (v : VersionRegistry) (registry : PacketRegistry)
    → or_default (lookup k (insert key v registry)) ≡ at key k v registry
or_default-insert key k v registry = elim (Bool-cases (same_key key k)) [
  | inl e ↦ rw (lookup-insert key k v registry, e) refl
  | inr e ↦ rw (lookup-insert key k v registry, e) refl
]

pub get_packet_id-insert_type_mapping :
    (key k : Key) (t u : PacketType) (id : ℕ) (registry : PacketRegistry)
    → get_packet_id (insert_type_mapping key t id registry) k u ≡ (
        if same_key key k
        then (if type_id t == type_id u then some id else get_packet_id registry k u)
        else get_packet_id registry k u)
unfolding insert_type_mapping
get_packet_id-insert_type_mapping key k t u id registry = elim (Bool-cases (same_key key k)) [
  | inl e ↦
      let here : key ≡ k = (key_eq.beq_iff key k).0 e in
      rw
        (
          get_packet_id-or_default (insert_type_mapping key t id registry) k u,
          insert_type_mapping,
          or_default-insert key k _ registry,
          e,
          get_packet_id-or_default registry k u,
        )
        (rw (here, lookup-insert (type_id t) (type_id u) id _) refl)
  | inr e ↦
      rw
        (
          get_packet_id-or_default (insert_type_mapping key t id registry) k u,
          insert_type_mapping,
          or_default-insert key k _ registry,
          e,
          get_packet_id-or_default registry k u,
        )
        refl
]

pub find_decoder-insert_type_mapping :
    (key k : Key) (t : PacketType) (id j : ℕ) (registry : PacketRegistry)
    → find_decoder (insert_type_mapping key t id registry) k j ≡ find_decoder registry k j
unfolding insert_type_mapping
find_decoder-insert_type_mapping key k t id j registry =
    rw
      (
        find_decoder-or_default (insert_type_mapping key t id registry) k j,
        insert_type_mapping,
        or_default-insert key k _ registry,
        find_decoder-or_default registry k j,
      )
      (elim (Bool-cases (same_key key k)) [
        | inl e ↦ let here : key ≡ k = (key_eq.beq_iff key k).0 e in rw (e, here) refl
        | inr e ↦ rw e refl
      ])

pub get_packet_id-insert_decoder :
    (key k : Key) (t u : PacketType) (id : ℕ) (registry : PacketRegistry)
    → get_packet_id (insert_decoder key id t registry) k u ≡ get_packet_id registry k u
unfolding insert_decoder
get_packet_id-insert_decoder key k t u id registry =
    rw
      (
        get_packet_id-or_default (insert_decoder key id t registry) k u,
        insert_decoder,
        or_default-insert key k _ registry,
        get_packet_id-or_default registry k u,
      )
      (elim (Bool-cases (same_key key k)) [
        | inl e ↦ let here : key ≡ k = (key_eq.beq_iff key k).0 e in rw (e, here) refl
        | inr e ↦ rw e refl
      ])

pub find_decoder-insert_decoder :
    (key k : Key) (t : PacketType) (id j : ℕ) (registry : PacketRegistry)
    → find_decoder (insert_decoder key id t registry) k j ≡ (
        if same_key key k
        then (if id == j then some t else find_decoder registry k j)
        else find_decoder registry k j)
unfolding insert_decoder
find_decoder-insert_decoder key k t id j registry =
    rw
      (
        find_decoder-or_default (insert_decoder key id t registry) k j,
        insert_decoder,
        or_default-insert key k _ registry,
        find_decoder-or_default registry k j,
      )
      (elim (Bool-cases (same_key key k)) [
        | inl e ↦
            let here : key ≡ k = (key_eq.beq_iff key k).0 e in
            rw e (rw (here, lookup-insert id j t _) refl)
        | inr e ↦ rw e refl
      ])
