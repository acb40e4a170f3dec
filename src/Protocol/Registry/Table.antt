-- ===== src/Protocol/Registry/Table.antt =====
-- A registry as its table of registrations: the id and the decoder that the last mapping in force
-- gives, without the maps.
use infrarust.Common.{ℕ, Bool, true, false, Option, none, some, List, [], ◌∷◌, ◌==◌, if◌then◌else◌}
use infrarust.Protocol.Version.{ProtocolVersion, supported, no_less_than, no_greater_than}
use infrarust.Protocol.Registry.{PacketMapping, PacketRegistration}
use infrarust.Protocol.Registry.Keys.{Key, registry_key, same_key, PacketType, type_id}

-- The key has the registration's state and direction.
abbrev pub at_place : PacketRegistration → Key → Bool
at_place r k = same_key (registry_key r.state r.direction k.version) k

unfoldable pub listed : ProtocolVersion → List ProtocolVersion → Bool
listed v [] = false
listed v (w ∷ versions) = let rest = listed v versions in if w == v then true else rest

abbrev pub is_supported : ProtocolVersion → Bool
is_supported v = listed v supported

-- A mapping with an end lasts until that version, one without an end until the next mapping, which
-- takes over at its own start, and the last one for good.
unfoldable pub lasts : Option ProtocolVersion → List PacketMapping → ProtocolVersion → Bool
lasts (some last) rest v = no_greater_than v last
lasts none [] v = true
lasts none (next ∷ others) v =
    if no_greater_than v next.from then (if v == next.from then false else true) else false

-- The mapping is in force at a version, given the mappings behind it.
unfoldable pub in_force : PacketMapping → List PacketMapping → ProtocolVersion → Bool
in_force mapping rest v = if no_less_than v mapping.from then lasts mapping.to rest v else false

unfoldable pub covers : PacketRegistration → PacketMapping → List PacketMapping → Key → Bool
covers r mapping rest k =
    if at_place r k
    then (if is_supported k.version then in_force mapping rest k.version else false)
    else false

-- The last mapping in force, after the ones that came before.
unfoldable pub last_id : PacketRegistration → List PacketMapping → Key → Option ℕ → Option ℕ
last_id r [] k before = before
last_id r (mapping ∷ rest) k before =
    last_id r rest k (if covers r mapping rest k then some mapping.id else before)

unfoldable pub last_decoder :
    PacketRegistration → List PacketMapping → Key → ℕ → Option PacketType → Option PacketType
last_decoder r [] k id before = before
last_decoder r (mapping ∷ rest) k id before = last_decoder r rest k id (
    if mapping.encode_only
    then before
    else if covers r mapping rest k
    then (if mapping.id == id then some r.packet else before)
    else before)

unfoldable pub table_id : List PacketRegistration → Key → PacketType → Option ℕ → Option ℕ
table_id [] k t before = before
table_id (r ∷ table) k t before =
    table_id table k t
      (if type_id r.packet == type_id t then last_id r r.mappings k before else before)

unfoldable pub table_decoder :
    List PacketRegistration → Key → ℕ → Option PacketType → Option PacketType
table_decoder [] k id before = before
table_decoder (r ∷ table) k id before =
    table_decoder table k id
      (if at_place r k then last_decoder r r.mappings k id before else before)
