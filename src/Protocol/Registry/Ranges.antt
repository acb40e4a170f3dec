-- ===== src/Protocol/Registry/Ranges.antt =====
-- The range of versions that registry/builder.rs fills for a mapping, and the versions at which the
-- table has the mapping in force.
use infrarust.Common.{
  ◌≡◌, ◌∙◌, refl, sym, ap, Bool, true, false, List, [], ◌∷◌, ◌==◌, if◌then◌else◌, Bool-cases,
  Option-cases, ==_iff, inl, inr, arith,
}
use infrarust.Protocol.Version.{
  ProtocolVersion, supported, no_less_than, no_greater_than, keep_range, range, v1_21_11,
  signed_order,
}
use infrarust.Protocol.Registry.{
  PacketMapping, PacketRegistration, MappingEnd, mapping_end, skipped,
}
use infrarust.Protocol.Registry.Keys.{Key, registry_key, same_key}
use infrarust.Protocol.Registry.Table.{at_place, listed, in_force, covers, lasts}

-- The versions of a mapping that the loop registers.
unfoldable pub hits : PacketRegistration → MappingEnd → List ProtocolVersion → Key → Bool
hits r e [] k = false
hits r e (v ∷ versions) k =
    let rest = hits r e versions k in
    if rest
    then true
    else if skipped e v
    then false
    else same_key (registry_key r.state r.direction v) k

-- The versions that the loop of a mapping passes on.
unfoldable in_range : PacketMapping → MappingEnd → ProtocolVersion → Bool
in_range mapping e v =
    if no_less_than v mapping.from
    then (if no_greater_than v e.to then (if skipped e v then false else true) else false)
    else false

same_key-version :
    (r : PacketRegistration) (v : ProtocolVersion) (k : Key)
    → same_key (registry_key r.state r.direction v) k
      ≡ (if at_place r k then v == k.version else false)
unfolding same_key
same_key-version r v k = ground arith

-- A version that is in the range, and one that is not, before the others of the list.
force_step :
    (place found force skip : Bool) (v w : ProtocolVersion)
    → (v ≡ w → force ≡ (if skip then false else true))
    → (if (if place then (if found then force else false) else false)
        then true
        else if skip
        then false
        else if place
        then v == w
        else false)
      ≡ (if place then (if (if v == w then true else found) then force else false) else false)
force_step place found force skip v w h = ground (arith, h)

idle_step :
    (place found force : Bool) (v w : ProtocolVersion)
    → (v ≡ w → force ≡ false)
    → (if place then (if found then force else false) else false)
      ≡ (if place then (if (if v == w then true else found) then force else false) else false)
idle_step place found force v w h = ground (arith, h)

hits-keep_range :
    (r : PacketRegistration) (mapping : PacketMapping) (e : MappingEnd) (k : Key)
    (versions : List ProtocolVersion)
    → hits r e (keep_range mapping.from e.to versions) k ≡ (
        if at_place r k
        then (if listed k.version versions then in_range mapping e k.version else false)
        else false)
unfolding hits keep_range listed in_range
hits-keep_range r mapping e k [] = ground arith
hits-keep_range r mapping e k (v ∷ versions) =
    let ih = hits-keep_range r mapping e k versions in
    let here = same_key-version r v k in
    let moved : v ≡ k.version → in_range mapping e v ≡ in_range mapping e k.version =
      λ q. ap (λ (w : ProtocolVersion). in_range mapping e w) q in
    elim (Bool-cases (no_less_than v mapping.from)) [
      | inl above ↦ elim (Bool-cases (no_greater_than v e.to)) [
        | inl below ↦
            let forced : in_range mapping e v ≡ (if skipped e v then false else true) =
              rw (in_range, above, below) refl in
            rw (above, below)
              (rw (hits, ih, here)
                (force_step (at_place r k) (listed k.version versions)
                  (in_range mapping e k.version) (skipped e v) v k.version
                  (λ q. sym (moved q) ∙ forced)))
        | inr over ↦
            let forced : in_range mapping e v ≡ false = rw (in_range, above, over) refl in
            rw (above, over)
              (rw ih (
                idle_step (at_place r k) (listed k.version versions) (in_range mapping e k.version)
                  v k.version (λ q. sym (moved q) ∙ forced)))
      ]
      | inr under ↦
          let forced : in_range mapping e v ≡ false = rw (in_range, under) refl in
          rw under (
            rw ih (
              idle_step (at_place r k) (listed k.version versions) (in_range mapping e k.version) v
                k.version (λ q. sym (moved q) ∙ forced)))
    ]

unfoldable none_above : List ProtocolVersion → Bool
none_above [] = true
none_above (w ∷ versions) = if no_greater_than w v1_21_11 then none_above versions else false

listed-none_above :
    (versions : List ProtocolVersion) (v : ProtocolVersion)
    → none_above versions ≡ true
    → listed v versions ≡ true
    → no_greater_than v v1_21_11 ≡ true
unfolding listed none_above
listed-none_above [] v below found = cc
listed-none_above (w ∷ versions) v below found =
    let ih = listed-none_above versions v in
    elim (Bool-cases (no_greater_than w v1_21_11)) [
      | inl within ↦ elim (Bool-cases (w == v)) [
        | inl same ↦ rw ((==_iff w v).0 same) at within
        | inr other ↦ ih (rw within at below) (rw other at found)
      ]
      | inr above ↦ ground (arith, above)
    ]

none_above-supported : none_above supported ≡ true
unfolding none_above no_greater_than signed_order
none_above-supported = refl

in_range-in_force :
    (mapping : PacketMapping) (rest : List PacketMapping) (v : ProtocolVersion)
    → listed v supported ≡ true
    → in_range mapping (mapping_end mapping rest) v ≡ in_force mapping rest v
unfolding in_range in_force mapping_end lasts
in_range-in_force mapping [] v found = elim (Option-cases mapping.to) [
  | inl open_end ↦
      rw (open_end, mapping_end, lasts, listed-none_above supported v none_above-supported found)
        refl
  | inr (last, q) ↦ rw (q, mapping_end, lasts) (ground arith)
]
in_range-in_force mapping (next ∷ others) v found = elim (Option-cases mapping.to) [
  | inl open_end ↦ rw (open_end, mapping_end, lasts) refl
  | inr (last, q) ↦ rw (q, mapping_end, lasts) (ground arith)
]

pub covered :
    (r : PacketRegistration) (mapping : PacketMapping) (rest : List PacketMapping) (k : Key)
    → hits r (mapping_end mapping rest) (range mapping.from (mapping_end mapping rest).to) k
      ≡ covers r mapping rest k
unfolding covers
covered r mapping rest k =
    hits-keep_range r mapping (mapping_end mapping rest) k supported
    ∙ elim (Bool-cases (listed k.version supported)) [
      | inl found ↦ rw (found, in_range-in_force mapping rest k.version found) refl
      | inr missing ↦ rw missing refl
    ]
