-- ===== src/Protocol/Version.antt =====
-- version.rs: protocol versions, the states of a connection and the directions of a packet.
use infrarust.Common.{
  ℕ, ◌+◌, ◌-◌, ◌%◌, ◌^◌, Bool, Option, none, some, List, [], ◌∷◌, leb, ltb, ◌==◌, if◌then◌else◌,
}

-- The protocol number, an `i32` as its bit pattern.
abbrev pub ProtocolVersion : Type 0
ProtocolVersion = ℕ

abbrev pub unknown : ProtocolVersion
unknown = 2 ^ 32 - 1

abbrev pub legacy : ProtocolVersion
legacy = 0

abbrev pub v1_7_2 : ProtocolVersion
v1_7_2 = 4

abbrev pub v1_7_6 : ProtocolVersion
v1_7_6 = 5

abbrev pub v1_8 : ProtocolVersion
v1_8 = 47

abbrev pub v1_9 : ProtocolVersion
v1_9 = 107

abbrev pub v1_9_2 : ProtocolVersion
v1_9_2 = 109

abbrev pub v1_9_4 : ProtocolVersion
v1_9_4 = 110

abbrev pub v1_12 : ProtocolVersion
v1_12 = 335

abbrev pub v1_12_1 : ProtocolVersion
v1_12_1 = 338

abbrev pub v1_12_2 : ProtocolVersion
v1_12_2 = 340

abbrev pub v1_13 : ProtocolVersion
v1_13 = 393

abbrev pub v1_14 : ProtocolVersion
v1_14 = 477

abbrev pub v1_15 : ProtocolVersion
v1_15 = 573

abbrev pub v1_16 : ProtocolVersion
v1_16 = 735

abbrev pub v1_16_2 : ProtocolVersion
v1_16_2 = 751

abbrev pub v1_16_4 : ProtocolVersion
v1_16_4 = 754

abbrev pub v1_17 : ProtocolVersion
v1_17 = 755

abbrev pub v1_18 : ProtocolVersion
v1_18 = 757

abbrev pub v1_18_2 : ProtocolVersion
v1_18_2 = 758

abbrev pub v1_19 : ProtocolVersion
v1_19 = 759

abbrev pub v1_19_1 : ProtocolVersion
v1_19_1 = 760

abbrev pub v1_19_3 : ProtocolVersion
v1_19_3 = 761

abbrev pub v1_19_4 : ProtocolVersion
v1_19_4 = 762

abbrev pub v1_20 : ProtocolVersion
v1_20 = 763

abbrev pub v1_20_2 : ProtocolVersion
v1_20_2 = 764

abbrev pub v1_20_3 : ProtocolVersion
v1_20_3 = 765

abbrev pub v1_20_5 : ProtocolVersion
v1_20_5 = 766

abbrev pub v1_21 : ProtocolVersion
v1_21 = 767

abbrev pub v1_21_2 : ProtocolVersion
v1_21_2 = 768

abbrev pub v1_21_4 : ProtocolVersion
v1_21_4 = 769

abbrev pub v1_21_5 : ProtocolVersion
v1_21_5 = 770

abbrev pub v1_21_6 : ProtocolVersion
v1_21_6 = 771

abbrev pub v1_21_7 : ProtocolVersion
v1_21_7 = 772

abbrev pub v1_21_9 : ProtocolVersion
v1_21_9 = 773

abbrev pub v1_21_11 : ProtocolVersion
v1_21_11 = 774

abbrev pub supported : List ProtocolVersion
supported =
    v1_7_2 ∷ v1_7_6 ∷ v1_8 ∷ v1_9 ∷ v1_9_2 ∷ v1_9_4 ∷ v1_12 ∷ v1_12_1 ∷ v1_12_2 ∷ v1_13 ∷ v1_14
    ∷ v1_15 ∷ v1_16 ∷ v1_16_2 ∷ v1_16_4 ∷ v1_17 ∷ v1_18 ∷ v1_18_2 ∷ v1_19 ∷ v1_19_1 ∷ v1_19_3
    ∷ v1_19_4 ∷ v1_20 ∷ v1_20_2 ∷ v1_20_3 ∷ v1_20_5 ∷ v1_21 ∷ v1_21_2 ∷ v1_21_4 ∷ v1_21_5 ∷ v1_21_6
    ∷ v1_21_7 ∷ v1_21_9 ∷ v1_21_11 ∷ []

-- The order of `i32`, moved to the numbers.
unfoldable pub signed_order : ℕ → ℕ
signed_order v = (v + 2 ^ 31) % 2 ^ 32

unfoldable pub no_less_than : ProtocolVersion → ProtocolVersion → Bool
no_less_than self other = leb (signed_order other) (signed_order self)

unfoldable pub no_greater_than : ProtocolVersion → ProtocolVersion → Bool
no_greater_than self other = leb (signed_order self) (signed_order other)

unfoldable pub less_than : ProtocolVersion → ProtocolVersion → Bool
less_than self other = ltb (signed_order self) (signed_order other)

unfoldable pub keep_range :
    ProtocolVersion → ProtocolVersion → List ProtocolVersion → List ProtocolVersion
keep_range from to [] = []
keep_range from to (v ∷ versions) =
    let rest = keep_range from to versions in
    if no_less_than v from then (if no_greater_than v to then v ∷ rest else rest) else rest

-- `range`, the supported versions from one to another.
abbrev pub range : ProtocolVersion → ProtocolVersion → List ProtocolVersion
range from to = keep_range from to supported

pub data ConnectionState : Type 0 where
  handshake status login config play : ConnectionState

unfoldable pub handshake_id : ConnectionState → Option ℕ
handshake_id status = some 1
handshake_id login = some 2
handshake_id handshake = none
handshake_id config = none
handshake_id play = none

unfoldable pub from_handshake_id : ℕ → Option ConnectionState
from_handshake_id id =
    if id == 1
    then some status
    else if id == 2
    then some login
    else if id == 3
    then some login
    else none

pub data Direction : Type 0 where
  serverbound clientbound : Direction

abbrev pub opposite : Direction → Direction
opposite serverbound = clientbound
opposite clientbound = serverbound
