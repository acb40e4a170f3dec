-- ===== src/Protocol/VarLong/Tests.antt =====
-- Runs of codec/varlong.rs.
use infrarust.Common.{◌≡◌, ◌^◌, ◌-◌, refl, [], ◌∷◌, ◌++◌, arith}
use infrarust.Protocol.Error.{ok}
use infrarust.Protocol.VarInt.Encode.{groups}
use infrarust.Protocol.VarLong.{encode_loop, encode, decode}
use infrarust.Protocol.VarLong.RoundTrip.{encode-long_groups, decode-encode_long}

encode_port : encode 25565 ≡ 0xdd ∷ 0xc7 ∷ 0x01 ∷ []
unfolding encode encode_loop
encode_port = refl

encode_minus_one :
    encode (2 ^ 64 - 1) ≡ 0xff ∷ 0xff ∷ 0xff ∷ 0xff ∷ 0xff ∷ 0xff ∷ 0xff ∷ 0xff ∷ 0xff ∷ 0x01 ∷ []
unfolding encode encode_loop
encode_minus_one = refl

encode-long_groups_example : encode (2 ^ 63) ≡ groups 9 (2 ^ 63)
encode-long_groups_example = encode-long_groups (2 ^ 63) (omega arith)

decode-encode_long_example : decode (encode (2 ^ 63) ++ (7 ∷ [])) ≡ ok (2 ^ 63, 7 ∷ [])
decode-encode_long_example = decode-encode_long (2 ^ 63) (7 ∷ []) (omega arith)
