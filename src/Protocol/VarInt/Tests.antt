-- ===== src/Protocol/VarInt/Tests.antt =====
-- Runs of codec/varint.rs.
use infrarust.Common.{◌+◌, ◌≤◌, ◌≡◌, refl, [], ◌∷◌, ◌++◌, length, arith}
use infrarust.Protocol.Words.{IsWord32, leading_zeros}
use infrarust.Protocol.Error.{ok, err, incomplete}
use infrarust.Protocol.VarInt.{
  written_size, spread, encode, decode_loop, decode, partial_loop, decode_partial, too_large_status,
}
use infrarust.Protocol.VarInt.Encode.{groups, encode-groups, written_size-length}
use infrarust.Protocol.VarInt.Decode.{Took, decode_takes, observe, decode_partial-observe}
use infrarust.Protocol.VarInt.RoundTrip.{decode-encode, decode_prefix}

-- `encode` of 25565, the usual port, and of -1.
encode_port : encode 25565 ≡ 0xdd ∷ 0xc7 ∷ 0x01 ∷ []
unfolding encode spread leading_zeros
encode_port = refl

encode_minus_one : encode 0xffff_ffff ≡ 0xff ∷ 0xff ∷ 0xff ∷ 0xff ∷ 0x0f ∷ []
unfolding encode spread leading_zeros
encode_minus_one = refl

decode_five_open : decode_partial (0x80 ∷ 0x80 ∷ 0x80 ∷ 0x80 ∷ 0x80 ∷ 0x01 ∷ []) ≡ too_large_status
unfolding decode_partial partial_loop
decode_five_open = refl

decode_two : decode (0xdd ∷ 0xc7 ∷ 0x01 ∷ 0x05 ∷ []) ≡ ok (25565, 0x05 ∷ [])
unfolding decode decode_loop
decode_two = refl

encode-groups_example : encode 2_097_151 ≡ groups 4 2_097_151
encode-groups_example = encode-groups 2_097_151 (omega arith)

written_size-length_example : written_size 0x8000_0000 ≡ length (encode 0x8000_0000)
written_size-length_example = written_size-length 0x8000_0000 (omega arith)

decode_takes_example :
    Took 5 (0xdd ∷ 0xc7 ∷ 0x01 ∷ 0x05 ∷ []) (0x05 ∷ [])
    × IsWord32 25565
    × (written_size 25565 + 1 ≤ 4)
decode_takes_example = decode_takes (0xdd ∷ 0xc7 ∷ 0x01 ∷ 0x05 ∷ []) 25565 (0x05 ∷ []) decode_two

decode-encode_example : decode (encode 0xffff_ffff ++ (7 ∷ [])) ≡ ok (0xffff_ffff, 7 ∷ [])
decode-encode_example = decode-encode 0xffff_ffff (7 ∷ []) (omega arith)

decode_prefix_example : decode (0xdd ∷ 0xc7 ∷ []) ≡ err (incomplete "VarInt")
decode_prefix_example = decode_prefix 25565 0x01 (0xdd ∷ 0xc7 ∷ []) [] (omega arith) encode_port

decode_partial-observe_example :
    decode_partial (0xdd ∷ 0xc7 ∷ []) ≡ observe (0xdd ∷ 0xc7 ∷ []) (decode (0xdd ∷ 0xc7 ∷ []))
decode_partial-observe_example = decode_partial-observe (0xdd ∷ 0xc7 ∷ [])
