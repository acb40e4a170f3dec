-- ===== src/Protocol/VarLong/RoundTrip.antt =====
-- `encode` and `decode` of codec/varlong.rs together.
use Prim.Native.Nat.{bit_and}
use infrarust.Common.{
  ℕ, zero, suc, ◌+◌, ◌*◌, ◌/◌, ◌%◌, ◌^◌, ◌≤◌, ◌<◌, ◌≡◌, ◌∙◌, refl, List, ◌∷◌, ◌++◌, Bool-cases, ltb,
  inl, inr, arith,
}
use native.Mathlib.Nat.{mod-eq_of_lt, pow-suc, mul-le-mul_right}
use infrarust.Common.Bits.{bit_and-low, bit_or-disjoint}
use infrarust.Protocol.Words.{IsWord64, shl}
use infrarust.Protocol.Error.{ok}
use infrarust.Protocol.VarLong.{encode_loop, encode, put_group, decode_loop, decode}
use infrarust.Protocol.VarInt.Encode.{groups}
use infrarust.Protocol.VarInt.Decode.{continuation, seven_more}
use infrarust.Protocol.VarInt.RoundTrip.{split_group}

-- Putting in a group above the value's bits adds it.
put_group-add :
    (val g b i : ℕ)
    → val < 2 ^ (i * 7)
    → b % 128 ≡ g
    → g * 2 ^ (i * 7) < 2 ^ 64
    → put_group val b i ≡ val + g * 2 ^ (i * 7)
put_group-add val g b i h e k =
    let low : bit_and b 0x7f ≡ g = bit_and-low 7 b 0x7f refl ∙ e in
    let placed : shl 64 (bit_and b 0x7f) (i * 7) ≡ 2 ^ (i * 7) * g =
      rw low (mod-eq_of_lt k ∙ omega arith) in
    rw placed (bit_or-disjoint (i * 7) val g h ∙ omega arith)

-- A last byte, and a byte with the continuation bit over the group `g`.
last_byte :
    (rounds i val w : ℕ) (rest : List ℕ)
    → w < 128
    → val < 2 ^ (i * 7)
    → w * 2 ^ (i * 7) < 2 ^ 64
    → decode_loop (suc rounds) i val (w ∷ rest) ≡ ok (val + w * 2 ^ (i * 7), rest)
unfolding decode_loop
last_byte rounds i val w rest hw h k = ground (arith, continuation w, put_group-add val w w i h)

inner_byte :
    (rounds i val g : ℕ) (rest : List ℕ)
    → g < 128
    → val < 2 ^ (i * 7)
    → g * 2 ^ (i * 7) < 2 ^ 64
    → decode_loop (suc rounds) i val ((g + 128) ∷ rest)
      ≡ decode_loop rounds (i + 1) (val + g * 2 ^ (i * 7)) rest
unfolding decode_loop
inner_byte rounds i val g rest hg h k =
    ground (arith, continuation (g + 128), put_group-add val g (g + 128) i h)

-- `w` is what is still to be read, from bit `7 * i` on.
decode_loop-groups :
    (k rounds i val w : ℕ) (rest : List ℕ)
    → k < rounds
    → w < 128 ^ suc k
    → val < 2 ^ (i * 7)
    → w * 2 ^ (i * 7) < 2 ^ 64
    → decode_loop rounds i val (groups k w ++ rest) ≡ ok (val + w * 2 ^ (i * 7), rest)
unfolding groups
decode_loop-groups k zero i val w rest hr hw h fits = absurd (omega arith)
decode_loop-groups zero (suc rounds) i val w rest hr hw h fits =
    last_byte rounds i val w rest (omega arith) h fits
decode_loop-groups (suc k) (suc rounds) i val w rest hr hw h fits = elim (Bool-cases (ltb w 128)) [
  | inl small ↦ rw small (last_byte rounds i val w rest (ground arith) h fits)
  | inr large ↦
      let sum = split_group w i in
      let deeper : w / 128 < 128 ^ suc k = omega (arith, pow-suc 128 (suc k)) in
      let low : suc (w % 128) * 2 ^ (i * 7) ≤ 128 * 2 ^ (i * 7) =
        mul-le-mul_right (2 ^ (i * 7)) (omega arith) in
      rw
        (
          large,
          inner_byte rounds i val (w % 128) (groups k (w / 128) ++ rest) (omega arith) h
              (omega (arith, sum)),
          decode_loop-groups k rounds (i + 1) (val + w % 128 * 2 ^ (i * 7)) (w / 128) rest
              (omega arith) deeper (omega (arith, seven_more i, low)) (omega (arith, sum)),
        )
        (ground (arith, sum))
]

-- The loop has enough fuel for `k + 1` groups.
encode_loop-groups : (k fuel w : ℕ) → k < fuel → w < 128 ^ suc k → encode_loop fuel w ≡ groups k w
unfolding encode_loop groups
encode_loop-groups k zero w h q = absurd (omega arith)
encode_loop-groups zero (suc fuel) w h q =
    let low = bit_and-low 7 w 0x7f refl in ground (arith, low)
encode_loop-groups (suc k) (suc fuel) w h q =
    let low = bit_and-low 7 w 0x7f refl in
    let deeper : w / 128 < 128 ^ suc k = omega (arith, pow-suc 128 (suc k)) in
    let rest = encode_loop-groups k fuel (w / 128) (omega arith) deeper in
    let high = bit_or-disjoint 7 (w % 128) 1 (omega arith) in
    elim (Bool-cases (ltb w 128)) [
      | inl small ↦ ground (arith, low, small)
      | inr large ↦ rw (low, rest, high, large) (ground (arith, large))
    ]

-- The byte-by-byte loop of the VarLong's encode ends within ten rounds on a 64-bit pattern and
-- writes its seven-bit groups, lowest first, all but the last with a continuation bit.
pub encode-long_groups : (v : ℕ) → IsWord64 v → encode v ≡ groups 9 v
unfolding encode
encode-long_groups v h = encode_loop-groups 9 10 v (omega arith) (omega arith)

-- decode of a VarLong reads back every 64-bit integer that its encode wrote, and leaves what
-- follows.
pub decode-encode_long :
    (v : ℕ) (rest : List ℕ) → IsWord64 v → decode (encode v ++ rest) ≡ ok (v, rest)
unfolding decode
decode-encode_long v rest h = rw (encode-long_groups v h) (
    decode_loop-groups 9 10 0 0 v rest (omega arith) (omega arith) (omega arith) (omega arith)
    ∙ ground arith)
