-- ===== src/Protocol/VarInt/RoundTrip.antt =====
-- `encode` and `decode` of codec/varint.rs together.
use Prim.Native.Nat.{bit_and}
use infrarust.Common.{
  ℕ, zero, suc, ◌+◌, ◌*◌, ◌/◌, ◌%◌, ◌^◌, ◌≤◌, ◌<◌, ◌≡◌, ◌∙◌, refl, ap, List, [], ◌∷◌, ◌++◌,
  length-append, Bool-cases, ltb, inl, inr, arith,
}
use mathlib.Core.List.{append-nil}
use native.Mathlib.Nat.{mod-eq_of_lt, div-add-mod, pow-suc, mul-le-mul_right}
use infrarust.Common.Bits.{bit_and-low, bit_or-disjoint}
use infrarust.Protocol.Words.{IsWord32, shl}
use infrarust.Protocol.Error.{ok, err, incomplete}
use infrarust.Protocol.VarInt.{encode, put_group, decode_loop, decode}
use infrarust.Protocol.VarInt.Encode.{groups, encode-groups}
use infrarust.Protocol.VarInt.Decode.{
  continuation, seven_more, decode-append_ok, decode_cases, decode-append_overlong,
}

-- Putting in a group above the value's bits adds it.
put_group-add :
    (val g b i : ℕ)
    → val < 2 ^ (i * 7)
    → b % 128 ≡ g
    → g * 2 ^ (i * 7) < 2 ^ 32
    → put_group val b i ≡ val + g * 2 ^ (i * 7)
put_group-add val g b i h e k =
    let low : bit_and b 0x7f ≡ g = bit_and-low 7 b 0x7f refl ∙ e in
    let placed : shl 32 (bit_and b 0x7f) (i * 7) ≡ 2 ^ (i * 7) * g =
      rw low (mod-eq_of_lt k ∙ omega arith) in
    rw placed (bit_or-disjoint (i * 7) val g h ∙ omega arith)

-- A last byte, and a byte with the continuation bit over the group `g`.
last_byte :
    (rounds i val w : ℕ) (rest : List ℕ)
    → w < 128
    → val < 2 ^ (i * 7)
    → w * 2 ^ (i * 7) < 2 ^ 32
    → decode_loop (suc rounds) i val (w ∷ rest) ≡ ok (val + w * 2 ^ (i * 7), rest)
unfolding decode_loop
last_byte rounds i val w rest hw h k = ground (arith, continuation w, put_group-add val w w i h)

inner_byte :
    (rounds i val g : ℕ) (rest : List ℕ)
    → g < 128
    → val < 2 ^ (i * 7)
    → g * 2 ^ (i * 7) < 2 ^ 32
    → decode_loop (suc rounds) i val ((g + 128) ∷ rest)
      ≡ decode_loop rounds (i + 1) (val + g * 2 ^ (i * 7)) rest
unfolding decode_loop
inner_byte rounds i val g rest hg h k =
    ground (arith, continuation (g + 128), put_group-add val g (g + 128) i h)

pub split_group : (w i : ℕ) → w * 2 ^ (i * 7) ≡ w % 128 * 2 ^ (i * 7) + w / 128 * 2 ^ ((i + 1) * 7)
split_group w i =
    let whole = ap (λ (t : ℕ). t * 2 ^ (i * 7)) (div-add-mod w 128) in
    omega (arith, whole, ap (λ (t : ℕ). w / 128 * t) (seven_more i))

-- `w` is what is still to be read, from bit `7 * i` on.
decode_loop-groups :
    (k rounds i val w : ℕ) (rest : List ℕ)
    → k < rounds
    → w < 128 ^ suc k
    → val < 2 ^ (i * 7)
    → w * 2 ^ (i * 7) < 2 ^ 32
    → decode_loop rounds i val (groups k w ++ rest) ≡ ok (val + w * 2 ^ (i * 7), rest)
unfolding groups
decode_loop-groups k zero i val w rest hr hw h fits = absurd (omega arith)
decode_loop-groups zero (suc rounds) i val w rest hr hw h fits =
    last_byte rounds i val w rest (omega arith) h fits
decode_loop-groups (suc k) (suc rounds) i val w rest hr hw h fits = elim (Bool-cases (ltb w 128)) [
  | inl small ↦ rw small (last_byte rounds i val w rest (ground arith) h fits)
  | inr large ↦
      let sum = split_group w i in
      let deeper : w / 128 < 128 ^ suc k = omega (arith, pow-suc 128 (suc k)) in
      let low : suc (w % 128) * 2 ^ (i * 7) ≤ 128 * 2 ^ (i * 7) =
        mul-le-mul_right (2 ^ (i * 7)) (omega arith) in
      rw
        (
          large,
          inner_byte rounds i val (w % 128) (groups k (w / 128) ++ rest) (omega arith) h
              (omega (arith, sum)),
          decode_loop-groups k rounds (i + 1) (val + w % 128 * 2 ^ (i * 7)) (w / 128) rest
              (omega arith) deeper (omega (arith, seven_more i, low)) (omega (arith, sum)),
        )
        (ground (arith, sum))
]

-- decode reads back every 32-bit integer that encode wrote, and leaves what follows.
pub decode-encode : (v : ℕ) (rest : List ℕ) → IsWord32 v → decode (encode v ++ rest) ≡ ok (v, rest)
unfolding decode
decode-encode v rest h = rw (encode-groups v h) (
    decode_loop-groups 4 5 0 0 v rest (omega arith) (omega arith) (omega arith) (omega arith)
    ∙ ground arith)

-- A proper prefix of an encoding of a 32-bit integer is reported as incomplete by decode.
pub decode_prefix :
    (v x : ℕ) (front back : List ℕ)
    → IsWord32 v
    → encode v ≡ front ++ (x ∷ back)
    → decode front ≡ err (incomplete "VarInt")
decode_prefix v x front back h e = elim (decode_cases front) [
  | inl (inl ((u, rest), r)) ↦
      ground
        (arith, whole, decode-append_ok front (x ∷ back) u rest r, length-append rest (x ∷ back))
  | inl (inr r) ↦ r
  | inr r ↦ cc (whole, decode-append_overlong front (x ∷ back) r)
]
  where
    whole : decode (front ++ (x ∷ back)) ≡ ok (v, [])
    whole = rw (append-nil, e) at (decode-encode v [] h)
