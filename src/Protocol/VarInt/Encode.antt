-- ===== src/Protocol/VarInt/Encode.antt =====
-- `encode` and `written_size` of codec/varint.rs against the groups of seven bits.
use infrarust.Common.{
  ℕ, zero, suc, ◌+◌, ◌-◌, ◌*◌, ◌/◌, ◌%◌, ◌^◌, ◌≤◌, ◌<◌, ◌≡◌, refl, List, [], ◌∷◌, length, ◌⊎◌, inl,
  inr, arith, ltb, if◌then◌else◌,
}
use native.Mathlib.Decide.{dec_lt}
use infrarust.Protocol.Words.{
  IsWord32, shr, leading_zeros, leading_zeros-le, leading_zeros_above, leading_zeros_below,
}
use infrarust.Protocol.VarInt.{written_size, encode}
use infrarust.Protocol.VarInt.Spread.{
  spread_of, spread-sign_extend_32, emit, emit_one, emit_two, emit_three, emit_four, emit_five,
}

-- Seven bits a byte, lowest first, the top bit set on all bytes but the last: at most `k + 1` bytes.
unfoldable pub groups : ℕ → ℕ → List ℕ
groups zero v = v ∷ []
groups (suc k) v =
    let rest = groups k (v / 128) in if ltb v 128 then v ∷ [] else (v % 128 + 128) ∷ rest

-- The number of bytes that `encode` computes from the leading zeros.
bytes_of :
    (s n : ℕ)
    → 0 < n
    → n ≤ 8
    → (2 ^ (8 * (n - 1)) ≤ s) ⊎ (n ≡ 1)
    → s < 2 ^ (8 * n - 1)
    → 8 - shr (leading_zeros 64 s - 1) 3 ≡ n
bytes_of s n h k lo hi = elim lo [
  | inl p ↦ omega (
    arith,
    leading_zeros_above 64 s (8 * n - 1) hi,
    leading_zeros_below 64 s (8 * (n - 1)) (omega arith) p,
  )
  | inr e ↦ omega (arith, leading_zeros_above 64 s (8 * n - 1) hi, leading_zeros-le 64 s)
]

encode-emit :
    (v n : ℕ)
    → IsWord32 v
    → 8 - shr (leading_zeros 64 (spread_of v) - 1) 3 ≡ n
    → encode v ≡ emit (spread_of v) n
unfolding encode emit
encode-emit v n h e = rw (spread-sign_extend_32 v h, e)

-- `n` bytes of seven bits, the last of which is not zero, make `n` bytes of encoding.
encode_sized :
    (v n : ℕ)
    → IsWord32 v
    → 0 < n
    → n ≤ 5
    → (2 ^ (8 * (n - 1)) ≤ spread_of v) ⊎ (n ≡ 1)
    → spread_of v < 2 ^ (8 * n - 1)
    → encode v ≡ emit (spread_of v) n
encode_sized v n h p q lo hi = encode-emit v n h (bytes_of (spread_of v) n p (omega arith) lo hi)

encode_from_four : (v : ℕ) → IsWord32 v → 2 ^ 21 ≤ v → encode v ≡ groups 4 v
unfolding groups
encode_from_four v h p = elim (dec_lt v (2 ^ 28)) [
  | yes q ↦
      let e : spread_of v
          ≡ v % 128
            + 256 * (v / 128 % 128 + 256 * (v / 128 / 128 % 128 + 256 * (v / 128 / 128 / 128))) =
        omega arith in
      rw
        (
          encode_sized v 4 h (omega arith) (omega arith) (inl (omega arith)) (omega arith),
          e,
          (emit_four (v % 128) (v / 128 % 128) (v / 128 / 128 % 128) (v / 128 / 128 / 128)
              (omega arith) (omega arith) (omega arith) (omega arith)),
        )
        (ground arith)
  | no q ↦
      let e : spread_of v
          ≡ v % 128
            + 256
              * (v / 128 % 128
                  + 256
                    * (v / 128 / 128 % 128
                        + 256 * (v / 128 / 128 / 128 % 128 + 256 * (v / 128 / 128 / 128 / 128)))) =
        omega arith in
      rw
        (
          encode_sized v 5 h (omega arith) (omega arith) (inl (omega arith)) (omega arith),
          e,
          (emit_five (v % 128) (v / 128 % 128) (v / 128 / 128 % 128) (v / 128 / 128 / 128 % 128)
              (v / 128 / 128 / 128 / 128) (omega arith) (omega arith) (omega arith) (omega arith)
              (omega arith)),
        )
        (ground arith)
]

encode_to_three : (v : ℕ) → IsWord32 v → v < 2 ^ 21 → 2 ^ 7 ≤ v → encode v ≡ groups 4 v
unfolding groups
encode_to_three v h p r = elim (dec_lt v (2 ^ 14)) [
  | yes q ↦
      let e : spread_of v ≡ v % 128 + 256 * (v / 128) = omega arith in
      rw
        (
          encode_sized v 2 h (omega arith) (omega arith) (inl (omega arith)) (omega arith),
          e,
          (emit_two (v % 128) (v / 128) (omega arith) (omega arith)),
        )
        (ground arith)
  | no q ↦
      let e : spread_of v ≡ v % 128 + 256 * (v / 128 % 128 + 256 * (v / 128 / 128)) = omega arith in
      rw
        (
          encode_sized v 3 h (omega arith) (omega arith) (inl (omega arith)) (omega arith),
          e,
          (emit_three (v % 128) (v / 128 % 128) (v / 128 / 128) (omega arith) (omega arith)
              (omega arith)),
        )
        (ground arith)
]

-- The branch-free encoder writes the seven-bit groups of the 32-bit pattern, lowest first, all
-- but the last with a continuation bit.
pub encode-groups : (v : ℕ) → IsWord32 v → encode v ≡ groups 4 v
unfolding groups
encode-groups v h = elim (dec_lt v (2 ^ 7)) [
  | yes q ↦
      let e : spread_of v ≡ v = omega arith in
      rw
        (encode_sized v 1 h (omega arith) (omega arith) (inr refl) (omega arith), e, (emit_one v q))
        (ground arith)
  | no q ↦ elim (dec_lt v (2 ^ 21)) [
    | yes p ↦ encode_to_three v h p (omega arith)
    | no p ↦ encode_from_four v h (omega arith)
  ]
]

-- The number of groups, in closed form.
length-groups_four :
    (v : ℕ)
    → length (groups 4 v) ≡ (
        if ltb v (2 ^ 7)
        then 1
        else if ltb v (2 ^ 14)
        then 2
        else if ltb v (2 ^ 21)
        then 3
        else if ltb v (2 ^ 28)
        then 4
        else 5)
unfolding groups
length-groups_four v = ground arith

written_size_sized :
    (v n : ℕ)
    → 0 < n
    → n ≤ 5
    → 2 ^ (7 * (n - 1)) ≤ v
    → v < 2 ^ (7 * n)
    → (31 - leading_zeros 32 v) / 7 + 1 ≡ n
written_size_sized v n h k p q = omega (
  arith,
  leading_zeros_below 32 v (7 * (n - 1)) (omega arith) p,
  leading_zeros_above 32 v (7 * n) q,
)

-- written_size of a 32-bit integer is the number of bytes that encode writes.
pub written_size-length : (v : ℕ) → IsWord32 v → written_size v ≡ length (encode v)
unfolding written_size
written_size-length v h =
    rw (encode-groups v h, length-groups_four v)
      (ground (
        arith,
        written_size_sized v 1,
        written_size_sized v 2,
        written_size_sized v 3,
        written_size_sized v 4,
        written_size_sized v 5,
      ))

pub written_size_pos : (v : ℕ) → 0 < written_size v
unfolding written_size
written_size_pos v = ground arith
