-- ===== src/Protocol/VarInt/Spread.antt =====
-- The two halves of `encode`: the spread form is a sum of groups, and what is written from it.
use Prim.Native.Nat.{bit_and, bit_or}
use infrarust.Common.{
  ℕ, ◌+◌, ◌-◌, ◌*◌, ◌/◌, ◌%◌, ◌^◌, ◌<◌, ◌≡◌, ◌∙◌, refl, List, [], ◌∷◌, take, arith,
}
use infrarust.Common.Bits.{bit_or-split, bit_and-low, mask_field, bit_or-disjoint, bit_or-zero}
use infrarust.Protocol.Words.{IsWord32, sign_extend_32, shl, shr, to_le_bytes}
use infrarust.Protocol.VarInt.{spread, msbs}

-- Groups shifted to their bytes have no bit in common.
or_fields :
    (a b c d e : ℕ)
    → a < 128
    → b < 128
    → c < 128
    → d < 128
    → e < 16
    → bit_or
        (bit_or
          (bit_or (bit_or a (shl 64 (2 ^ 7 * b) 1)) (shl 64 (2 ^ 14 * c) 2))
          (shl 64 (2 ^ 21 * d) 3))
        (shl 64 (2 ^ 28 * e) 4)
      ≡ a + 2 ^ 8 * (b + 2 ^ 8 * (c + 2 ^ 8 * (d + 2 ^ 8 * e)))
or_fields a b c d e ha hb hc hd he =
    let eb : shl 64 (2 ^ 7 * b) 1 ≡ 2 ^ 8 * b = omega arith in
    let ec : shl 64 (2 ^ 14 * c) 2 ≡ 2 ^ 16 * c = omega arith in
    let ed : shl 64 (2 ^ 21 * d) 3 ≡ 2 ^ 24 * d = omega arith in
    let ee : shl 64 (2 ^ 28 * e) 4 ≡ 2 ^ 32 * e = omega arith in
    rw
      (
        eb,
        ec,
        ed,
        ee,
        bit_or-disjoint 8 a b (omega arith),
        bit_or-disjoint 16 (a + 2 ^ 8 * b) c (omega arith),
        bit_or-disjoint 24 (a + 2 ^ 8 * b + 2 ^ 16 * c) d (omega arith),
        bit_or-disjoint 32 (a + 2 ^ 8 * b + 2 ^ 16 * c + 2 ^ 24 * d) e (omega arith),
      )
      (omega arith)

spread_sum :
    (x : ℕ)
    → spread x
      ≡ x % 2 ^ 7
        + 2 ^ 8
          * (x / 2 ^ 7 % 2 ^ 7
              + 2 ^ 8
                * (x / 2 ^ 14 % 2 ^ 7
                    + 2 ^ 8 * (x / 2 ^ 21 % 2 ^ 7 + 2 ^ 8 * (x / 2 ^ 28 % 2 ^ 4))))
unfolding spread
spread_sum x =
    rw
      (
        bit_and-low 7 x 0x7f refl,
        mask_field 7 7 x 127 refl,
        mask_field 14 7 x 127 refl,
        mask_field 21 7 x 127 refl,
        mask_field 28 4 x 15 refl,
      )
      (or_fields (x % 2 ^ 7) (x / 2 ^ 7 % 2 ^ 7) (x / 2 ^ 14 % 2 ^ 7) (x / 2 ^ 21 % 2 ^ 7)
        (x / 2 ^ 28 % 2 ^ 4) (omega arith) (omega arith) (omega arith) (omega arith) (omega arith))

-- The spread form of a 32-bit pattern: its five groups, a byte apart.
abbrev pub spread_of : ℕ → ℕ
spread_of v =
    v % 128
    + 256
      * (v / 2 ^ 7 % 128 + 256 * (v / 2 ^ 14 % 128 + 256 * (v / 2 ^ 21 % 128 + 256 * (v / 2 ^ 28))))

-- The sign extension adds nothing that the masks keep.
pub spread-sign_extend_32 : (v : ℕ) → IsWord32 v → spread (sign_extend_32 v) ≡ spread_of v
spread-sign_extend_32 v h = spread_sum (sign_extend_32 v) ∙ ground arith

-- The tail of `encode`, for a given number of bytes.
unfoldable pub emit : ℕ → ℕ → List ℕ
emit s n =
    take n (
      to_le_bytes 8 (bit_or s (bit_and msbs (shr 0xffff_ffff_ffff_ffff ((8 - n + 1) * 2 ^ 3 - 1)))))

set_msb : (a b m : ℕ) → a < 128 → bit_or (a + 256 * b) (128 + 256 * m) ≡ a + 128 + 256 * bit_or b m
set_msb a b m h =
    omega (arith, bit_or-split 8 a b 128 m (omega arith) (omega arith), bit_or-disjoint 7 a 1 h)

pub emit_one : (a : ℕ) → a < 128 → emit a 1 ≡ a ∷ []
unfolding emit
emit_one a h = ground (arith, bit_or-zero a)

pub emit_two : (a b : ℕ) → a < 128 → b < 128 → emit (a + 256 * b) 2 ≡ (a + 128) ∷ b ∷ []
unfolding emit
emit_two a b h k = ground (arith, set_msb a b 0 h, bit_or-zero b)

pub emit_three :
    (a b c : ℕ)
    → a < 128
    → b < 128
    → c < 128
    → emit (a + 256 * (b + 256 * c)) 3 ≡ (a + 128) ∷ (b + 128) ∷ c ∷ []
unfolding emit
emit_three a b c h k l =
    ground (arith, set_msb a (b + 256 * c) 128 h, set_msb b c 0 k, bit_or-zero c)

pub emit_four :
    (a b c d : ℕ)
    → a < 128
    → b < 128
    → c < 128
    → d < 128
    → emit (a + 256 * (b + 256 * (c + 256 * d))) 4 ≡ (a + 128) ∷ (b + 128) ∷ (c + 128) ∷ d ∷ []
unfolding emit
emit_four a b c d h k l m = ground (
  arith,
  set_msb a (b + 256 * (c + 256 * d)) 0x8080 h,
  set_msb b (c + 256 * d) 128 k,
  set_msb c d 0 l,
  bit_or-zero d,
)

pub emit_five :
    (a b c d e : ℕ)
    → a < 128
    → b < 128
    → c < 128
    → d < 128
    → e < 128
    → emit (a + 256 * (b + 256 * (c + 256 * (d + 256 * e)))) 5
      ≡ (a + 128) ∷ (b + 128) ∷ (c + 128) ∷ (d + 128) ∷ e ∷ []
unfolding emit
emit_five a b c d e h k l m n = ground (
  arith,
  set_msb a (b + 256 * (c + 256 * (d + 256 * e))) 0x0080_8080 h,
  set_msb b (c + 256 * (d + 256 * e)) 0x8080 k,
  set_msb c (d + 256 * e) 128 l,
  set_msb d e 0 m,
  bit_or-zero e,
)
