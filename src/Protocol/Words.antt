-- ===== src/Protocol/Words.antt =====
-- Machine words as bit patterns: an `i32` or `u32` is a number below 2^32, an `i64` or `u64` one
-- below 2^64, a byte one below 256. The sign of a pattern is its top bit.
use infrarust.Common.{
  ℕ, zero, suc, ◌+◌, ◌-◌, ◌*◌, ◌/◌, ◌%◌, ◌^◌, ◌≤◌, ◌<◌, Bool, List, [], ◌∷◌, arith, leb,
  if◌then◌else◌,
}
use native.Mathlib.Nat.{pow-le-pow_right}

abbrev pub IsByte : ℕ → Type 0
IsByte b = b < 256

abbrev pub IsWord32 : ℕ → Type 0
IsWord32 v = v < 2 ^ 32

abbrev pub IsWord64 : ℕ → Type 0
IsWord64 v = v < 2 ^ 64

-- `x < 0` for an `i32`.
abbrev pub is_negative_32 : ℕ → Bool
is_negative_32 v = leb (2 ^ 31) v

-- `x as u64` for an `i32`: the sign bit fills the upper half.
abbrev pub sign_extend_32 : ℕ → ℕ
sign_extend_32 v = if is_negative_32 v then v + (2 ^ 64 - 2 ^ 32) else v

-- `x >> k` for an unsigned word, and `x << k` for a word of `w` bits.
abbrev pub shr : ℕ → ℕ → ℕ
shr x k = x / 2 ^ k

abbrev pub shl : ℕ → ℕ → ℕ → ℕ
shl w x k = x * 2 ^ k % 2 ^ w

-- `x.leading_zeros()` for a word of `w` bits.
unfoldable pub leading_zeros : ℕ → ℕ → ℕ
leading_zeros zero x = 0
leading_zeros (suc w) x = if leb (2 ^ w) x then 0 else suc (leading_zeros w x)

-- `x.to_le_bytes()` for a word of `n` bytes.
abbrev pub to_le_bytes : ℕ → ℕ → List ℕ
to_le_bytes zero x = []
to_le_bytes (suc n) x = (x % 256) ∷ to_le_bytes n (x / 256)

pub leading_zeros-le : (w x : ℕ) → leading_zeros w x ≤ w
unfolding leading_zeros
leading_zeros-le zero x = omega arith
leading_zeros-le (suc w) x = ground (arith, leading_zeros-le w x)

-- A word below 2^b has at least w - b leading zeros.
pub leading_zeros_above : (w x b : ℕ) → x < 2 ^ b → w ≤ leading_zeros w x + b
unfolding leading_zeros
leading_zeros_above zero x b h = omega arith
leading_zeros_above (suc w) x b h =
    ground
      (arith, leading_zeros_above w x b h, λ (p : b ≤ w). pow-le-pow_right {n = 2} (omega arith) p)

-- A word of at least 2^a has at most w - 1 - a.
pub leading_zeros_below : (w x a : ℕ) → a < w → 2 ^ a ≤ x → leading_zeros w x + a < w
unfolding leading_zeros
leading_zeros_below zero x a h p = absurd (omega arith)
leading_zeros_below (suc w) x a h p =
    ground
      (arith, leading_zeros_below w x a, λ (q : w ≤ a). pow-le-pow_right {n = 2} (omega arith) q)
