-- ===== src/Common/Bits.antt =====
-- Laws of the bitwise operations at variables: the lowest digit, and a split at any bit position.
use Prim.Native.Nat.{
  ℕ, zero, suc, ◌+◌, ◌*◌, ◌/◌, ◌%◌, ◌^◌, ◌≤◌, ◌<◌, min, max, bit_and, bit_or, digits,
  bit_and-bitwise, bit_or-bitwise,
}
use mathlib.Core.Path.{◌≡◌, refl, ap, ◌∙◌}
use native.Mathlib.Omega.{arith}
use native.Mathlib.Nat.{
  pow-suc, one-le-pow, mod-lt, mod-eq_of_lt, div-add-mod, mul-add-mod_self_left,
}

-- Fuel at least the first operand makes no difference.
module _ (base : ℕ → ℕ) (op : ℕ → ℕ → ℕ) where
  digits_enough : (n m a b : ℕ) → a ≤ n → a ≤ m → digits base op n a b ≡ digits base op m a b
  digits_enough zero zero zero b p q = refl
  digits_enough zero (suc m) zero b p q = refl
  digits_enough (suc n) zero zero b p q = refl
  digits_enough (suc n) (suc m) zero b p q = refl
  digits_enough zero m (suc a) b p q = absurd (omega arith)
  digits_enough (suc n) zero (suc a) b p q = absurd (omega arith)
  digits_enough (suc n) (suc m) (suc a) b p q =
      let halves = digits_enough n m (suc a / 2) (b / 2) (omega arith) (omega arith) in rw halves

pub bit_and_step : (a b : ℕ) → bit_and a b ≡ bit_and (a / 2) (b / 2) * 2 + min (a % 2) (b % 2)
bit_and_step zero b = omega (arith, bit_and-bitwise 0 b, bit_and-bitwise 0 (b / 2))
bit_and_step (suc a) b = omega (
  arith,
  bit_and-bitwise (suc a) b,
  bit_and-bitwise (suc a / 2) (b / 2),
  digits_enough (λ y. 0) min a (suc a / 2) (suc a / 2) (b / 2) (omega arith) (omega arith),
)

pub bit_or_step : (a b : ℕ) → bit_or a b ≡ bit_or (a / 2) (b / 2) * 2 + max (a % 2) (b % 2)
bit_or_step zero b = omega (arith, bit_or-bitwise 0 b, bit_or-bitwise 0 (b / 2))
bit_or_step (suc a) b = omega (
  arith,
  bit_or-bitwise (suc a) b,
  bit_or-bitwise (suc a / 2) (b / 2),
  digits_enough (λ y. y) max a (suc a / 2) (suc a / 2) (b / 2) (omega arith) (omega arith),
)

-- Both operands cut at bit `k`: the parts are combined on their own.
module _ (op digit : ℕ → ℕ → ℕ)
    (step : (a b : ℕ) → op a b ≡ op (a / 2) (b / 2) * 2 + digit (a % 2) (b % 2))
    (at_zero : op 0 0 ≡ 0) where
  half_of_cut : (k a b : ℕ) → (a + 2 ^ suc k * b) / 2 ≡ a / 2 + 2 ^ k * b
  half_of_cut k a b = omega (arith, ap (λ (t : ℕ). t * b) (pow-suc 2 k))

  low_of_cut : (k a b : ℕ) → (a + 2 ^ suc k * b) % 2 ≡ a % 2
  low_of_cut k a b = omega (arith, ap (λ (t : ℕ). t * b) (pow-suc 2 k))

  split :
      (k a b c d : ℕ)
      → a < 2 ^ k
      → c < 2 ^ k
      → op (a + 2 ^ k * b) (c + 2 ^ k * d) ≡ op a c + 2 ^ k * op b d
  split zero a b c d p q =
      let ea : a ≡ 0 = omega arith in
      let ec : c ≡ 0 = omega arith in
      let eb : 0 + 1 * b ≡ b = omega arith in
      let ed : 0 + 1 * d ≡ d = omega arith in rw (ea, ec, eb, ed, at_zero) (omega arith)
  split (suc k) a b c d p q =
      let ih =
        split k (a / 2) b (c / 2) d (omega (arith, pow-suc 2 k)) (omega (arith, pow-suc 2 k)) in
      rw
        (
          step (a + 2 ^ suc k * b) (c + 2 ^ suc k * d),
          half_of_cut k a b,
          half_of_cut k c d,
          low_of_cut k a b,
          low_of_cut k c d,
          ih,
        )
        (omega (arith, step a c, ap (λ (t : ℕ). t * op b d) (pow-suc 2 k)))

pub bit_and-split :
    (k a b c d : ℕ)
    → a < 2 ^ k
    → c < 2 ^ k
    → bit_and (a + 2 ^ k * b) (c + 2 ^ k * d) ≡ bit_and a c + 2 ^ k * bit_and b d
bit_and-split = split bit_and min bit_and_step refl

pub bit_or-split :
    (k a b c d : ℕ)
    → a < 2 ^ k
    → c < 2 ^ k
    → bit_or (a + 2 ^ k * b) (c + 2 ^ k * d) ≡ bit_or a c + 2 ^ k * bit_or b d
bit_or-split = split bit_or max bit_or_step refl

bit_and-zero_bounded : (n a : ℕ) → a ≤ n → bit_and a 0 ≡ 0
bit_and-zero_bounded n zero h = refl
bit_and-zero_bounded zero (suc a) h = absurd (omega arith)
bit_and-zero_bounded (suc n) (suc a) h =
    omega (arith, bit_and_step (suc a) 0, bit_and-zero_bounded n (suc a / 2) (omega arith))

pub bit_and-zero : (a : ℕ) → bit_and a 0 ≡ 0
bit_and-zero a = bit_and-zero_bounded a a (omega arith)

bit_or-zero_bounded : (n a : ℕ) → a ≤ n → bit_or a 0 ≡ a
bit_or-zero_bounded n zero h = refl
bit_or-zero_bounded zero (suc a) h = absurd (omega arith)
bit_or-zero_bounded (suc n) (suc a) h =
    omega (arith, bit_or_step (suc a) 0, bit_or-zero_bounded n (suc a / 2) (omega arith))

pub bit_or-zero : (a : ℕ) → bit_or a 0 ≡ a
bit_or-zero a = bit_or-zero_bounded a a (omega arith)

pub zero-bit_or : (a : ℕ) → bit_or 0 a ≡ a
zero-bit_or a = bit_or-bitwise 0 a

-- Operands with no bit in common: the lower below bit `k`, the upper a multiple of `2 ^ k`.
pub bit_or-disjoint : (k a b : ℕ) → a < 2 ^ k → bit_or a (2 ^ k * b) ≡ a + 2 ^ k * b
bit_or-disjoint k a b h =
    let ea : a + 2 ^ k * 0 ≡ a = omega arith in
    let eb : 0 + 2 ^ k * b ≡ 2 ^ k * b = omega arith in
    let cut = bit_or-split k a 0 0 b h (one-le-pow k 2 (omega arith)) in
    rw (ea, eb, bit_or-zero a, zero-bit_or b) at cut

mod_double : (k x : ℕ) → x % 2 ^ suc k ≡ x / 2 % 2 ^ k * 2 + x % 2
mod_double k x =
    let small : x / 2 % 2 ^ k < 2 ^ k = mod-lt (x / 2) (one-le-pow k 2 (omega arith)) in
    let whole : x ≡ 2 ^ suc k * (x / 2 / 2 ^ k) + (x / 2 % 2 ^ k * 2 + x % 2) =
      omega
        (arith, div-add-mod (x / 2) (2 ^ k), ap (λ (t : ℕ). t * (x / 2 / 2 ^ k)) (pow-suc 2 k)) in
    ap (λ (t : ℕ). t % 2 ^ suc k) whole
    ∙ mul-add-mod_self_left (2 ^ suc k) (x / 2 / 2 ^ k) _
    ∙ mod-eq_of_lt (omega (arith, pow-suc 2 k))

-- `x & (2 ^ k - 1)`, with the mask written as `m`.
pub bit_and-low : (k x m : ℕ) → m + 1 ≡ 2 ^ k → bit_and x m ≡ x % 2 ^ k
bit_and-low zero x m h = let e : m ≡ 0 = omega arith in rw (e, bit_and-zero x) (omega arith)
bit_and-low (suc k) x m h =
    let e = pow-suc 2 k in
    let pos = one-le-pow k 2 (omega arith) in
    let ih = bit_and-low k (x / 2) (m / 2) (omega (arith, e)) in
    omega (arith, bit_and_step x m, ih, mod_double k x)

-- A mask of `j` ones from bit `k` on.
pub mask_field : (k j x m : ℕ) → m + 1 ≡ 2 ^ j → bit_and x (2 ^ k * m) ≡ 2 ^ k * (x / 2 ^ k % 2 ^ j)
mask_field k j x m h =
    let pos = one-le-pow k 2 (omega arith) in
    let ex : x % 2 ^ k + 2 ^ k * (x / 2 ^ k) ≡ x = omega (arith, div-add-mod x (2 ^ k)) in
    let em : 0 + 2 ^ k * m ≡ 2 ^ k * m = omega arith in
    let cut = bit_and-split k (x % 2 ^ k) (x / 2 ^ k) 0 m (mod-lt x pos) pos in
    rw (ex, em, bit_and-zero (x % 2 ^ k), bit_and-low j (x / 2 ^ k) m h) at cut ∙ omega arith

pub bit_or_lt : (k a b : ℕ) → a < 2 ^ k → b < 2 ^ k → bit_or a b < 2 ^ k
bit_or_lt zero a b p q =
    let ea : a ≡ 0 = omega arith in let eb : b ≡ 0 = omega arith in rw (ea, eb) (omega arith)
bit_or_lt (suc k) a b p q =
    let e = pow-suc 2 k in
    let ih = bit_or_lt k (a / 2) (b / 2) (omega (arith, e)) (omega (arith, e)) in
    omega (arith, e, ih, bit_or_step a b)
