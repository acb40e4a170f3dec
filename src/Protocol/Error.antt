-- ===== src/Protocol/Error.antt =====
-- error.rs: the one error type of the protocol crate.
use Prim.Native.String.{String}
use infrarust.Common.{ℕ, Bool, true, false, ◌≡◌, refl, ◌⊎◌, inl, inr}

-- `std::io::ErrorKind`, as far as `is_fatal` tells the kinds apart.
pub data IoErrorKind : Type 0 where
  would_block unexpected_eof other_kind : IoErrorKind

pub data ProtocolError : Type 0 where
  incomplete : String → ProtocolError
  invalid : String → ProtocolError
  too_large : ℕ → ℕ → ProtocolError
  io : IoErrorKind → ProtocolError

abbrev pub is_incomplete : ProtocolError → Bool
is_incomplete (incomplete c) = true
is_incomplete (invalid c) = false
is_incomplete (too_large max actual) = false
is_incomplete (io kind) = false

abbrev pub is_fatal : ProtocolError → Bool
is_fatal (incomplete c) = false
is_fatal (invalid c) = true
is_fatal (too_large max actual) = true
is_fatal (io would_block) = false
is_fatal (io unexpected_eof) = false
is_fatal (io other_kind) = true

-- `ProtocolResult<T>`.
pub data Result {ℓ} (A : Type ℓ) : Type ℓ where
  ok : A → Result A
  err : ProtocolError → Result A

infixl 5 ◌>>=◌
abbrev pub ◌>>=◌ {ℓ κ} : {A : Type ℓ} {B : Type κ} → Result A → (A → Result B) → Result B
ok a >>= f = f a
err e >>= f = err e

pub Result-cases {ℓ} :
    {A : Type ℓ} (r : Result A) → ((a : A) × (r ≡ ok a)) ⊎ ((e : ProtocolError) × (r ≡ err e))
Result-cases (ok a) = inl (a, refl)
Result-cases (err e) = inr (e, refl)
