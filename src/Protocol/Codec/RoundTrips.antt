-- ===== src/Protocol/Codec/RoundTrips.antt =====
-- What it means that a reader takes back what a writer wrote, and how round trips are put together.
use infrarust.Common.{
  ℕ, ◌≡◌, refl, Bool, true, false, List, [], ◌∷◌, ◌++◌, length, All, if◌then◌else◌,
}
use mathlib.Core.List.{append_assoc, append-nil}
use infrarust.Protocol.Error.{ok}
use infrarust.Protocol.Codec.{
  Reader, Writer, ◌>>=◌, return, ◌>>◌, nothing_written, read_remaining, write_all, read_many,
  write_many,
}

-- The writer succeeds, and the reader takes its bytes from the front of any input.
abbrev pub RoundTrips : {A : Type 0} → Writer → Reader A → A → Type 0
RoundTrips w read a =
    (bytes : List ℕ) × (w ≡ ok bytes) × ((rest : List ℕ) → read (bytes ++ rest) ≡ ok (a, rest))

-- The same for a reader that may want the end of the input behind them.
abbrev pub Ends : {A : Type 0} → Writer → Reader A → A → Type 0
Ends w read a = (bytes : List ℕ) × (w ≡ ok bytes) × (read bytes ≡ ok (a, []))

pub remaining-Ends : (bytes : List ℕ) → Ends (write_all bytes) read_remaining bytes
remaining-Ends bytes = (bytes, refl, refl)

module _ {A : Type 0} where
  pub nothing-RoundTrips : (a : A) → RoundTrips nothing_written (return a) a
  nothing-RoundTrips a = ([], refl, λ rest. refl)

  pub RoundTrips-Ends : (w : Writer) (read : Reader A) (a : A) → RoundTrips w read a → Ends w read a
  RoundTrips-Ends w read a (bytes, e, back) = (bytes, e, rw (append-nil bytes) at (back []))

module _ {A B : Type 0} where
  pub then-RoundTrips :
      (w v : Writer) (read : Reader A) (k : A → Reader B) (a : A) (b : B)
      → RoundTrips w read a
      → RoundTrips v (k a) b
      → RoundTrips (w >> v) (read >>= k) b
  then-RoundTrips w v read k a b (bytes, e, back) (more, f, on) = (
    bytes ++ more,
    rw (e, f) refl,
    λ rest. rw (append_assoc bytes more rest, ◌>>=◌, back (more ++ rest)) (on rest),
  )

  pub then-Ends :
      (w v : Writer) (read : Reader A) (k : A → Reader B) (a : A) (b : B)
      → RoundTrips w read a
      → Ends v (k a) b
      → Ends (w >> v) (read >>= k) b
  then-Ends w v read k a b (bytes, e, back) (more, f, on) =
      (bytes ++ more, rw (e, f) refl, rw (◌>>=◌, back more) on)

  -- The last value is read, and the rest of the reader takes nothing more.
  pub bind-RoundTrips :
      (w : Writer) (read : Reader A) (k : A → Reader B) (a : A) (b : B)
      → RoundTrips w read a
      → ((rest : List ℕ) → k a rest ≡ ok (b, rest))
      → RoundTrips w (read >>= k) b
  bind-RoundTrips w read k a b (bytes, e, back) h =
      (bytes, e, λ rest. rw (◌>>=◌, back rest) (h rest))

  -- The last value is read and put into the result.
  pub last-RoundTrips :
      (w : Writer) (read : Reader A) (f : A → B) (a : A)
      → RoundTrips w read a
      → RoundTrips w (read >>= λ x. return (f x)) (f a)
  last-RoundTrips w read f a (bytes, e, back) = (bytes, e, λ rest. rw (◌>>=◌, back rest) refl)

  pub last-Ends :
      (w : Writer) (read : Reader A) (f : A → B) (a : A)
      → Ends w read a
      → Ends w (read >>= λ x. return (f x)) (f a)
  last-Ends w read f a (bytes, e, back) = (bytes, e, rw (◌>>=◌, back) refl)

module _ {A : Type 0} where
  pub write_many-RoundTrips {κ} :
      (write : A → Writer) (read : Reader A) (P : A → Type κ)
      → ((a : A) → P a → RoundTrips (write a) read a)
      → (l : List A) → All P l
      → RoundTrips (write_many write l) (read_many read (length l)) l
  unfolding read_many write_many
  write_many-RoundTrips write read P h [] p = nothing-RoundTrips []
  write_many-RoundTrips write read P h (a ∷ l) (pa, pl) =
      then-RoundTrips (write a) (write_many write l) read _ a (a ∷ l) (h a pa) (
        last-RoundTrips (write_many write l) (read_many read (length l)) (λ x. a ∷ x) l
          (write_many-RoundTrips write read P h l pl))

  -- The writer and the reader branch on the same test.
  pub if-RoundTrips :
      (c : Bool) (w v : Writer) (read other : Reader A) (a b : A)
      → (c ≡ true → RoundTrips w read a)
      → (c ≡ false → RoundTrips v other b)
      → RoundTrips (if c then w else v) (if c then read else other) (if c then a else b)
  if-RoundTrips true w v read other a b p q = p refl
  if-RoundTrips false w v read other a b p q = q refl

  pub same-RoundTrips :
      (c : Bool) (w v : Writer) (read other : Reader A) (a : A)
      → (c ≡ true → RoundTrips w read a)
      → (c ≡ false → RoundTrips v other a)
      → RoundTrips (if c then w else v) (if c then read else other) a
  same-RoundTrips true w v read other a p q = p refl
  same-RoundTrips false w v read other a p q = q refl

  pub same-Ends :
      (c : Bool) (w v : Writer) (read other : Reader A) (a : A)
      → (c ≡ true → Ends w read a)
      → (c ≡ false → Ends v other a)
      → Ends (if c then w else v) (if c then read else other) a
  same-Ends true w v read other a p q = p refl
  same-Ends false w v read other a p q = q refl
