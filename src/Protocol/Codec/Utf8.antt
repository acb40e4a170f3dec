-- ===== src/Protocol/Codec/Utf8.antt =====
-- `String::from_utf8` and `chars().count()` of the standard library, on the bytes of a string.
use infrarust.Common.{
  ℕ, zero, suc, ◌+◌, ◌*◌, ◌≤◌, ◌<◌, ◌≡◌, Bool, true, false, Option, none, some, List, [], ◌∷◌,
  length, Bool-cases, Option-cases, inl, inr, leb, ltb, if◌then◌else◌, arith,
}

-- The bytes that must follow a first byte: how many, and the range of the next one.
pub record Expected : Type 0 where
  pub count : ℕ
  pub low : ℕ
  pub high : ℕ

abbrev expect : ℕ → ℕ → ℕ → Option Expected
expect n low high = some (record { count = n; low = low; high = high })

abbrev pub between : ℕ → ℕ → ℕ → Bool
between low high b = if leb low b then leb b high else false

-- The table of well-formed byte sequences by their first byte.
unfoldable pub after_first : ℕ → Option Expected
after_first b =
    if ltb b 0x80
    then expect 0 0 0
    else if between 0xc2 0xdf b
    then expect 1 0x80 0xbf
    else if between 0xe0 0xe0 b
    then expect 2 0xa0 0xbf
    else if between 0xe1 0xec b
    then expect 2 0x80 0xbf
    else if between 0xed 0xed b
    then expect 2 0x80 0x9f
    else if between 0xee 0xef b
    then expect 2 0x80 0xbf
    else if between 0xf0 0xf0 b
    then expect 3 0x90 0xbf
    else if between 0xf1 0xf3 b
    then expect 3 0x80 0xbf
    else if between 0xf4 0xf4 b
    then expect 3 0x80 0x8f
    else none

unfoldable pub validate : ℕ → ℕ → ℕ → List ℕ → Bool
validate zero low high [] = true
validate (suc n) low high [] = false
validate zero low high (b ∷ bytes) = elim (after_first b) [
  | none ↦ false
  | some e ↦ validate e.count e.low e.high bytes
]
validate (suc n) low high (b ∷ bytes) =
    let rest = validate n 0x80 0xbf bytes in if between low high b then rest else false

abbrev pub is_utf8 : List ℕ → Bool
is_utf8 s = validate 0 0 0 s

-- `chars().count()` counts the bytes that are no continuation bytes.
unfoldable pub char_count : List ℕ → ℕ
char_count [] = 0
char_count (b ∷ bytes) =
    let rest = char_count bytes in if between 0x80 0xbf b then rest else suc rest

-- At most three bytes follow a first byte, all of them continuation bytes, and it is none itself.
abbrev Starts : ℕ → Option Expected → Type 0
Starts b none = Unit
Starts b (some e) =
    (e.count ≤ 3)
    × (((0 < e.count) → (0x80 ≤ e.low) × (e.high ≤ 0xbf)) × (between 0x80 0xbf b ≡ false))

abbrev InRange : ℕ → ℕ → ℕ → ℕ → Type 0
InRange first n low high = (0xc0 ≤ first) × ((n ≤ 3) × ((0x80 ≤ low) × (high ≤ 0xbf)))

if-Starts :
    (b first last n low high : ℕ) (y : Option Expected)
    → InRange first n low high
    → Starts b y
    → Starts b (if between first last b then expect n low high else y)
if-Starts b first last n low high y (above, (few, (lo, hi))) q =
    elim (Bool-cases (between first last b)) [
      | inl h ↦ rw h (few, ((λ p. (lo, hi)), ground arith))
      | inr h ↦ rw h q
    ]

ascii-Starts :
    (b : ℕ) (y : Option Expected) → Starts b y → Starts b (if ltb b 0x80 then expect 0 0 0 else y)
ascii-Starts b y q = elim (Bool-cases (ltb b 0x80)) [
  | inl h ↦ rw h (omega arith, ((λ p. absurd (omega arith)), ground arith))
  | inr h ↦ rw h q
]

after_first-Starts : (b : ℕ) → Starts b (after_first b)
unfolding after_first
after_first-Starts b = ascii-Starts b _ (
    if-Starts b 0xc2 0xdf 1 0x80 0xbf _ (omega arith, (omega arith, (omega arith, omega arith)))
      (if-Starts b 0xe0 0xe0 2 0xa0 0xbf _ (omega arith, (omega arith, (omega arith, omega arith)))
        (if-Starts b 0xe1 0xec 2 0x80 0xbf _
          (omega arith, (omega arith, (omega arith, omega arith)))
          (if-Starts b 0xed 0xed 2 0x80 0x9f _
            (omega arith, (omega arith, (omega arith, omega arith)))
            (if-Starts b 0xee 0xef 2 0x80 0xbf _
              (omega arith, (omega arith, (omega arith, omega arith)))
              (if-Starts b 0xf0 0xf0 3 0x90 0xbf _
                (omega arith, (omega arith, (omega arith, omega arith)))
                (if-Starts b 0xf1 0xf3 3 0x80 0xbf _
                  (omega arith, (omega arith, (omega arith, omega arith)))
                  (if-Starts b 0xf4 0xf4 3 0x80 0x8f _
                    (omega arith, (omega arith, (omega arith, omega arith))) (tt)))))))))

-- A character is at most four bytes.
validate-length :
    (n low high : ℕ) (s : List ℕ)
    → ((0 < n) → (0x80 ≤ low) × (high ≤ 0xbf))
    → validate n low high s ≡ true
    → length s ≤ char_count s * 4 + n
unfolding validate char_count
validate-length zero low high [] h v = omega arith
validate-length (suc n) low high [] h v = omega arith
validate-length zero low high (b ∷ s) h v = elim (Option-cases (after_first b)) [
  | inl none_eq ↦ absurd (ground (arith, rw (validate, none_eq) at v))
  | inr (e, some_eq) ↦
      let (few, (range, first)) = rw some_eq at (after_first-Starts b) in
      let ih = validate-length e.count e.low e.high s range (rw (validate, some_eq) at v) in
      rw first (omega (arith, ih, few))
]
validate-length (suc n) low high (b ∷ s) h v =
    let (lo, hi) = h (omega arith) in
    elim (Bool-cases (between 0x80 0xbf b)) [
      | inl inside ↦
          let ih = validate-length n 0x80 0xbf s (λ p. (omega arith, omega arith)) in
          rw inside (ground (arith, ih, lo, hi))
      | inr outside ↦ absurd (ground (arith, lo, hi))
    ]

-- The bytes of a string are at most four for a character.
pub is_utf8-length : (s : List ℕ) → is_utf8 s ≡ true → length s ≤ char_count s * 4
is_utf8-length s v = omega (arith, validate-length 0 0 0 s (λ p. absurd (omega arith)) v)
