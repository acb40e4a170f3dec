-- ===== src/Protocol/VarInt/Decode.antt =====
-- `decode` and `decode_partial` on any input.
use Prim.Native.Nat.{bit_and}
use infrarust.Common.{
  ℕ, zero, suc, ◌+◌, ◌-◌, ◌*◌, ◌/◌, ◌^◌, ◌≤◌, ◌<◌, ◌≡◌, ◌∙◌, refl, ap, List, [], ◌∷◌, ◌++◌, length,
  length-append, Bool-cases, ◌⊎◌, inl, inr, arith, ◌==◌,
}
use infrarust.Common.Bits.{bit_and-low, bit_or_lt, mask_field}
use native.Mathlib.Nat.{mod-le}
use native.Mathlib.Numerals.{towards_suc}
use infrarust.Protocol.Words.{IsByte, IsWord32, shl, leading_zeros_above}
use infrarust.Protocol.Error.{Result, ok, err, incomplete, invalid}
use infrarust.Protocol.VarInt.{
  written_size, put_group, decode_loop, decode, Partial, done, incomplete_status, too_large_status,
  partial_loop, decode_partial,
}

-- The continuation bit, as a test on the byte's size.
pub continuation : (b : ℕ) → IsByte b → bit_and b 0x80 ≡ b / 128 * 128
continuation b h = mask_field 7 1 b 1 refl ∙ omega arith

pub seven_more : (i : ℕ) → 2 ^ ((i + 1) * 7) ≡ 128 * 2 ^ (i * 7)
seven_more i =
    let e : (i + 1) * 7 ≡ i * 7 + 7 = omega arith in rw e (simp towards_suc (omega arith))

pub shl-le : (w x k : ℕ) → shl w x k ≤ x * 2 ^ k
shl-le w x k = mod-le (x * 2 ^ k) (2 ^ w)

-- After `i` groups the value has at most `7 * i` bits, and 32 in any case.
put_group_lt :
    (val b i : ℕ)
    → IsWord32 val
    → val < 2 ^ (i * 7)
    → IsWord32 (put_group val b i) × (put_group val b i < 2 ^ ((i + 1) * 7))
put_group_lt val b i h k =
    let g : bit_and b 0x7f < 128 = rw (bit_and-low 7 b 0x7f refl) (omega arith) in
    let few : bit_and b 0x7f * 2 ^ (i * 7) < 128 * 2 ^ (i * 7) = grind arith in
    (
      bit_or_lt 32 val (shl 32 (bit_and b 0x7f) (i * 7)) h (omega arith),
      bit_or_lt ((i + 1) * 7) val (shl 32 (bit_and b 0x7f) (i * 7)) (omega (arith, seven_more i))
          (omega (arith, seven_more i, few, shl-le 32 (bit_and b 0x7f) (i * 7))),
    )

-- What a successful decoding took from the front of its input.
pub record Took (rounds : ℕ) (r rest : List ℕ) : Type 0 where
  pub front : List ℕ
  pub parts : r ≡ front ++ rest
  pub some_taken : 1 ≤ length front
  pub few_taken : length front ≤ rounds

pub Took-shorter : {n : ℕ} {r rest : List ℕ} → Took n r rest → length rest < length r
Took-shorter {rest = rest} t =
    omega (arith, ap (λ (l : List ℕ). length l) t.parts, length-append t.front rest, t.some_taken)

decode_loop_takes :
    (rounds i val : ℕ) (r : List ℕ) (v : ℕ) (rest : List ℕ)
    → decode_loop rounds i val r ≡ ok (v, rest)
    → Took rounds r rest
unfolding decode_loop
decode_loop_takes zero i val r v rest e = cc
decode_loop_takes (suc rounds) i val [] v rest e = cc
decode_loop_takes (suc rounds) i val (b ∷ r) v rest e = elim (Bool-cases (bit_and b 0x80 == 0)) [
  | inl last ↦ record {
    front = b ∷ [];
    parts = ground (arith, last);
    some_taken = omega arith;
    few_taken = omega arith;
  }
  | inr more ↦
      let t = decode_loop_takes rounds (i + 1) (put_group val b i) r v rest (rw more at e) in
      record {
        front = b ∷ t.front;
        parts = ap (λ (l : List ℕ). b ∷ l) t.parts;
        some_taken = omega arith;
        few_taken = omega (arith, t.few_taken);
      }
]

decode_loop_bounds :
    (rounds i val : ℕ) (r : List ℕ) (v : ℕ) (rest : List ℕ)
    → IsWord32 val
    → val < 2 ^ (i * 7)
    → decode_loop rounds i val r ≡ ok (v, rest)
    → IsWord32 v
      × ((j : ℕ) × (v < 2 ^ (j * 7)) × (length r + i ≡ length rest + j) × (length rest < length r))
unfolding decode_loop
decode_loop_bounds zero i val r v rest h k e = cc
decode_loop_bounds (suc rounds) i val [] v rest h k e = cc
decode_loop_bounds (suc rounds) i val (b ∷ r) v rest h k e =
    let (word, bits) = put_group_lt val b i h k in
    elim (Bool-cases (bit_and b 0x80 == 0)) [
      | inl last ↦ (
        ground (arith, last),
        (i + 1, ground (arith, last), ground (arith, last), ground (arith, last)),
      )
      | inr more ↦
          let (w, (j, p, q, s)) =
            decode_loop_bounds rounds (i + 1) (put_group val b i) r v rest word bits
              (rw more at e) in
          (w, (j, p, omega (arith, q), omega (arith, s)))
    ]

-- A successful decode takes one to five bytes from the front, gives a 32-bit value, and takes no
-- fewer bytes than the value's written size.
pub decode_takes :
    (r : List ℕ) (v : ℕ) (rest : List ℕ)
    → decode r ≡ ok (v, rest)
    → Took 5 r rest × IsWord32 v × (written_size v + length rest ≤ length r)
unfolding decode written_size
decode_takes r v rest e =
    let t = decode_loop_takes 5 0 0 r v rest e in
    let (w, (j, p, q, s)) = decode_loop_bounds 5 0 0 r v rest (omega arith) (omega arith) e in
    (t, w, ground (arith, leading_zeros_above 32 v (j * 7) p))

-- More bytes behind the input join the rest, and do not mend an overlong number.
pub decode_loop-append_ok :
    (rounds i val : ℕ) (r more : List ℕ) (v : ℕ) (rest : List ℕ)
    → decode_loop rounds i val r ≡ ok (v, rest)
    → decode_loop rounds i val (r ++ more) ≡ ok (v, rest ++ more)
unfolding decode_loop
decode_loop-append_ok zero i val r more v rest e = cc
decode_loop-append_ok (suc rounds) i val [] more v rest e = cc
decode_loop-append_ok (suc rounds) i val (b ∷ r) more v rest e =
    ground (arith, decode_loop-append_ok rounds (i + 1) (put_group val b i) r more v rest)

pub decode-append_ok :
    (r more : List ℕ) (v : ℕ) (rest : List ℕ)
    → decode r ≡ ok (v, rest)
    → decode (r ++ more) ≡ ok (v, rest ++ more)
unfolding decode
decode-append_ok r more v rest e = decode_loop-append_ok 5 0 0 r more v rest e

abbrev pub overlong : Result (ℕ × List ℕ)
overlong = err (invalid "VarInt too large (> 5 bytes)")

decode_loop-append_overlong :
    (rounds i val : ℕ) (r more : List ℕ)
    → decode_loop rounds i val r ≡ overlong
    → decode_loop rounds i val (r ++ more) ≡ overlong
unfolding decode_loop
decode_loop-append_overlong zero i val r more e = refl
decode_loop-append_overlong (suc rounds) i val [] more e = cc
decode_loop-append_overlong (suc rounds) i val (b ∷ r) more e =
    ground (arith, decode_loop-append_overlong rounds (i + 1) (put_group val b i) r more)

pub decode-append_overlong : (r more : List ℕ) → decode r ≡ overlong → decode (r ++ more) ≡ overlong
unfolding decode
decode-append_overlong r more e = decode_loop-append_overlong 5 0 0 r more e

-- A decoding gives a value, wants more bytes, or has read five bytes that all go on.
abbrev pub Decoded : Result (ℕ × List ℕ) → Type 0
Decoded res =
    (((p : ℕ × List ℕ) × (res ≡ ok p)) ⊎ (res ≡ err (incomplete "VarInt"))) ⊎ (res ≡ overlong)

decode_loop_cases : (rounds i val : ℕ) (r : List ℕ) → Decoded (decode_loop rounds i val r)
unfolding decode_loop
decode_loop_cases zero i val r = inr refl
decode_loop_cases (suc rounds) i val [] = inl (inr refl)
decode_loop_cases (suc rounds) i val (b ∷ r) = elim (Bool-cases (bit_and b 0x80 == 0)) [
  | inl last ↦ inl (inl ((put_group val b i, r), rw last))
  | inr more ↦ rw more (decode_loop_cases rounds (i + 1) (put_group val b i) r)
]

pub decode_cases : (r : List ℕ) → Decoded (decode r)
unfolding decode
decode_cases r = decode_loop_cases 5 0 0 r

-- What `decode_partial` shows of a decoding of `buf`: the value and the bytes it took.
abbrev pub observe : List ℕ → Result (ℕ × List ℕ) → Partial
observe buf (ok (v, rest)) = done v (length buf - length rest)
observe buf (err (incomplete c)) = incomplete_status
observe buf (err e) = too_large_status

observe_from : ℕ → List ℕ → Result (ℕ × List ℕ) → Partial
observe_from i buf (ok (v, rest)) = done v (i + (length buf - length rest))
observe_from i buf (err (incomplete c)) = incomplete_status
observe_from i buf (err e) = too_large_status

observe_from-cons :
    (i b : ℕ) (buf : List ℕ) (res : Result (ℕ × List ℕ))
    → ((v : ℕ) (rest : List ℕ) → res ≡ ok (v, rest) → length rest < length buf)
    → observe_from (i + 1) buf res ≡ observe_from i (b ∷ buf) res
unfolding observe_from
observe_from-cons i b buf (ok (v, rest)) h = ap (done v) (omega (arith, h v rest refl))
observe_from-cons i b buf (err (incomplete c)) h = refl
observe_from-cons i b buf (err e) h = refl

partial_loop-observe :
    (rounds i val : ℕ) (buf : List ℕ)
    → partial_loop rounds i val buf ≡ observe_from i buf (decode_loop rounds i val buf)
unfolding partial_loop decode_loop observe_from
partial_loop-observe zero i val buf = refl
partial_loop-observe (suc rounds) i val [] = refl
partial_loop-observe (suc rounds) i val (b ∷ buf) = elim (Bool-cases (bit_and b 0x80 == 0)) [
  | inl last ↦ rw (last) (ground arith)
  | inr more ↦
      rw (more, partial_loop-observe rounds (i + 1) (put_group val b i) buf)
        (observe_from-cons i b buf _
          (λ v rest e. Took-shorter (decode_loop_takes _ _ _ _ v rest e)))
]

observe_from-zero :
    (buf : List ℕ) (res : Result (ℕ × List ℕ)) → observe_from 0 buf res ≡ observe buf res
unfolding observe_from
observe_from-zero buf (ok (v, rest)) = ap (done v) (omega arith)
observe_from-zero buf (err (incomplete c)) = refl
observe_from-zero buf (err e) = refl

-- decode_partial reports the value and the number of bytes that decode finds and takes, or which
-- of its two errors it ends with.
pub decode_partial-observe : (buf : List ℕ) → decode_partial buf ≡ observe buf (decode buf)
unfolding decode_partial decode observe_from
decode_partial-observe buf =
    partial_loop-observe 5 0 0 buf ∙ observe_from-zero buf (decode_loop 5 0 0 buf)
