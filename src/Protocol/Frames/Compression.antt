-- ===== src/Protocol/Frames/Compression.antt =====
-- io/compression.rs: the two backends of the zlib traits. The crates `flate2` and `libdeflater` are
-- parameters; what is done around them, and with the size that the protocol announces, is here.
use infrarust.Common.{
  ℕ, zero, suc, ◌≡◌, ◌↔◌, ◌∙◌, refl, sym, ap, true, false, Option, none, some, List, [], ◌∷◌, ◌++◌,
  length, take, drop, take-append, ltb, ==_iff, ◌==◌, if◌then◌else◌, Bool-cases, Option-cases, inl,
  inr, arith, length-drop,
}
use mathlib.Core.List.{append-nil}
use infrarust.Protocol.Error.{Result, ok, err, invalid}
use infrarust.Protocol.Frames.{Zlib, ZlibLaws}

-- `flate2`: what `ZlibEncoder` of a level writes for an input, and the bytes that reading
-- `ZlibDecoder` gives before its end or an error.
pub record Flate2 : Type 0 where
  pub zlib_encode : ℕ → List ℕ → Result (List ℕ)
  pub zlib_decode : List ℕ → List ℕ

-- `libdeflater`: the bytes that are written to the front of an output of the given size.
pub record Libdeflater : Type 0 where
  pub zlib_compress_bound : ℕ → ℕ
  pub zlib_compress : ℕ → List ℕ → ℕ → Option (List ℕ)
  pub zlib_decompress : List ℕ → ℕ → Option (List ℕ)

-- The feature `libdeflater` chooses the backend.
pub data Backend : Type 0 where
  flate2 : Flate2 → Backend
  libdeflater : Libdeflater → Backend

-- `output.resize(size, 0)` of an empty buffer.
unfoldable pub zeros : ℕ → List ℕ
zeros zero = []
zeros (suc size) = 0 ∷ zeros size

-- The output after its front was written.
abbrev pub overwrite : List ℕ → List ℕ → List ℕ
overwrite output written = written ++ drop (length written) output

abbrev pub flate2_compress : Flate2 → ℕ → List ℕ → Result (List ℕ)
flate2_compress crate level input = crate.zlib_encode level input

unfoldable pub flate2_decompress : Flate2 → List ℕ → ℕ → Result (List ℕ)
flate2_decompress crate input expected_size =
    let decoded = crate.zlib_decode input in
    let extra = take 1 (drop expected_size decoded) in
    if ltb (length decoded) expected_size
    then err (invalid "failed to decompress packet data")
    else if ltb 0 (length extra)
    then err (invalid "decompressed data larger than expected size")
    else ok (overwrite (zeros expected_size) (take expected_size decoded))

unfoldable pub libdeflater_compress : Libdeflater → ℕ → List ℕ → Result (List ℕ)
libdeflater_compress crate level input =
    let max_size = crate.zlib_compress_bound (length input) in
    elim (crate.zlib_compress level input max_size) [
      | none ↦ err (invalid "libdeflate compress error")
      | some written ↦ ok (take (length written) (overwrite (zeros max_size) written))
    ]

unfoldable pub libdeflater_decompress : Libdeflater → List ℕ → ℕ → Result (List ℕ)
libdeflater_decompress crate input expected_size =
    elim (crate.zlib_decompress input expected_size) [
      | none ↦ err (invalid "libdeflate decompress error")
      | some written ↦
          if length written == expected_size
          then ok (overwrite (zeros expected_size) written)
          else err (invalid "decompressed size mismatch")
    ]

-- `new_compressor` of a level, and `new_decompressor`.
abbrev pub new_zlib : ℕ → Backend → Zlib
new_zlib level (flate2 crate) = record {
  compress = flate2_compress crate level;
  decompress = flate2_decompress crate;
}
new_zlib level (libdeflater crate) = record {
  compress = libdeflater_compress crate level;
  decompress = libdeflater_decompress crate;
}

-- All that the crate decompresses an input to.
abbrev pub inflated : Backend → List ℕ → ℕ → Option (List ℕ)
inflated (flate2 crate) input size = some (crate.zlib_decode input)
inflated (libdeflater crate) input size = crate.zlib_decompress input size

-- What the crates document of their own output.
abbrev pub BackendLaws : Backend → Type 0
BackendLaws (flate2 crate) =
    (level : ℕ) (input output : List ℕ)
    → crate.zlib_encode level input ≡ ok output
    → crate.zlib_decode output ≡ input
BackendLaws (libdeflater crate) =
    (level size : ℕ) (input output : List ℕ)
    → crate.zlib_compress level input size ≡ some output
    → crate.zlib_decompress output (length input) ≡ some input

pub length-zeros : (size : ℕ) → length (zeros size) ≡ size
unfolding zeros
length-zeros zero = refl
length-zeros (suc size) = ap suc (length-zeros size)

drop_all : (xs : List ℕ) (n : ℕ) → length xs ≡ n → drop n xs ≡ []
drop_all [] zero h = refl
drop_all (x ∷ xs) zero h = absurd (omega (arith, h))
drop_all [] (suc n) h = refl
drop_all (x ∷ xs) (suc n) h = drop_all xs n (omega (arith, h))

take_all : (xs : List ℕ) → take (length xs) xs ≡ xs
take_all [] = refl
take_all (x ∷ xs) = ap (λ l. x ∷ l) (take_all xs)

overwrite_all : (written : List ℕ) → overwrite (zeros (length written)) written ≡ written
overwrite_all written =
    rw (drop_all (zeros (length written)) (length written) (length-zeros (length written)))
      (append-nil written)

nothing_extra : (xs : List ℕ) → ltb 0 (length (take 1 xs)) ≡ false → length xs ≡ 0
nothing_extra [] h = refl
nothing_extra (x ∷ xs) h = absurd (ground (arith, h))

flate2_whole :
    (crate : Flate2) (input : List ℕ)
    → flate2_decompress crate input (length (crate.zlib_decode input))
      ≡ ok (crate.zlib_decode input)
unfolding flate2_decompress
flate2_whole crate input =
    let decoded = crate.zlib_decode input in
    let enough : ltb (length decoded) (length decoded) ≡ false = ground arith in
    rw (enough, drop_all decoded (length decoded) refl, take_all decoded, overwrite_all decoded)
      refl

flate2_size :
    (crate : Flate2) (input output : List ℕ) (size : ℕ)
    → flate2_decompress crate input size ≡ ok output
    → length (crate.zlib_decode input) ≡ size
unfolding flate2_decompress
flate2_size crate input output size q =
    let decoded = crate.zlib_decode input in
    elim (Bool-cases (ltb (length decoded) size)) [
      | inl short ↦ absurd (ground (arith, short, q))
      | inr enough ↦ elim (Bool-cases (ltb 0 (length (take 1 (drop size decoded))))) [
        | inl extra ↦ absurd (ground (arith, enough, extra, q))
        | inr whole ↦
            let left = nothing_extra (drop size decoded) whole in
            ground (arith, enough, left, length-drop size decoded)
      ]
    ]

libdeflater_whole :
    (crate : Libdeflater) (input written : List ℕ) (size : ℕ)
    → crate.zlib_decompress input size ≡ some written
    → length written ≡ size
    → libdeflater_decompress crate input size ≡ ok written
unfolding libdeflater_decompress
libdeflater_whole crate input written size q h =
    let same : (length written == size) ≡ true = (==_iff (length written) size).1 h in
    rw (libdeflater_decompress, q, same) (rw (← h, overwrite_all written) refl)

libdeflater_size :
    (crate : Libdeflater) (input output : List ℕ) (size : ℕ)
    → libdeflater_decompress crate input size ≡ ok output
    → (written : List ℕ) × (crate.zlib_decompress input size ≡ some written)
      × (length written ≡ size)
unfolding libdeflater_decompress
libdeflater_size crate input output size q =
    elim (Option-cases (crate.zlib_decompress input size)) [
      | inl failed ↦ absurd (ground (arith, failed, q))
      | inr (written, e) ↦ (written, e, ground (arith, e, q))
    ]

abbrev or_else : List ℕ → Option (List ℕ) → List ℕ
or_else default (some bytes) = bytes
or_else default none = default

abbrev bytes_of : List ℕ → Result (List ℕ) → List ℕ
bytes_of default (ok bytes) = bytes
bytes_of default (err e) = default

libdeflater_written :
    (crate : Libdeflater) (level : ℕ) (input output : List ℕ)
    → libdeflater_compress crate level input ≡ ok output
    → crate.zlib_compress level input (crate.zlib_compress_bound (length input)) ≡ some output
unfolding libdeflater_compress
libdeflater_written crate level input output q =
    let max_size = crate.zlib_compress_bound (length input) in
    elim (Option-cases (crate.zlib_compress level input max_size)) [
      | inl failed ↦ absurd (ground (arith, failed, q))
      | inr (written, e) ↦
          let kept = take-append written (drop (length written) (zeros max_size)) in
          let same : written ≡ output =
            ap (bytes_of []) (rw (libdeflater_compress, e, kept) at q) in
          e ∙ ap some same
    ]

-- With either backend, decompress succeeds with an output if and only if that output is all that
-- the crate decompresses the input to, and has the expected size; every other result, shorter or
-- longer, is an error.
pub decompress-exact :
    (level : ℕ) (backend : Backend) (input output : List ℕ) (size : ℕ)
    → ((new_zlib level backend).decompress input size ≡ ok output)
      ↔ ((inflated backend input size ≡ some output) × (length output ≡ size))
decompress-exact level (flate2 crate) input output size = (
  λ q.
      let size_of = flate2_size crate input output size q in
      let same : crate.zlib_decode input ≡ output =
        ap (bytes_of []) (sym (rw size_of at (flate2_whole crate input)) ∙ q) in
      (ap some same, rw same at size_of),
  λ (e, h).
      let same : crate.zlib_decode input ≡ output = ap (λ o. or_else [] o) e in
      rw (← h, ← same) (flate2_whole crate input),
)
decompress-exact level (libdeflater crate) input output size = (
  λ q.
      let (written, e, h) = libdeflater_size crate input output size q in
      let same : written ≡ output =
        ap (bytes_of []) (sym (libdeflater_whole crate input written size e h) ∙ q) in
      (e ∙ ap some same, rw same at h),
  λ (e, h). libdeflater_whole crate input output size e h,
)

-- x
pub new_zlib-ZlibLaws :
    (level : ℕ) (backend : Backend) → BackendLaws backend → ZlibLaws (new_zlib level backend)
new_zlib-ZlibLaws level (flate2 crate) laws = record {
  inverts = λ input output q.
      (decompress-exact level (flate2 crate) output input (length input)).1
        (ap some (laws level input output q), refl);
}
new_zlib-ZlibLaws level (libdeflater crate) laws = record {
  inverts = λ input output q.
      (decompress-exact level (libdeflater crate) output input (length input)).1
        (laws level _ input output (libdeflater_written crate level input output q), refl);
}
