-- ===== src/Protocol/Frames/Limits.antt =====
-- The size limits of io/encoder.rs and io/decoder.rs.
use infrarust.Common.{
  ℕ, ◌+◌, ◌-◌, ◌^◌, ◌≤◌, ◌<◌, ◌≡◌, inl, inr, ◌∙◌, ap, true, false, Option, none, some, List, [],
  ◌++◌, length, take, drop, length-append, length-drop, length-take_le, arith, ltb,
}
use mathlib.Core.List.{append-nil}
use infrarust.Protocol.Words.{IsWord32, sign_extend_32}
use infrarust.Protocol.Error.{ok, err, too_large, Result-cases}
use infrarust.Protocol.VarInt
use infrarust.Protocol.VarInt.{Partial, done, incomplete_status, too_large_status}
use infrarust.Protocol.VarInt.Encode.{written_size-length, written_size_pos}
use infrarust.Protocol.VarInt.Decode.{decode_takes, decode_cases, Took-shorter}
use infrarust.Protocol.VarInt.RoundTrip.{decode-encode}
use infrarust.Protocol.Frames.{
  max_packet_size, max_packet_data_size, Zlib, PacketFrame, PacketDecoder, PacketEncoder,
  advance_to, i32_at_least, as_i32, raw_frame, copied_frame, compressed_frame, inflate_frame,
  frame_of, frame_at, frame_after, try_next_frame, append_sized, append_compressed, append_with,
  append_raw,
}
use infrarust.Protocol.Frames.Compression.{Backend, new_zlib, decompress-exact}
use infrarust.Protocol.Frames.Lemmas.{try_next_frame-packet}

-- A payload is shorter than the slice that it was read from.
raw_frame_size :
    (slice : List ℕ) (f : PacketFrame)
    → raw_frame slice ≡ ok (some f)
    → IsWord32 f.id × (length f.payload < length slice)
unfolding raw_frame
raw_frame_size slice f q = elim (decode_cases slice) [
  | inl (inl ((v, rest), e)) ↦
      let (t, w, s) = decode_takes slice v rest e in
      let shorter = Took-shorter t in
      ground (arith, e, w, shorter, length-drop (length slice - length rest) slice)
  | inl (inr e) ↦ cc
  | inr e ↦ cc
]

copied_frame_size :
    (raw : List ℕ) (f : PacketFrame)
    → copied_frame raw ≡ ok (some f)
    → IsWord32 f.id × (length f.payload < length raw)
unfolding copied_frame
copied_frame_size raw f q = elim (decode_cases raw) [
  | inl (inl ((v, rest), e)) ↦
      let (t, w, s) = decode_takes raw v rest e in
      let shorter = Took-shorter t in ground (arith, e, w, shorter)
  | inl (inr e) ↦ cc
  | inr e ↦ cc
]

-- A successful decompression has the size that was asked for.
abbrev Sized : Zlib → Type 0
Sized z =
    (input output : List ℕ) (size : ℕ) → z.decompress input size ≡ ok output → length output ≡ size

module _ (z : Zlib) where
  inflate_frame_size :
      (slice : List ℕ) (n : ℕ) (f : PacketFrame)
      → Sized z
      → inflate_frame z slice n ≡ ok (some f)
      → IsWord32 f.id × (length f.payload < n)
  unfolding inflate_frame
  inflate_frame_size slice n f sized q = elim (Result-cases (z.decompress slice n)) [
    | inl (raw, e) ↦ rw (sized slice raw n e) at (copied_frame_size raw f (rw e at q))
    | inr (x, e) ↦ cc
  ]

  frame_of_size :
      (threshold : Option ℕ) (slice : List ℕ) (f : PacketFrame)
      → Sized z
      → length slice ≤ max_packet_size
      → frame_of z threshold slice ≡ ok (some f)
      → IsWord32 f.id × (length f.payload < max_packet_data_size)
  unfolding frame_of compressed_frame
  frame_of_size none slice f sized h q = let (w, s) = raw_frame_size slice f q in (w, omega arith)
  frame_of_size (some t) slice f sized h q = elim (decode_cases slice) [
    | inl (inl ((v, rest), e)) ↦
        let contents = advance_to slice rest in
        ground (
          arith,
          e,
          length-drop (length slice - length rest) slice,
          raw_frame_size contents f,
          inflate_frame_size contents (sign_extend_32 v) f sized,
        )
    | inl (inr e) ↦ cc
    | inr e ↦ cc
  ]

  frame_at_size :
      (d : PacketDecoder) (len size : ℕ) (f : PacketFrame)
      → Sized z
      → (frame_at z d len size).0 ≡ ok (some f)
      → IsWord32 f.id × (length f.payload < max_packet_data_size)
  unfolding frame_at
  frame_at_size d len size f sized q = ground (
    arith,
    length-drop size d.buf,
    length-take_le len (drop size d.buf),
    frame_of_size d.compression_threshold (take len (drop size d.buf)) f sized,
  )

  frame_after_size :
      (d : PacketDecoder) (p : Partial) (f : PacketFrame)
      → Sized z
      → (frame_after z d p).0 ≡ ok (some f)
      → IsWord32 f.id × (length f.payload < max_packet_data_size)
  unfolding frame_after
  frame_after_size d (done len size) f sized q = frame_at_size d len size f sized q
  frame_after_size d incomplete_status f sized q = cc
  frame_after_size d too_large_status f sized q = cc

  try_next_frame-Sized :
      (d : PacketDecoder) (f : PacketFrame)
      → Sized z
      → (try_next_frame z d).0 ≡ ok (some f)
      → IsWord32 f.id × (length f.payload < max_packet_data_size)
  unfolding try_next_frame
  try_next_frame-Sized d f sized q = frame_after_size d (VarInt.decode_partial d.buf) f sized q

  frame_of-oversize :
      (t size : ℕ) (packed : List ℕ)
      → max_packet_data_size < size
      → size < 2 ^ 31
      → frame_of z (some t) (VarInt.encode size ++ packed)
        ≡ err (too_large max_packet_data_size size)
  unfolding frame_of compressed_frame
  frame_of-oversize t size packed h k = rw (decode-encode size packed (omega arith)) (ground arith)

  -- A packet above the limit on decompressed data, below 2^31 bytes and at least the threshold,
  -- that compresses to within the packet limit is accepted by the encoder, and the decoder
  -- refuses what was written, with the size as the reason.
  pub append_raw-oversize :
      (t id : ℕ) (payload packed : List ℕ)
      → max_packet_data_size < VarInt.written_size id + length payload
      → VarInt.written_size id + length payload < 2 ^ 31
      → i32_at_least (VarInt.written_size id + length payload) t ≡ true
      → z.compress (VarInt.encode id ++ payload) ≡ ok packed
      → VarInt.written_size (VarInt.written_size id + length payload) + length packed
        ≤ max_packet_size
      → (e' : PacketEncoder) × (append_raw z
            (record { buf = []; compression_threshold = some t })
            id
            payload
          ≡ (ok tt, e'))
        × ((try_next_frame z (record { buf = e'.buf; compression_threshold = some t })).0
            ≡ err (too_large max_packet_data_size (VarInt.written_size id + length payload)))
  unfolding append_raw append_with append_compressed append_sized
  append_raw-oversize t id payload packed h k over c fits =
      let size = VarInt.written_size id + length payload in
      let packet = VarInt.encode size ++ packed in
      let wide : as_i32 size ≡ size = omega arith in
      let len : VarInt.written_size size + length packed ≡ length packet = omega (
        arith,
        written_size-length size (omega arith),
        length-append (VarInt.encode size) packed,
      ) in
      let same : as_i32 (length packet) ≡ length packet = omega (arith, len) in
      let within : ltb max_packet_size (length packet) ≡ false = ground (arith, len) in
      (
        record { buf = VarInt.encode (length packet) ++ packet; compression_threshold = some t },
        rw (over, c, wide, len, within, same),
        rw (append-nil packet) at (
            ap (λ x. x.0)
              (try_next_frame-packet z (some t) packet []
                (omega (arith, len, written_size_pos size)) (omega (arith, len)))
            ∙ frame_of-oversize t size packed h k),
      )

-- Whatever bytes arrived and whatever the crate of either backend makes of them, a frame that
-- try_next_frame gives has an id of 32 bits and a payload below the limit on decompressed data.
pub try_next_frame_size :
    (level : ℕ) (backend : Backend) (d : PacketDecoder) (f : PacketFrame)
    → (try_next_frame (new_zlib level backend) d).0 ≡ ok (some f)
    → IsWord32 f.id × (length f.payload < max_packet_data_size)
try_next_frame_size level backend d f q =
    try_next_frame-Sized (new_zlib level backend) d f
      (λ input output size e. ((decompress-exact level backend input output size).0 e).1) q
