-- ===== src/Protocol/Frames/Lemmas.antt =====
-- Facts about the parts of the two coders.
use infrarust.Common.{
  ℕ, ◌+◌, ◌-◌, ◌≤◌, ◌<◌, ◌≡◌, ◌≢◌, inl, inr, ◌∙◌, ap, Option, none, some, List, ◌++◌, length, take,
  drop, length-append, take-append, drop-append, arith,
}
use infrarust.Protocol.Words.{IsWord32, sign_extend_32}
use infrarust.Protocol.Error.{ok, Result-cases}
use infrarust.Protocol.VarInt
use infrarust.Protocol.VarInt.{Partial, done, incomplete_status, too_large_status}
use infrarust.Protocol.VarInt.Decode.{decode_partial-observe, decode_cases}
use infrarust.Protocol.VarInt.RoundTrip.{decode-encode}
use infrarust.Protocol.Frames.{
  max_packet_size, Zlib, PacketDecoder, advance_to, raw_frame, copied_frame, compressed_frame,
  inflate_frame, frame_of, frame_at, frame_after, try_next_frame,
}

-- Advancing past the front of a slice leaves what the cursor holds.
pub advance_to-append : (front rest : List ℕ) → advance_to (front ++ rest) rest ≡ rest
advance_to-append front rest =
    let e : length (front ++ rest) - length rest ≡ length front =
      omega (arith, length-append front rest) in
    rw e (drop-append front rest)

-- A frame is read from a packet id and whatever follows it.
pub raw_frame-encode :
    (id : ℕ) (payload : List ℕ)
    → IsWord32 id
    → raw_frame (VarInt.encode id ++ payload) ≡ ok (some (record { id = id; payload = payload }))
unfolding raw_frame
raw_frame-encode id payload h =
    rw (decode-encode id payload h, advance_to-append (VarInt.encode id) payload)

-- A length prefix is read without being taken.
decode_partial-encode :
    (v : ℕ) (rest : List ℕ)
    → IsWord32 v
    → VarInt.decode_partial (VarInt.encode v ++ rest) ≡ done v (length (VarInt.encode v))
decode_partial-encode v rest h =
    decode_partial-observe (VarInt.encode v ++ rest)
    ∙ rw (decode-encode v rest h)
        (ap (done v) (omega (arith, length-append (VarInt.encode v) rest)))

module _ (z : Zlib) where
  -- The three checks of `frame_at` pass for a packet that is there in full.
  frame_at-whole :
      (d : PacketDecoder) (len size : ℕ)
      → 0 < len
      → len ≤ max_packet_size
      → size + len ≤ length d.buf
      → frame_at z d len size ≡ (
        frame_of z d.compression_threshold (take len (drop size d.buf)),
        record d { buf = drop len (drop size d.buf) },
      )
  unfolding frame_at
  frame_at-whole d len size h k l = ground arith

  -- A whole packet at the front of the buffer is split off and read.
  pub try_next_frame-packet :
      (threshold : Option ℕ) (packet rest : List ℕ)
      → 0 < length packet
      → length packet ≤ max_packet_size
      → try_next_frame z (record {
        buf = VarInt.encode (length packet) ++ (packet ++ rest);
        compression_threshold = threshold;
      })
        ≡ (frame_of z threshold packet, record { buf = rest; compression_threshold = threshold })
  unfolding try_next_frame frame_after
  try_next_frame-packet threshold packet rest h k =
      let len = VarInt.encode (length packet) in
      rw (
        decode_partial-encode (length packet) (packet ++ rest) (omega arith),
        frame_after,
        frame_at-whole (record { buf = len ++ (packet ++ rest); compression_threshold = threshold })
            (length packet) (length len) h k
            (omega (arith, length-append len (packet ++ rest), length-append packet rest)),
        drop-append len (packet ++ rest),
        take-append packet rest,
        drop-append packet rest,
      )

-- Reading a frame either fails or gives one: it never asks for more bytes.
pub raw_frame-ne-none : (slice : List ℕ) → raw_frame slice ≢ ok none
unfolding raw_frame
raw_frame-ne-none slice = elim (decode_cases slice) [
  | inl (inl (p, e)) ↦ rw e (λ q. cc)
  | inl (inr e) ↦ rw e (λ q. cc)
  | inr e ↦ rw e (λ q. cc)
]

copied_frame-ne-none : (raw : List ℕ) → copied_frame raw ≢ ok none
unfolding copied_frame
copied_frame-ne-none raw = elim (decode_cases raw) [
  | inl (inl (p, e)) ↦ rw e (λ q. cc)
  | inl (inr e) ↦ rw e (λ q. cc)
  | inr e ↦ rw e (λ q. cc)
]

module _ (z : Zlib) where
  inflate_frame-ne-none : (slice : List ℕ) (n : ℕ) → inflate_frame z slice n ≢ ok none
  unfolding inflate_frame
  inflate_frame-ne-none slice n = elim (Result-cases (z.decompress slice n)) [
    | inl (raw, e) ↦ rw e (copied_frame-ne-none raw)
    | inr (x, e) ↦ rw e (λ q. cc)
  ]

  pub frame_of-ne-none :
      (threshold : Option ℕ) (slice : List ℕ) → frame_of z threshold slice ≢ ok none
  unfolding frame_of compressed_frame
  frame_of-ne-none none slice = raw_frame-ne-none slice
  frame_of-ne-none (some t) slice = elim (decode_cases slice) [
    | inl (inl ((len, cursor), e)) ↦ rw e (
        ground (
          arith,
          raw_frame-ne-none (advance_to slice cursor),
          inflate_frame-ne-none (advance_to slice cursor) (sign_extend_32 len),
        ))
    | inl (inr e) ↦ rw e (λ q. cc)
    | inr e ↦ rw e (λ q. cc)
  ]
