-- ===== src/Protocol/Frames/RoundTrip.antt =====
-- One packet through `append_raw` and `try_next_frame`, for each branch of the encoder.
use infrarust.Common.{
  ℕ, ◌+◌, ◌≤◌, ◌<◌, ◌≡◌, inl, inr, refl, sym, ap, Option, none, some, List, ◌++◌, length,
  length-append, arith, ltb, Bool-cases,
}
use infrarust.Protocol.Words.{IsWord32}
use infrarust.Protocol.Error.{Result, ok, err}
use infrarust.Protocol.VarInt
use infrarust.Protocol.VarInt.Encode.{written_size-length, written_size_pos}
use infrarust.Protocol.VarInt.RoundTrip.{decode-encode}
use infrarust.Protocol.Frames.{
  max_packet_size, max_packet_data_size, Zlib, ZlibLaws, PacketEncoder, i32_at_least, as_i32,
  copied_frame, compressed_frame, inflate_frame, frame_of, append_sized, append_plain, append_small,
  append_compressed, append_with, append_raw,
}
use infrarust.Protocol.Frames.Lemmas.{advance_to-append, raw_frame-encode}

-- One packet was appended, and it is read back as this frame.
pub record Sent (z : Zlib) (e e' : PacketEncoder) (id : ℕ) (payload : List ℕ) : Type 0 where
  pub packet : List ℕ
  pub appended : e'.buf ≡ e.buf ++ (VarInt.encode (length packet) ++ packet)
  pub nonempty : 0 < length packet
  pub fits : length packet ≤ max_packet_size
  pub same_threshold : e'.compression_threshold ≡ e.compression_threshold
  pub reads :
      frame_of z e.compression_threshold packet ≡ ok (some (record { id = id; payload = payload }))

module _ (z : Zlib) where
  append_sized-Sent :
      (e e' : PacketEncoder) (len id : ℕ) (payload packet : List ℕ)
      → len ≡ length packet
      → 0 < len
      → frame_of z e.compression_threshold packet
        ≡ ok (some (record { id = id; payload = payload }))
      → append_sized e len packet ≡ (ok tt, e')
      → Sent z e e' id payload
  unfolding append_sized
  append_sized-Sent e e' len id payload packet h p r q =
      elim (Bool-cases (ltb max_packet_size len)) [
        | inl over ↦ ground (arith, over)
        | inr within ↦
            let small : as_i32 len ≡ length packet = ground (arith, within) in
            let e'_eq : record e { buf = e.buf ++ (VarInt.encode (length packet) ++ packet) } ≡ e' =
              rw (within, small) at (ap (λ x. x.1) q) in
            record {
              packet = packet;
              appended = ap (λ x. x.buf) (sym e'_eq);
              nonempty = omega arith;
              fits = ground (arith, within);
              same_threshold = ap (λ x. x.compression_threshold) (sym e'_eq);
              reads = r;
            }
      ]

  append_plain-Sent :
      (e e' : PacketEncoder) (id : ℕ) (payload : List ℕ)
      → IsWord32 id
      → e.compression_threshold ≡ none
      → append_plain e id payload ≡ (ok tt, e')
      → Sent z e e' id payload
  unfolding append_plain frame_of
  append_plain-Sent e e' id payload h t q =
      append_sized-Sent e e' (VarInt.written_size id + length payload) id payload
        (VarInt.encode id ++ payload)
        (omega (arith, written_size-length id h, length-append (VarInt.encode id) payload))
        (omega (arith, written_size_pos id)) (rw (t, frame_of) (raw_frame-encode id payload h)) q

  -- Behind a data length of 0 the frame stands as it is.
  frame_of-small :
      (t id : ℕ) (payload : List ℕ)
      → IsWord32 id
      → frame_of z (some t) (VarInt.encode 0 ++ (VarInt.encode id ++ payload))
        ≡ ok (some (record { id = id; payload = payload }))
  unfolding frame_of
  frame_of-small t id payload h =
      let contents = VarInt.encode id ++ payload in
      rw (decode-encode 0 contents (omega arith), advance_to-append (VarInt.encode 0) contents)
        (raw_frame-encode id payload h)

  append_small-Sent :
      (e e' : PacketEncoder) (t id : ℕ) (payload : List ℕ)
      → IsWord32 id
      → e.compression_threshold ≡ some t
      → append_small e id payload ≡ (ok tt, e')
      → Sent z e e' id payload
  unfolding append_small
  append_small-Sent e e' t id payload h s q =
      append_sized-Sent e e' (VarInt.written_size 0 + VarInt.written_size id + length payload) id
        payload (VarInt.encode 0 ++ (VarInt.encode id ++ payload))
        (omega (
          arith,
          written_size-length id h,
          written_size-length 0 (omega arith),
          length-append (VarInt.encode 0) (VarInt.encode id ++ payload),
          length-append (VarInt.encode id) payload,
        ))
        (omega (arith, written_size_pos id)) (rw s (frame_of-small t id payload h)) q

  -- Behind a data length the frame is what the contents decompress to, within the limit.
  frame_of-compressed :
      (t id : ℕ) (payload packed : List ℕ)
      → ZlibLaws z
      → IsWord32 id
      → VarInt.written_size id + length payload ≤ max_packet_data_size
      → z.compress (VarInt.encode id ++ payload) ≡ ok packed
      → frame_of z
          (some t)
          (VarInt.encode (as_i32 (VarInt.written_size id + length payload)) ++ packed)
        ≡ ok (some (record { id = id; payload = payload }))
  unfolding frame_of compressed_frame inflate_frame copied_frame
  frame_of-compressed t id payload packed laws h k c =
      let size = VarInt.written_size id + length payload in
      let whole : length (VarInt.encode id ++ payload) ≡ size =
        omega (arith, written_size-length id h, length-append (VarInt.encode id) payload) in
      let wide : as_i32 size ≡ size = omega arith in
      let back : z.decompress packed size ≡ ok (VarInt.encode id ++ payload) =
        rw whole at (laws.inverts (VarInt.encode id ++ payload) packed c) in
      rw
        (
          wide,
          decode-encode size packed (omega arith),
          advance_to-append (VarInt.encode size) packed,
        )
        (ground (arith, written_size_pos id, back, decode-encode id payload h))

  append_compressed-Sent :
      (e e' : PacketEncoder) (t id : ℕ) (payload : List ℕ) (r : Result (List ℕ))
      → ZlibLaws z
      → IsWord32 id
      → e.compression_threshold ≡ some t
      → VarInt.written_size id + length payload ≤ max_packet_data_size
      → z.compress (VarInt.encode id ++ payload) ≡ r
      → append_compressed e (VarInt.written_size id + length payload) r ≡ (ok tt, e')
      → Sent z e e' id payload
  unfolding append_compressed
  append_compressed-Sent e e' t id payload (err x) laws h s k c q = cc
  append_compressed-Sent e e' t id payload (ok packed) laws h s k c q =
      let data_len = as_i32 (VarInt.written_size id + length payload) in
      append_sized-Sent e e' (VarInt.written_size data_len + length packed) id payload
        (VarInt.encode data_len ++ packed)
        (omega (
          arith,
          written_size-length data_len (omega arith),
          length-append (VarInt.encode data_len) packed,
        ))
        (omega (arith, written_size_pos data_len))
        (rw s (frame_of-compressed t id payload packed laws h k c)) q

  append_with-Sent :
      (threshold : Option ℕ) (e e' : PacketEncoder) (id : ℕ) (payload : List ℕ)
      → ZlibLaws z
      → IsWord32 id
      → e.compression_threshold ≡ threshold
      → VarInt.written_size id + length payload ≤ max_packet_data_size
      → append_with z threshold e id payload ≡ (ok tt, e')
      → Sent z e e' id payload
  unfolding append_with
  append_with-Sent none e e' id payload laws h s k q = append_plain-Sent e e' id payload h s q
  append_with-Sent (some t) e e' id payload laws h s k q =
      elim (Bool-cases (i32_at_least (VarInt.written_size id + length payload) t)) [
        | inl large ↦ append_compressed-Sent e e' t id payload _ laws h s k refl (rw large at q)
        | inr small ↦ append_small-Sent e e' t id payload h s (rw small at q)
      ]

  pub append_raw-Sent :
      (e e' : PacketEncoder) (id : ℕ) (payload : List ℕ)
      → ZlibLaws z
      → IsWord32 id
      → VarInt.written_size id + length payload ≤ max_packet_data_size
      → append_raw z e id payload ≡ (ok tt, e')
      → Sent z e e' id payload
  unfolding append_raw
  append_raw-Sent e e' id payload laws h k q =
      append_with-Sent e.compression_threshold e e' id payload laws h refl k q
