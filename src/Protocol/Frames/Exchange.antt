-- ===== src/Protocol/Frames/Exchange.antt =====
-- A whole exchange: a list of frames through io/encoder.rs and io/decoder.rs.
use infrarust.Common.{ℕ, ◌+◌, ◌≤◌, ◌≡◌, ◌∙◌, refl, sym, ap, some, List, [], ◌∷◌, ◌++◌, length, All}
use mathlib.Core.List.{append_assoc, append-nil}
use infrarust.Protocol.Words.{IsWord32}
use infrarust.Protocol.Error.{ok}
use infrarust.Protocol.VarInt
use infrarust.Protocol.VarInt.{Partial, done, incomplete_status, too_large_status}
use infrarust.Protocol.Frames.{
  max_packet_data_size, Zlib, ZlibLaws, PacketFrame, PacketDecoder, PacketEncoder, try_next_frame,
  append_frame,
}
use infrarust.Protocol.Frames.Lemmas.{try_next_frame-packet}
use infrarust.Protocol.Frames.RoundTrip.{append_raw-Sent}

-- What the encoder takes for granted of a frame: the id is an `i32`, and the decoder's limit on
-- decompressed data is kept.
abbrev pub IsSendable : PacketFrame → Type 0
IsSendable f = IsWord32 f.id × (VarInt.written_size f.id + length f.payload ≤ max_packet_data_size)

module _ (z : Zlib) where
  -- All frames were accepted in order, and `e'` is the encoder afterwards.
  abbrev pub Appended : PacketEncoder → List PacketFrame → PacketEncoder → Type 0
  Appended e [] e' = e ≡ e'
  Appended e (f ∷ fs) e' =
      (e₁ : PacketEncoder) × (append_frame z e f ≡ (ok tt, e₁)) × Appended e₁ fs e'

  -- Calls of `try_next_frame` give these frames in order, and leave `d'`.
  abbrev pub Yields : PacketDecoder → List PacketFrame → PacketDecoder → Type 0
  Yields d [] d' = d ≡ d'
  Yields d (f ∷ fs) d' =
      (d₁ : PacketDecoder) × (try_next_frame z d ≡ (ok (some f), d₁)) × Yields d₁ fs d'

  -- The bytes that were appended, and that they yield the frames before any rest.
  record Carries (e e' : PacketEncoder) (frames : List PacketFrame) : Type 0 where
    bytes : List ℕ
    appended : e'.buf ≡ e.buf ++ bytes
    yields :
        (rest : List ℕ)
        → Yields
            (record { buf = bytes ++ rest; compression_threshold = e.compression_threshold })
            frames
            (record { buf = rest; compression_threshold = e.compression_threshold })

  Appended-Carries :
      (frames : List PacketFrame) (e e' : PacketEncoder)
      → ZlibLaws z
      → All IsSendable frames
      → Appended e frames e'
      → Carries e e' frames
  unfolding append_frame
  Appended-Carries [] e e' laws s q = record {
    bytes = [];
    appended = rw (← q) (sym (append-nil e.buf));
    yields = λ rest. refl;
  }
  Appended-Carries (f ∷ fs) e e' laws (s, ss) (e₁, q, qs) =
      let sent = append_raw-Sent z e e₁ f.id f.payload laws s.0 s.1 q in
      let later = Appended-Carries fs e₁ e' laws ss qs in
      let head = VarInt.encode (length sent.packet) ++ sent.packet in
      record {
        bytes = head ++ later.bytes;
        appended = later.appended ∙ rw sent.appended (append_assoc e.buf head later.bytes);
        yields = λ rest. (
          record { buf = later.bytes ++ rest; compression_threshold = e.compression_threshold },
          rw (append_assoc head later.bytes rest, append_assoc)
              (try_next_frame-packet z e.compression_threshold sent.packet (later.bytes ++ rest)
                  sent.nonempty sent.fits
                ∙ rw sent.reads),
          rw sent.same_threshold at (later.yields rest),
        );
      }

  -- Let an encoder with an empty buffer accept frames whose ids have 32 bits and whose sizes keep
  -- the limit on decompressed data. Then its bytes, with whatever follows them, give in a decoder
  -- with the same threshold exactly these frames in order, and what follows is left. The
  -- compressor is assumed to do as zlib documents.
  pub frames_roundtrip :
      (frames : List PacketFrame) (e e' : PacketEncoder) (rest : List ℕ)
      → ZlibLaws z
      → All IsSendable frames
      → e.buf ≡ []
      → Appended e frames e'
      → Yields
          (record { buf = e'.buf ++ rest; compression_threshold = e.compression_threshold })
          frames
          (record { buf = rest; compression_threshold = e.compression_threshold })
  frames_roundtrip frames e e' rest laws s h q =
      let c = Appended-Carries frames e e' laws s q in
      let whole : e'.buf ≡ c.bytes = c.appended ∙ ap (λ (l : List ℕ). l ++ c.bytes) h in
      rw whole (c.yields rest)
