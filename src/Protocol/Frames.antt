-- ===== src/Protocol/Frames.antt =====
-- io/frame.rs, io/encoder.rs, io/decoder.rs: packets as frames of a byte stream. A buffer is a
-- list of bytes. The scratch buffers of the two coders are overwritten before they are read, so
-- they are no part of the state; `reserve` changes no content.
mod Lemmas
pub mod Compression
pub mod Stream
mod RoundTrip
pub mod Exchange
pub mod Limits
pub mod Tests
use infrarust.Common.{
  ℕ, ◌+◌, ◌-◌, ◌^◌, ◌%◌, ◌≡◌, Bool, true, Option, none, some, List, [], ◌∷◌, ◌++◌, length, take,
  drop, ltb, leb, ◌==◌, ◌||◌, if◌then◌else◌,
}
use infrarust.Protocol.Words.{is_negative_32, sign_extend_32}
use infrarust.Protocol.Error.{ProtocolError, Result, ok, err, invalid, too_large, ◌>>=◌}
use infrarust.Protocol.VarInt
use infrarust.Protocol.VarInt.{Partial, done, incomplete_status, too_large_status}

abbrev pub max_packet_size : ℕ
max_packet_size = 2_097_152

abbrev pub max_packet_data_size : ℕ
max_packet_data_size = 8_388_608

-- The traits `ZlibCompressor` and `ZlibDecompressor`: `decompress` is given the expected size.
-- Compression has their implementations.
pub record Zlib : Type 0 where
  pub compress : List ℕ → Result (List ℕ)
  pub decompress : List ℕ → ℕ → Result (List ℕ)

-- Decompression to the right size inverts compression.
pub record ZlibLaws (z : Zlib) : Type 0 where
  pub inverts :
      (input output : List ℕ)
      → z.compress input ≡ ok output
      → z.decompress output (length input) ≡ ok input

pub record PacketFrame : Type 0 where
  pub id : ℕ
  pub payload : List ℕ

pub record PacketDecoder : Type 0 where
  pub buf : List ℕ
  pub compression_threshold : Option ℕ

pub record PacketEncoder : Type 0 where
  pub buf : List ℕ
  pub compression_threshold : Option ℕ

pub queue_bytes : PacketDecoder → List ℕ → PacketDecoder
queue_bytes d bytes = record d { buf = d.buf ++ bytes }

-- `data.advance(slice.len() - cursor.len())`
abbrev pub advance_to : List ℕ → List ℕ → List ℕ
advance_to slice cursor = drop (length slice - length cursor) slice

-- `[VarInt(packet_id)] [payload]`
pub raw_frame : List ℕ → Result (Option PacketFrame)
raw_frame slice = do
  (packet_id, cursor) ← VarInt.decode slice
  ok (some (record { id = packet_id; payload = advance_to slice cursor }))

-- The same for a decompressed packet, whose payload is copied from the cursor.
copied_frame : List ℕ → Result (Option PacketFrame)
copied_frame decompressed = do
  (packet_id, cursor) ← VarInt.decode decompressed
  ok (some (record { id = packet_id; payload = cursor }))

module _ (z : Zlib) where
  -- The branch for `data_len != 0`.
  inflate_frame : List ℕ → ℕ → Result (Option PacketFrame)
  inflate_frame slice data_size = z.decompress slice data_size >>= copied_frame

  compressed_frame : List ℕ → ℕ → Result (Option PacketFrame)
  unfolding inflate_frame
  compressed_frame slice data_len =
      let data_size = sign_extend_32 data_len in
      if ltb max_packet_data_size data_size
      then err (too_large max_packet_data_size data_size)
      else inflate_frame slice data_size

  -- Step 5 of `try_next_frame`, on the bytes of one packet.
  pub frame_of : Option ℕ → List ℕ → Result (Option PacketFrame)
  frame_of none slice = raw_frame slice
  frame_of (some threshold) slice = do
    (data_len, cursor) ← VarInt.decode slice
    let contents = advance_to slice cursor
    if data_len == 0 then raw_frame contents else compressed_frame contents data_len

  -- Steps 2 to 4: the length is checked, and the packet is split off the buffer.
  pub frame_at : PacketDecoder → ℕ → ℕ → Result (Option PacketFrame) × PacketDecoder
  frame_at d packet_len varint_size =
      if is_negative_32 packet_len || packet_len == 0
      then (err (invalid "packet length must be positive"), d)
      else if ltb max_packet_size packet_len
      then (err (too_large max_packet_size packet_len), d)
      else if ltb (length d.buf) (varint_size + packet_len)
      then (ok none, d)
      else (
        frame_of d.compression_threshold (take packet_len (drop varint_size d.buf)),
        record d { buf = drop packet_len (drop varint_size d.buf) },
      )

  -- Step 1, from the answer of `decode_partial`.
  pub frame_after : PacketDecoder → Partial → Result (Option PacketFrame) × PacketDecoder
  frame_after d (done packet_len varint_size) = frame_at d packet_len varint_size
  frame_after d incomplete_status = (ok none, d)
  frame_after d too_large_status = (err (invalid "packet length VarInt too large"), d)

  pub try_next_frame : PacketDecoder → Result (Option PacketFrame) × PacketDecoder
  try_next_frame d = frame_after d (VarInt.decode_partial d.buf)

-- `(x as i32) >= y` for a `usize` x.
abbrev pub i32_at_least : ℕ → ℕ → Bool
i32_at_least x y = leb ((y + 2 ^ 31) % 2 ^ 32) ((x + 2 ^ 31) % 2 ^ 32)

-- `VarInt(n as i32)`
abbrev pub as_i32 : ℕ → ℕ
as_i32 n = n % 2 ^ 32

-- The check and the write in which all branches of `append_raw` end: the packet's length, then
-- its contents.
append_sized : PacketEncoder → ℕ → List ℕ → Result (Unit {0}) × PacketEncoder
append_sized e packet_len contents =
    if ltb max_packet_size packet_len
    then (err (too_large max_packet_size packet_len), e)
    else (ok tt, record e { buf = e.buf ++ (VarInt.encode (as_i32 packet_len) ++ contents) })

-- `append_raw` without compression.
append_plain : PacketEncoder → ℕ → List ℕ → Result (Unit {0}) × PacketEncoder
append_plain e packet_id payload =
    append_sized e (VarInt.written_size packet_id + length payload)
      (VarInt.encode packet_id ++ payload)

-- The branch of `append_raw` below the threshold.
append_small : PacketEncoder → ℕ → List ℕ → Result (Unit {0}) × PacketEncoder
append_small e packet_id payload =
    append_sized e (VarInt.written_size 0 + VarInt.written_size packet_id + length payload)
      (VarInt.encode 0 ++ (VarInt.encode packet_id ++ payload))

-- The branch that compresses, after the compressor's answer.
append_compressed : PacketEncoder → ℕ → Result (List ℕ) → Result (Unit {0}) × PacketEncoder
append_compressed e uncompressed_len (err x) = (err x, e)
append_compressed e uncompressed_len (ok compress_buf) =
    let data_len_varint = as_i32 uncompressed_len in
    append_sized e (VarInt.written_size data_len_varint + length compress_buf)
      (VarInt.encode data_len_varint ++ compress_buf)

module _ (z : Zlib) where
  append_with : Option ℕ → PacketEncoder → ℕ → List ℕ → Result (Unit {0}) × PacketEncoder
  append_with none e packet_id payload = append_plain e packet_id payload
  append_with (some threshold) e packet_id payload =
      let uncompressed_len = VarInt.written_size packet_id + length payload in
      if i32_at_least uncompressed_len threshold
      then append_compressed e uncompressed_len (z.compress (VarInt.encode packet_id ++ payload))
      else append_small e packet_id payload

  pub append_raw : PacketEncoder → ℕ → List ℕ → Result (Unit {0}) × PacketEncoder
  append_raw e packet_id payload = append_with e.compression_threshold e packet_id payload

  pub append_frame : PacketEncoder → PacketFrame → Result (Unit {0}) × PacketEncoder
  append_frame e frame = append_raw e frame.id frame.payload

-- `take`: the bytes so far, and an empty buffer.
abbrev pub take_bytes : PacketEncoder → List ℕ × PacketEncoder
take_bytes e = (e.buf, record e { buf = [] })

abbrev pub set_decoder_compression : PacketDecoder → ℕ → PacketDecoder
set_decoder_compression d threshold = record d { compression_threshold = some threshold }

abbrev pub set_encoder_compression : PacketEncoder → ℕ → PacketEncoder
set_encoder_compression e threshold = record e { compression_threshold = some threshold }
