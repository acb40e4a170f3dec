-- ===== src/Protocol/Frames/Tests.antt =====
-- Runs of io/encoder.rs and io/decoder.rs, with compressors that do as zlib documents.
use infrarust.Common.{
  ◌+◌, ℕ, ◌<◌, ◌≡◌, ◌↔◌, refl, some, List, [], ◌∷◌, ◌++◌, length, arith, ◌==◌, if◌then◌else◌, All,
}
use infrarust.Protocol.Words.{IsWord32, leading_zeros}
use infrarust.Protocol.Error.{too_large, ok, err, invalid}
use infrarust.Protocol.VarInt
use infrarust.Protocol.Frames.{
  max_packet_data_size, Zlib, ZlibLaws, PacketFrame, PacketDecoder, PacketEncoder, try_next_frame,
  append_frame, append_raw, append_with, append_small, append_compressed, append_sized, frame_after,
  frame_at, frame_of, compressed_frame, inflate_frame, copied_frame, queue_bytes,
}
use infrarust.Protocol.Frames.Compression.{
  Backend, flate2, flate2_decompress, zeros, length-zeros, new_zlib, inflated, decompress-exact,
}
use infrarust.Protocol.Frames.Stream.{Progress, try_next_frame-Progress, try_next_frame-queue_bytes}
use infrarust.Protocol.Frames.Exchange.{IsSendable, Yields, frames_roundtrip}
use infrarust.Protocol.Frames.Limits.{append_raw-oversize, try_next_frame_size}

-- A compressor that stores its input.
abbrev pub stored : Zlib
stored = record {
  compress = ok;
  decompress = λ input size. if length input == size then ok input else err (invalid "size");
}

pub stored-ZlibLaws : ZlibLaws stored
stored-ZlibLaws = record { inverts = λ input output e. ground (arith, e) }

abbrev pub zlib_on : PacketEncoder
zlib_on = record { buf = []; compression_threshold = some 4 }

abbrev ping : PacketFrame
ping = record { id = 1; payload = 7 ∷ [] }

abbrev chat : PacketFrame
chat = record { id = 3; payload = 10 ∷ 20 ∷ 30 ∷ 40 ∷ 50 ∷ [] }

abbrev after_ping : PacketEncoder
after_ping = record { buf = 3 ∷ 0 ∷ 1 ∷ 7 ∷ []; compression_threshold = some 4 }

abbrev after_chat : PacketEncoder
after_chat = record {
  buf = 3 ∷ 0 ∷ 1 ∷ 7 ∷ 7 ∷ 6 ∷ 3 ∷ 10 ∷ 20 ∷ 30 ∷ 40 ∷ 50 ∷ [];
  compression_threshold = some 4;
}

append_ping : append_frame stored zlib_on ping ≡ (ok tt, after_ping)
unfolding append_frame append_raw append_with append_small append_compressed append_sized
    VarInt.written_size VarInt.encode VarInt.spread leading_zeros
append_ping = refl

append_chat : append_frame stored after_ping chat ≡ (ok tt, after_chat)
unfolding append_frame append_raw append_with append_small append_compressed append_sized
    VarInt.written_size VarInt.encode VarInt.spread leading_zeros
append_chat = refl

chat-IsSendable : All IsSendable (ping ∷ chat ∷ [])
unfolding VarInt.written_size leading_zeros
chat-IsSendable = ((omega arith, omega arith), ((omega arith, omega arith), tt))

-- A small packet and a compressed one, with the first byte of a third behind them.
frames_roundtrip_example :
    Yields stored
      (record { buf = after_chat.buf ++ (9 ∷ []); compression_threshold = some 4 })
      (ping ∷ chat ∷ [])
      (record { buf = 9 ∷ []; compression_threshold = some 4 })
frames_roundtrip_example =
    frames_roundtrip stored (ping ∷ chat ∷ []) zlib_on after_chat (9 ∷ []) stored-ZlibLaws
      chat-IsSendable refl (after_ping, append_ping, (after_chat, append_chat, refl))

abbrev chat_queued : PacketDecoder
chat_queued = record {
  buf = 7 ∷ 6 ∷ 3 ∷ 10 ∷ 20 ∷ 30 ∷ 40 ∷ 50 ∷ [];
  compression_threshold = some 4;
}

next_is_chat :
    try_next_frame stored chat_queued
    ≡ (ok (some chat), record { buf = []; compression_threshold = some 4 })
unfolding try_next_frame frame_after frame_at frame_of compressed_frame inflate_frame copied_frame
    VarInt.decode VarInt.decode_loop VarInt.decode_partial VarInt.partial_loop
next_is_chat = refl

try_next_frame-queue_bytes_example :
    try_next_frame stored (queue_bytes chat_queued (8 ∷ 8 ∷ [])) ≡ (
      (try_next_frame stored chat_queued).0,
      queue_bytes (try_next_frame stored chat_queued).1 (8 ∷ 8 ∷ []),
    )
try_next_frame-queue_bytes_example =
    try_next_frame-queue_bytes stored chat_queued (8 ∷ 8 ∷ []) (λ e. cc (next_is_chat))

try_next_frame-Progress_example : Progress chat_queued (try_next_frame stored chat_queued)
try_next_frame-Progress_example = try_next_frame-Progress stored chat_queued

-- A `flate2` that stores its input.
abbrev flate2_storing : Backend
flate2_storing = flate2 (record { zlib_encode = λ level. ok; zlib_decode = λ input. input })

-- One byte more than was announced.
decompress-exact_example :
    ((new_zlib 6 flate2_storing).decompress (1 ∷ 2 ∷ 3 ∷ []) 2 ≡ ok (1 ∷ 2 ∷ [])) ↔ (
      (inflated flate2_storing (1 ∷ 2 ∷ 3 ∷ []) 2 ≡ some (1 ∷ 2 ∷ []))
      × (length {A = ℕ} (1 ∷ 2 ∷ []) ≡ 2))
decompress-exact_example = decompress-exact 6 flate2_storing (1 ∷ 2 ∷ 3 ∷ []) (1 ∷ 2 ∷ []) 2

flate2_gives_chat : (try_next_frame (new_zlib 6 flate2_storing) chat_queued).0 ≡ ok (some chat)
unfolding try_next_frame frame_after frame_at frame_of compressed_frame inflate_frame copied_frame
    VarInt.decode VarInt.decode_loop VarInt.decode_partial VarInt.partial_loop flate2_decompress
    zeros
flate2_gives_chat = refl

try_next_frame_size_example : IsWord32 3 × (5 < max_packet_data_size)
try_next_frame_size_example =
    try_next_frame_size 6 flate2_storing chat_queued chat flate2_gives_chat

-- A compressor for zeros.
abbrev squeezed : Zlib
squeezed = record { compress = λ input. ok []; decompress = λ input size. err (invalid "empty") }

abbrev flood : List ℕ
flood = zeros 9_000_000

size_of_five : VarInt.written_size 5 ≡ 1
unfolding VarInt.written_size leading_zeros
size_of_five = refl

size_of_flood : VarInt.written_size 9_000_001 ≡ 4
unfolding VarInt.written_size leading_zeros
size_of_flood = refl

flooded : VarInt.written_size 5 + length flood ≡ 9_000_001
flooded = rw (size_of_five, length-zeros 9_000_000) refl

append_raw-oversize_example :
    (e' : PacketEncoder) × (append_raw squeezed
        (record { buf = []; compression_threshold = some 256 })
        5
        flood
      ≡ (ok tt, e'))
    × ((try_next_frame squeezed (record { buf = e'.buf; compression_threshold = some 256 })).0
        ≡ err (too_large max_packet_data_size (VarInt.written_size 5 + length flood)))
append_raw-oversize_example =
    append_raw-oversize squeezed 256 5 flood [] (omega (arith, flooded)) (omega (arith, flooded))
      (rw flooded refl) refl (rw (flooded, size_of_flood) (omega arith))

-- A frame with a handshake.
abbrev pub greeting_bytes : List ℕ
greeting_bytes = 255 ∷ 5 ∷ 4 ∷ 97 ∷ 108 ∷ 101 ∷ 120 ∷ 99 ∷ 221 ∷ 1 ∷ []

abbrev pub greeting_frame : PacketFrame
greeting_frame = record { id = 0; payload = greeting_bytes }

abbrev pub after_greeting : PacketEncoder
after_greeting = record { buf = 12 ∷ 11 ∷ 0 ∷ greeting_bytes; compression_threshold = some 4 }

pub greeting_appended : append_frame stored zlib_on greeting_frame ≡ (ok tt, after_greeting)
unfolding append_frame append_raw append_with append_small append_compressed append_sized
    VarInt.written_size VarInt.encode VarInt.spread leading_zeros
greeting_appended = refl

pub greeting_fits : IsSendable greeting_frame
unfolding VarInt.written_size leading_zeros
greeting_fits = (omega arith, omega arith)
