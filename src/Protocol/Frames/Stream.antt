-- ===== src/Protocol/Frames/Stream.antt =====
-- io/decoder.rs on a stream whose bytes arrive in pieces.
use infrarust.Common.{
  ℕ, ◌+◌, ◌-◌, ◌≤◌, ◌<◌, ◌≡◌, ◌≢◌, inl, inr, ◌∙◌, refl, sym, ap, Option, none, some, List, ◌++◌,
  length, take, drop, length-append, length-drop, take-append_le, drop-append_le, arith,
}
use infrarust.Protocol.Error.{Result, ok}
use infrarust.Protocol.VarInt
use infrarust.Protocol.VarInt.{Partial, done, incomplete_status, too_large_status}
use infrarust.Protocol.VarInt.Decode.{
  decode_takes, decode_partial-observe, decode-append_ok, decode_cases, decode-append_overlong,
  Took-shorter,
}
use infrarust.Protocol.Frames.{
  Zlib, PacketFrame, PacketDecoder, queue_bytes, frame_at, frame_after, try_next_frame,
}
use infrarust.Protocol.Frames.Lemmas.{frame_of-ne-none}

-- A length that is there in full stays as it is when more bytes arrive.
decode_partial-append :
    (buf more : List ℕ)
    → VarInt.decode_partial buf ≢ incomplete_status
    → VarInt.decode_partial (buf ++ more) ≡ VarInt.decode_partial buf
decode_partial-append buf more h = elim (decode_cases buf) [
  | inl (inl ((v, rest), e)) ↦
      rw
        (
          decode_partial-observe (buf ++ more),
          decode_partial-observe buf,
          decode-append_ok buf more v rest e,
          e,
        )
        (ap (done v) (omega (arith, length-append buf more, length-append rest more)))
  | inl (inr e) ↦ absurd (h (decode_partial-observe buf ∙ rw e))
  | inr e ↦ rw (
    decode_partial-observe (buf ++ more),
    decode_partial-observe buf,
    decode-append_overlong buf more e,
    e,
  )
]

decode_partial_size :
    (buf : List ℕ) (v n : ℕ) → VarInt.decode_partial buf ≡ done v n → (0 < n) × (n ≤ length buf)
decode_partial_size buf v n h = elim (decode_cases buf) [
  | inl (inl ((u, rest), e)) ↦
      let (t, w, q) = decode_takes buf u rest e in
      let shorter = Took-shorter t in
      let seen : done u (length buf - length rest) ≡ done v n =
        sym (decode_partial-observe buf ∙ rw e) ∙ h in
      ground (arith, seen, shorter)
  | inl (inr e) ↦ cc (decode_partial-observe buf, e)
  | inr e ↦ cc (decode_partial-observe buf, e)
]

-- What a call leaves, when it waits and when it gives a frame.
pub record Progress (d : PacketDecoder) (r : Result (Option PacketFrame) × PacketDecoder)
    : Type 0 where
  pub same_threshold : r.1.compression_threshold ≡ d.compression_threshold
  pub waiting : r.0 ≡ ok none → r.1 ≡ d
  pub taken : (f : PacketFrame) → r.0 ≡ ok (some f) → length r.1.buf + 2 ≤ length d.buf

module _ (z : Zlib) where
  frame_at-queue_bytes :
      (d : PacketDecoder) (more : List ℕ) (len size : ℕ)
      → (frame_at z d len size).0 ≢ ok none
      → frame_at z (queue_bytes d more) len size
        ≡ ((frame_at z d len size).0, queue_bytes (frame_at z d len size).1 more)
  unfolding frame_at queue_bytes
  frame_at-queue_bytes d more len size h = ground (
    arith,
    length-append d.buf more,
    length-drop size d.buf,
    drop-append_le size d.buf more,
    take-append_le len (drop size d.buf) more,
    drop-append_le len (drop size d.buf) more,
  )

  frame_after-queue_bytes :
      (d : PacketDecoder) (more : List ℕ) (p : Partial)
      → (frame_after z d p).0 ≢ ok none
      → (frame_after z (queue_bytes d more) p
          ≡ ((frame_after z d p).0, queue_bytes (frame_after z d p).1 more))
        × (p ≢ incomplete_status)
  unfolding frame_after
  frame_after-queue_bytes d more (done len size) h =
      (frame_at-queue_bytes d more len size h, λ e. cc)
  frame_after-queue_bytes d more incomplete_status h = absurd (h refl)
  frame_after-queue_bytes d more too_large_status h = (refl, λ e. cc)

  -- If try_next_frame gives a frame or an error, then with more bytes queued it gives the same,
  -- and the further bytes stand behind what it leaves.
  pub try_next_frame-queue_bytes :
      (d : PacketDecoder) (more : List ℕ)
      → (try_next_frame z d).0 ≢ ok none
      → try_next_frame z (queue_bytes d more)
        ≡ ((try_next_frame z d).0, queue_bytes (try_next_frame z d).1 more)
  unfolding try_next_frame queue_bytes
  try_next_frame-queue_bytes d more h =
      let (same, there) = frame_after-queue_bytes d more (VarInt.decode_partial d.buf) h in
      rw (decode_partial-append d.buf more there) same

  frame_at-Progress :
      (d : PacketDecoder) (len size : ℕ) → 0 < size → Progress d (frame_at z d len size)
  unfolding frame_at
  frame_at-Progress d len size h = record {
    same_threshold = ground arith;
    waiting =
        ground (arith, frame_of-ne-none z d.compression_threshold (take len (drop size d.buf)));
    taken = λ f e. ground (arith, length-drop size d.buf, length-drop len (drop size d.buf));
  }

  frame_after-Progress :
      (d : PacketDecoder) (p : Partial)
      → VarInt.decode_partial d.buf ≡ p
      → Progress d (frame_after z d p)
  unfolding frame_after
  frame_after-Progress d (done len size) e =
      let (h, _) = decode_partial_size d.buf len size e in frame_at-Progress d len size h
  frame_after-Progress d incomplete_status e = record {
    same_threshold = refl;
    waiting = λ q. refl;
    taken = λ f q. cc;
  }
  frame_after-Progress d too_large_status e = record {
    same_threshold = refl;
    waiting = λ q. cc;
    taken = λ f q. cc;
  }

  -- A call of try_next_frame keeps the threshold; if it gives neither frame nor error, it leaves
  -- the decoder as it was; if it gives a frame, at least two bytes are gone.
  pub try_next_frame-Progress : (d : PacketDecoder) → Progress d (try_next_frame z d)
  unfolding try_next_frame
  try_next_frame-Progress d = frame_after-Progress d (VarInt.decode_partial d.buf) refl
