-- ===== src/Protocol/Dispatch/Wire.antt =====
-- A packet on the wire: its payload in a frame, the frame in the bytes of io/encoder.rs, and back
-- through io/decoder.rs and the default registry.
use infrarust.Common.{ℕ, List}
use infrarust.Protocol.Error.{Result, ok, err}
use infrarust.Protocol.Frames.Exchange

abbrev payload_of : List ℕ → Result (List ℕ) → List ℕ
payload_of bytes (ok payload) = payload
payload_of bytes (err e) = bytes
