-- ===== src/Protocol/Dispatch/RoundTrip.antt =====
-- Packets of any type, written and read back.
