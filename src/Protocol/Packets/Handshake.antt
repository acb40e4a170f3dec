-- ===== src/Protocol/Packets/Handshake.antt =====
-- packets/handshake.rs and packets/status.rs.
use infrarust.Common.{ℕ, ◌^◌, ◌<◌, ◌≡◌, refl, none, some, List, ◌⊎◌, inl, inr, arith}
use infrarust.Protocol.Words.{IsWord32}
use infrarust.Protocol.Error.{err, invalid}
use infrarust.Protocol.Version.{ConnectionState, status, login, handshake_id, from_handshake_id}
use infrarust.Protocol.Codec.{
  Reader, Writer, ◌>>=◌, return, fail, ◌>>◌, read_var_int, read_string, read_string_bounded,
  read_be, write_var_int, write_string, write_be, max_string_chars,
}
use infrarust.Protocol.Codec.RoundTrips.{
  RoundTrips, then-RoundTrips, last-RoundTrips, bind-RoundTrips,
}
use infrarust.Protocol.Codec.Values.{
  write_var_int-RoundTrips, IsText, write_string-RoundTrips, write_be-RoundTrips,
}

pub record SHandshake : Type 0 where
  pub protocol_version : ℕ
  pub server_address : List ℕ
  pub server_port : ℕ
  pub next_state : ConnectionState

unfoldable pub resolve_state : ℕ → Reader ConnectionState
resolve_state id = elim (from_handshake_id id) [
  | some state ↦ return state
  | none ↦ fail (invalid "invalid handshake next_state")
]

unfoldable pub decode_handshake : Reader SHandshake
decode_handshake = do
  protocol_version ← read_var_int
  server_address ← read_string_bounded 255
  server_port ← read_be 2
  next_state_id ← read_var_int
  next_state ← resolve_state next_state_id
  return (record {
    protocol_version = protocol_version;
    server_address = server_address;
    server_port = server_port;
    next_state = next_state;
  })

-- The handshake's number of a state, or the error of a state that no handshake asks for.
unfoldable pub write_state : ConnectionState → Writer
write_state state = elim (handshake_id state) [
  | some id ↦ write_var_int id
  | none ↦ err (invalid "cannot encode handshake next_state")
]

unfoldable pub encode_handshake : SHandshake → Writer
encode_handshake p =
    write_var_int p.protocol_version
    >> (write_string p.server_address >> (write_be 2 p.server_port >> write_state p.next_state))

-- A handshake as a client sends it.
pub record IsHandshake (p : SHandshake) : Type 0 where
  pub version : IsWord32 p.protocol_version
  pub address : IsText 255 p.server_address
  pub port : p.server_port < 2 ^ 16
  pub state : (p.next_state ≡ status) ⊎ (p.next_state ≡ login)

-- The number of a state that a handshake asks for, read back.
pub record Asked (state : ConnectionState) : Type 0 where
  pub id : ℕ
  pub sent : handshake_id state ≡ some id
  pub back : from_handshake_id id ≡ some state
  pub word : IsWord32 id

handshake_id-Asked : (state : ConnectionState) → (state ≡ status) ⊎ (state ≡ login) → Asked state
unfolding handshake_id from_handshake_id
handshake_id-Asked state (inl h) =
    rw h (record { id = 1; sent = refl; back = refl; word = omega arith })
handshake_id-Asked state (inr h) =
    rw h (record { id = 2; sent = refl; back = refl; word = omega arith })

pub encode_handshake-RoundTrips :
    (p : SHandshake) → IsHandshake p → RoundTrips (encode_handshake p) decode_handshake p
unfolding encode_handshake decode_handshake write_state resolve_state
encode_handshake-RoundTrips p h =
    let asked = handshake_id-Asked p.next_state h.state in
    then-RoundTrips _ _ read_var_int _ p.protocol_version p (write_var_int-RoundTrips _ h.version) (
      then-RoundTrips _ _ (read_string_bounded 255) _ p.server_address p
        (write_string-RoundTrips 255 _ h.address)
        (then-RoundTrips _ _ (read_be 2) _ p.server_port p
          (write_be-RoundTrips 2 _ (omega (arith, h.port)))
          (rw (write_state, asked.sent)
            (bind-RoundTrips _ read_var_int _ asked.id p (write_var_int-RoundTrips _ asked.word)
              (λ rest. rw (◌>>=◌, resolve_state, asked.back) refl)))))

pub record CStatusResponse : Type 0 where
  pub json_response : List ℕ

unfoldable pub decode_status_response : Reader CStatusResponse
decode_status_response = do
  json_response ← read_string
  return (record { json_response = json_response })

unfoldable pub encode_status_response : CStatusResponse → Writer
encode_status_response p = write_string p.json_response

-- `SPingRequest` and `CPingResponse`, which carry the same payload.
pub record Ping : Type 0 where
  pub payload : ℕ

unfoldable pub decode_ping : Reader Ping
decode_ping = do payload ← read_be 8; return (record { payload = payload })

unfoldable pub encode_ping : Ping → Writer
encode_ping p = write_be 8 p.payload

pub encode_status_response-RoundTrips :
    (p : CStatusResponse)
    → IsText max_string_chars p.json_response
    → RoundTrips (encode_status_response p) decode_status_response p
unfolding encode_status_response decode_status_response
encode_status_response-RoundTrips p h =
    last-RoundTrips _ read_string _ p.json_response (write_string-RoundTrips max_string_chars _ h)

pub encode_ping-RoundTrips :
    (p : Ping) → p.payload < 2 ^ 64 → RoundTrips (encode_ping p) decode_ping p
unfolding encode_ping decode_ping
encode_ping-RoundTrips p h =
    last-RoundTrips _ (read_be 8) _ p.payload (write_be-RoundTrips 8 _ (omega (arith, h)))
