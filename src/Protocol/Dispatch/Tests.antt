-- ===== src/Protocol/Dispatch/Tests.antt =====
-- Packets as they are sent: a login success, and a handshake through the default registry.
use infrarust.Common.{
  ℕ, zero, suc, ◌+◌, ◌*◌, ◌-◌, ◌/◌, ◌%◌, true, false, none, some, List, [], ◌∷◌, ◌++◌, take, drop,
  ltb, ◌==◌, if◌then◌else◌,
}
use infrarust.Protocol.Version.{v1_7_2, handshake, status, serverbound}
use infrarust.Protocol.Packets.Handshake.{SHandshake}
use infrarust.Protocol.Packets.Login.Success.{UuidText, CLoginSuccess}
use infrarust.Protocol.Registry.{PacketRegistration}
use infrarust.Protocol.Registry.Keys.{PacketType}
use infrarust.Protocol.Registry.{from_version, registration}
use infrarust.Protocol.VarInt

-- Thirty-two digits in hexadecimal, and the number of such digits; hyphens are passed over.
abbrev hex_digit : ℕ → ℕ
hex_digit n = if ltb n 10 then n + 48 else n + 87

unfoldable hex_digits : ℕ → ℕ → List ℕ → List ℕ
hex_digits zero u behind = behind
hex_digits (suc n) u behind = hex_digits n (u / 16) (hex_digit (u % 16) ∷ behind)

abbrev hyphen : List ℕ
hyphen = 45 ∷ []

abbrev hyphenated_digits : List ℕ → List ℕ
hyphenated_digits d =
    take 8 d
    ++ (hyphen
        ++ (take 4 (drop 8 d)
            ++ (hyphen
                ++ (take 4 (drop 12 d)
                    ++ (hyphen ++ (take 4 (drop 16 d) ++ (hyphen ++ drop 20 d)))))))

unfoldable parse_digits : ℕ → List ℕ → ℕ
parse_digits value [] = value
parse_digits value (c ∷ s) =
    parse_digits (if c == 45 then value else value * 16 + (if ltb c 58 then c - 48 else c - 87)) s

abbrev hex_text : UuidText
hex_text = record {
  hyphenated = λ u. hyphenated_digits (hex_digits 32 u []);
  simple = λ u. hex_digits 32 u [];
  parse_str = λ s. some (parse_digits 0 s);
}

abbrev alex : List ℕ
alex = 97 ∷ 108 ∷ 101 ∷ 120 ∷ []

abbrev login_success : CLoginSuccess
login_success = record {
  uuid = 0x12345678;
  username = alex;
  properties = record { name = alex; value = alex; signature = none } ∷ [];
  strict_error_handling = true;
}

abbrev greeting : SHandshake
greeting = record {
  protocol_version = 767;
  server_address = alex;
  server_port = 25565;
  next_state = status;
}

abbrev handshake_registration : PacketRegistration
handshake_registration =
    registration PacketType.s_handshake handshake serverbound (from_version 0x00 v1_7_2 false ∷ [])
