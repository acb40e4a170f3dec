-- ===== src/Protocol/Codec/Tests.antt =====
-- The reading methods on short inputs.
use infrarust.Common.{ℕ, refl, List, [], ◌∷◌, arith}
use infrarust.Protocol.Codec.{read_string_bounded, write_string}
use infrarust.Protocol.Codec.Utf8.{validate, after_first, char_count}
use infrarust.Protocol.Codec.RoundTrips.{RoundTrips}
use infrarust.Protocol.Codec.Values.{IsText, write_string-RoundTrips}

-- Three characters, of one, two and three bytes.
abbrev accents : List ℕ
accents = 0x6e ∷ 0xc3 ∷ 0xa9 ∷ 0xe2 ∷ 0x82 ∷ 0xac ∷ []

accents-IsText : IsText 16 accents
unfolding validate after_first char_count
accents-IsText = (refl, (omega arith, omega arith))

write_string-RoundTrips_example : RoundTrips (write_string accents) (read_string_bounded 16) accents
write_string-RoundTrips_example = write_string-RoundTrips 16 accents accents-IsText
