-- ===== src/Protocol/Play/Commands/Properties.antt =====
-- The properties behind an argument parser in Commands: their form on the wire by the number of the
-- parser, and the reader that finds their end.
use infrarust.Common.{
  ℕ, ◌≡◌, ◌∙◌, refl, sym, ap, Bool, true, false, List, [], ◌∷◌, ◌++◌, length, ◌==◌, leb, ltb,
  if◌then◌else◌, arith,
}
use native.Mathlib.Nat.{mod-eq_of_lt}
use infrarust.Protocol.Words.{IsWord32}
use infrarust.Protocol.Error.{Result, ok, err}
use infrarust.Protocol.VarInt
use infrarust.Protocol.Codec.{
  Reader, return, read_u8, read_exact, read_var_int, read_string, write_all, write_var_int,
  write_string, as_i32, max_string_chars,
}
use infrarust.Protocol.Codec.Utf8.{char_count, is_utf8-length}
use infrarust.Protocol.Codec.RoundTrips.{RoundTrips, then-RoundTrips, last-RoundTrips}
use infrarust.Protocol.Codec.Values.{
  write_var_int-RoundTrips, IsText, write_string-RoundTrips, write_all-RoundTrips,
  write_u8-RoundTrips,
}
use infrarust.Protocol.Play.Commands.{
  has_flag, read_bound, read_range, read_flag_byte, read_registry_name, read_string_mode,
  read_parser_properties,
}

-- The protocol's forms: nothing, a number's flags with the bounds of this width that they announce,
-- a VarInt, one byte of flags, this many bytes, and the name of a registry.
pub data PropertyForm : Type 0 where
  nothing : PropertyForm
  bounds : ℕ → PropertyForm
  mode : PropertyForm
  flag_byte : PropertyForm
  plain : ℕ → PropertyForm
  registry_name : PropertyForm

unfoldable pub form_of : ℕ → PropertyForm
form_of id =
    if id == 1
    then bounds 4
    else if id == 2
    then bounds 8
    else if id == 3
    then bounds 4
    else if id == 4
    then bounds 8
    else if id == 5
    then mode
    else if id == 6
    then flag_byte
    else if id == 31
    then flag_byte
    else if id == 43
    then plain 4
    else if leb 44 id
    then (if leb id 47 then registry_name else nothing)
    else nothing

pub record AreBounds (width : ℕ) (properties : List ℕ) : Type 0 where
  pub flags : ℕ
  pub low : List ℕ
  pub high : List ℕ
  pub together : properties ≡ flags ∷ (low ++ high)
  pub length_low : length low ≡ (if has_flag 0x01 flags then width else 0)
  pub length_high : length high ≡ (if has_flag 0x02 flags then width else 0)

abbrev pub HasForm : PropertyForm → List ℕ → Type 0
HasForm nothing properties = properties ≡ []
HasForm (bounds width) properties = AreBounds width properties
HasForm mode properties = (v : ℕ) × IsWord32 v × (properties ≡ VarInt.encode v)
HasForm flag_byte properties = (flags : ℕ) × (properties ≡ flags ∷ [])
HasForm (plain width) properties = length properties ≡ width
HasForm registry_name properties =
    (name : List ℕ) × IsText max_string_chars name
    × (properties ≡ VarInt.encode (length name) ++ name)

-- The bytes of the properties have the form of the parser of this number.
abbrev pub AreProperties : ℕ → List ℕ → Type 0
AreProperties id properties = HasForm (form_of id) properties

read_form : PropertyForm → Reader (List ℕ)
read_form nothing = return []
read_form (bounds width) = read_range width
read_form mode = read_string_mode
read_form flag_byte = read_flag_byte
read_form (plain width) = read_exact width
read_form registry_name = read_registry_name

read_bound-RoundTrips :
    (announced : Bool) (width : ℕ) (b : List ℕ)
    → length b ≡ (if announced then width else 0)
    → RoundTrips (write_all b) (read_bound announced width) b
unfolding read_bound
read_bound-RoundTrips true width b h = write_all-RoundTrips width b (sym h)
read_bound-RoundTrips false width [] h = ([], refl, λ rest. refl)
read_bound-RoundTrips false width (x ∷ b) h = absurd (omega (arith, h))

read_range-RoundTrips :
    (width flags : ℕ) (low high : List ℕ)
    → length low ≡ (if has_flag 0x01 flags then width else 0)
    → length high ≡ (if has_flag 0x02 flags then width else 0)
    → RoundTrips (write_all (flags ∷ (low ++ high))) (read_range width) (flags ∷ (low ++ high))
unfolding read_range
read_range-RoundTrips width flags low high l h =
    then-RoundTrips (write_all (flags ∷ [])) (write_all (low ++ high)) read_u8 _ flags _
      (write_u8-RoundTrips flags)
      (then-RoundTrips (write_all low) (write_all high) (read_bound (has_flag 0x01 flags) width) _
        low _ (read_bound-RoundTrips (has_flag 0x01 flags) width low l)
        (last-RoundTrips (write_all high) (read_bound (has_flag 0x02 flags) width)
          (λ high. flags ∷ (low ++ high)) high
          (read_bound-RoundTrips (has_flag 0x02 flags) width high h)))

abbrev bytes_of : List ℕ → Result (List ℕ) → List ℕ
bytes_of default (ok bytes) = bytes
bytes_of default (err e) = default

write_string-bytes :
    (name : List ℕ)
    → IsText max_string_chars name
    → write_string name ≡ ok (VarInt.encode (length name) ++ name)
unfolding write_string write_var_int
write_string-bytes name (utf8, (short, within)) =
    let bytes_le = is_utf8-length name utf8 in
    let sendable : ltb max_string_chars (char_count name) ≡ false = ground arith in
    let len : as_i32 (length name) ≡ length name = mod-eq_of_lt (omega arith) in
    rw (sendable, len) refl

read_form-RoundTrips :
    (form : PropertyForm) (properties : List ℕ)
    → HasForm form properties
    → RoundTrips (write_all properties) (read_form form) properties
unfolding read_form read_string_mode read_flag_byte read_registry_name write_var_int
read_form-RoundTrips nothing properties e = rw e ([], refl, λ rest. refl)
read_form-RoundTrips (bounds width) properties b =
    rw b.together (read_range-RoundTrips width b.flags b.low b.high b.length_low b.length_high)
read_form-RoundTrips mode properties (v, word, e) = rw e (
    last-RoundTrips (write_all (VarInt.encode v)) read_var_int VarInt.encode v
      (write_var_int-RoundTrips v word))
read_form-RoundTrips flag_byte properties (flags, e) = rw e (
    last-RoundTrips (write_all (flags ∷ [])) read_u8 (λ byte. byte ∷ []) flags
      (write_u8-RoundTrips flags))
read_form-RoundTrips (plain width) properties e = write_all-RoundTrips width properties (sym e)
read_form-RoundTrips registry_name properties (name, text, e) =
    let (written, same, back) =
      last-RoundTrips (write_string name) read_string (λ s. VarInt.encode (as_i32 (length s)) ++ s)
        name (write_string-RoundTrips max_string_chars name text) in
    let short = is_utf8-length name text.0 in
    let len : as_i32 (length name) ≡ length name = mod-eq_of_lt (omega (arith, short, text.1.1)) in
    let bytes : written ≡ VarInt.encode (length name) ++ name =
      ap (bytes_of []) (sym same ∙ write_string-bytes name text) in
    (properties, refl, rw (e, ← bytes) (rw (len, ← bytes) at back))

form_if :
    (c : Bool) (a b : PropertyForm)
    → read_form (if c then a else b) ≡ (if c then read_form a else read_form b)
form_if true a b = refl
form_if false a b = refl

read_parser_properties-form_of : (id : ℕ) → read_parser_properties id ≡ read_form (form_of id)
unfolding read_parser_properties form_of read_form
read_parser_properties-form_of id = simp form_if refl

pub properties-RoundTrips :
    (id : ℕ) (properties : List ℕ)
    → AreProperties id properties
    → RoundTrips (write_all properties) (read_parser_properties id) properties
properties-RoundTrips id properties h =
    rw (read_parser_properties-form_of id) (read_form-RoundTrips (form_of id) properties h)
