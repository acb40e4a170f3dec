-- ===== src/Protocol/Play/Commands/RoundTrip.antt =====
-- The tree of Commands, written and read back.
use infrarust.Common.{
  ℕ, ◌^◌, ◌<◌, ◌≡◌, Bool, true, false, Option, none, some, List, length, All, ◌⊎◌, inl, inr, arith,
}
use infrarust.Protocol.Words.{IsWord32, is_negative_32}
use infrarust.Protocol.Version.{ProtocolVersion, no_less_than, v1_19}
use infrarust.Protocol.Codec.{
  Reader, Writer, read_u8, read_var_int, read_string, write_var_int, as_i32, write_string,
  max_string_chars,
}
use infrarust.Protocol.Codec.RoundTrips.{
  RoundTrips, nothing-RoundTrips, then-RoundTrips, last-RoundTrips, write_many-RoundTrips,
}
use infrarust.Protocol.Codec.Values.{
  write_var_int-RoundTrips, write_u8-RoundTrips, IsText, write_string-RoundTrips,
}
use infrarust.Protocol.Play.Commands.{
  Parser, named, indexed, CommandNode, CCommands, has_flag, node_type, read_parser_properties,
  decode_indexed, decode_named, decode_parser, encode_parser, read_children, read_if, NodeBody,
  root_body, read_literal, read_argument, read_body, decode_node, write_some, write_body,
  encode_node, read_nodes, decode_commands, encode_commands,
}
use infrarust.Protocol.Play.Commands.Names.{named_parser_to_id}
use infrarust.Protocol.Play.Commands.Properties.{AreProperties, properties-RoundTrips}

-- A parser in the version's own form.
abbrev pub IsParser : ProtocolVersion → Parser → Type 0
IsParser version (indexed id properties) =
    (no_less_than version v1_19 ≡ true) × (IsWord32 id × AreProperties id properties)
IsParser version (named identifier properties) =
    (no_less_than version v1_19 ≡ false)
    × (IsText max_string_chars identifier
        × AreProperties (named_parser_to_id identifier) properties)

encode_parser-RoundTrips :
    (version : ProtocolVersion) (p : Parser)
    → IsParser version p
    → RoundTrips (encode_parser version p) (decode_parser version) p
unfolding encode_parser decode_parser decode_indexed decode_named
encode_parser-RoundTrips version (indexed id properties) (new, (word, ps)) = rw new (
    then-RoundTrips _ _ read_var_int _ id _ (write_var_int-RoundTrips id word) (
      last-RoundTrips _ (read_parser_properties id) (indexed id) properties
        (properties-RoundTrips id properties ps)))
encode_parser-RoundTrips version (named identifier properties) (old, (text, ps)) = rw old (
    then-RoundTrips _ _ read_string _ identifier _
      (write_string-RoundTrips max_string_chars identifier text)
      (last-RoundTrips _ (read_parser_properties (named_parser_to_id identifier)) (named identifier)
        properties (properties-RoundTrips (named_parser_to_id identifier) properties ps)))

-- A value is there when its flag is set.
abbrev pub Announced : {A : Type 0} → (A → Type 0) → Bool → Option A → Type 0
Announced P true (some a) = P a
Announced P true none = ⊥
Announced P false (some a) = ⊥
Announced P false none = Unit

Announced-RoundTrips :
    {A : Type 0} (write : A → Writer) (read : Reader A) (P : A → Type 0)
    → ((a : A) → P a → RoundTrips (write a) read a)
    → (wanted : Bool) (o : Option A) → Announced P wanted o
    → RoundTrips (write_some write o) (read_if wanted read) o
unfolding read_if
Announced-RoundTrips write read P h true (some a) p = last-RoundTrips (write a) read some a (h a p)
Announced-RoundTrips write read P h true none p = absurd p
Announced-RoundTrips write read P h false (some a) p = absurd p
Announced-RoundTrips write read P h false none p = nothing-RoundTrips none

-- The three kinds of nodes.
pub record IsRoot (n : CommandNode) : Type 0 where
  pub kind : node_type n.flags ≡ 0
  pub no_name : n.name ≡ none
  pub no_parser : n.parser ≡ none
  pub no_suggestions : n.suggestions_type ≡ none

pub record IsLiteral (n : CommandNode) : Type 0 where
  pub kind : node_type n.flags ≡ 1
  pub text : List ℕ
  pub text_name : n.name ≡ some text
  pub text_IsText : IsText max_string_chars text
  pub no_parser : n.parser ≡ none
  pub no_suggestions : n.suggestions_type ≡ none

pub record IsArgument (version : ProtocolVersion) (n : CommandNode) : Type 0 where
  pub kind : node_type n.flags ≡ 2
  pub text : List ℕ
  pub text_name : n.name ≡ some text
  pub text_IsText : IsText max_string_chars text
  pub reader : Parser
  pub reader_parser : n.parser ≡ some reader
  pub reader_IsParser : IsParser version reader
  pub suggestions : Announced (IsText max_string_chars) (has_flag 0x10 n.flags) n.suggestions_type

pub record IsNode (version : ProtocolVersion) (n : CommandNode) : Type 0 where
  pub few_children : length n.children < 2 ^ 31
  pub each_child : All IsWord32 n.children
  pub redirect : Announced IsWord32 (has_flag 0x08 n.flags) n.redirect_node
  pub body : (IsRoot n ⊎ IsLiteral n) ⊎ IsArgument version n

abbrev body_of : CommandNode → NodeBody
body_of n = record { name = n.name; parser = n.parser; suggestions_type = n.suggestions_type }

write_body-RoundTrips :
    (version : ProtocolVersion) (n : CommandNode)
    → (IsRoot n ⊎ IsLiteral n) ⊎ IsArgument version n
    → RoundTrips (write_body version n) (read_body version n.flags) (body_of n)
unfolding write_body read_body read_literal read_argument
write_body-RoundTrips version n (inl (inl h)) =
    rw (write_body, read_body, h.kind, h.no_name, h.no_parser, h.no_suggestions)
      (nothing-RoundTrips root_body)
write_body-RoundTrips version n (inl (inr h)) =
    rw (write_body, read_body, h.kind, h.text_name, h.no_parser, h.no_suggestions)
      (last-RoundTrips _ read_string _ h.text
        (write_string-RoundTrips max_string_chars h.text h.text_IsText))
write_body-RoundTrips version n (inr h) =
    rw (write_body, read_body, h.kind, h.text_name, h.reader_parser)
      (then-RoundTrips _ _ read_string _ h.text _
        (write_string-RoundTrips max_string_chars h.text h.text_IsText)
        (then-RoundTrips _ _ (decode_parser version) _ h.reader _
          (encode_parser-RoundTrips version h.reader h.reader_IsParser)
          (last-RoundTrips _ (read_if (has_flag 0x10 n.flags) read_string) _ n.suggestions_type (
            Announced-RoundTrips write_string read_string (IsText max_string_chars)
              (λ s t. write_string-RoundTrips max_string_chars s t) (has_flag 0x10 n.flags)
              n.suggestions_type h.suggestions))))

encode_node-RoundTrips :
    (version : ProtocolVersion) (n : CommandNode)
    → IsNode version n
    → RoundTrips (encode_node version n) (decode_node version) n
unfolding encode_node decode_node read_children
encode_node-RoundTrips version n h =
    let few = h.few_children in
    let count : as_i32 (length n.children) ≡ length n.children = omega arith in
    let positive : is_negative_32 (length n.children) ≡ false = ground arith in
    then-RoundTrips _ _ read_u8 _ n.flags n (write_u8-RoundTrips n.flags) (
      rw count (
        then-RoundTrips _ _ read_var_int _ (length n.children) n
          (write_var_int-RoundTrips _ (omega arith))
          (then-RoundTrips _ _ (read_children (length n.children)) _ n.children n
            (rw (read_children, positive)
              (write_many-RoundTrips write_var_int read_var_int IsWord32 write_var_int-RoundTrips
                n.children h.each_child))
            (then-RoundTrips _ _ (read_if (has_flag 0x08 n.flags) read_var_int) _ n.redirect_node n
              (Announced-RoundTrips write_var_int read_var_int IsWord32 write_var_int-RoundTrips
                (has_flag 0x08 n.flags) n.redirect_node h.redirect)
              (last-RoundTrips _ (read_body version n.flags) _ (body_of n)
                (write_body-RoundTrips version n h.body))))))

pub record IsCommands (version : ProtocolVersion) (p : CCommands) : Type 0 where
  pub few_nodes : length p.nodes < 2 ^ 31
  pub each_node : All (IsNode version) p.nodes
  pub root_word : IsWord32 p.root_index

pub encode_commands-RoundTrips :
    (version : ProtocolVersion) (p : CCommands)
    → IsCommands version p
    → RoundTrips (encode_commands version p) (decode_commands version) p
unfolding encode_commands decode_commands read_nodes
encode_commands-RoundTrips version p h =
    let few = h.few_nodes in
    let count : as_i32 (length p.nodes) ≡ length p.nodes = omega arith in
    let positive : is_negative_32 (length p.nodes) ≡ false = ground arith in
    rw count (
      then-RoundTrips _ _ read_var_int _ (length p.nodes) p
        (write_var_int-RoundTrips _ (omega arith))
        (then-RoundTrips _ _ (read_nodes version (length p.nodes)) _ p.nodes p
          (rw (read_nodes, positive)
            (write_many-RoundTrips (encode_node version) (decode_node version) (IsNode version)
              (encode_node-RoundTrips version) p.nodes h.each_node))
          (last-RoundTrips _ read_var_int _ p.root_index (write_var_int-RoundTrips _ h.root_word))))
