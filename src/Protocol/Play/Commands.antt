-- ===== src/Protocol/Play/Commands.antt =====
-- play/commands.rs: the tree of commands that a client is offered.
pub mod Names
pub mod Properties
pub mod RoundTrip
use Prim.Native.Nat.{bit_and}
use infrarust.Common.{
  ℕ, ◌+◌, Bool, true, false, Option, none, some, List, [], ◌∷◌, ◌++◌, length, ◌==◌, leb,
  if◌then◌else◌,
}
use infrarust.Protocol.Words.{is_negative_32}
use infrarust.Protocol.Error.{Result, ok, err, invalid}
use infrarust.Protocol.VarInt
use infrarust.Protocol.Version.{ProtocolVersion, no_less_than, v1_19}
use infrarust.Protocol.Codec.{
  Reader, Writer, ◌>>=◌, return, fail, ◌>>◌, nothing_written, read_u8, read_exact, read_var_int,
  read_string, read_many, write_all, write_var_int, as_i32, write_string, write_many,
}
use infrarust.Protocol.Play.Commands.Names.{named_parser_to_id, indexed_parser_to_name}

pub data Parser : Type 0 where
  named : List ℕ → List ℕ → Parser
  indexed : ℕ → List ℕ → Parser

pub record CommandNode : Type 0 where
  pub flags : ℕ
  pub children : List ℕ
  pub redirect_node : Option ℕ
  pub name : Option (List ℕ)
  pub parser : Option Parser
  pub suggestions_type : Option (List ℕ)

pub record CCommands : Type 0 where
  pub nodes : List CommandNode
  pub root_index : ℕ

-- `flags & mask != 0`.
abbrev pub has_flag : ℕ → ℕ → Bool
has_flag mask flags = if bit_and flags mask == 0 then false else true

abbrev pub node_type : ℕ → ℕ
node_type flags = bit_and flags 0x03

-- One bound of a number, where the flag announces it.
unfoldable pub read_bound : Bool → ℕ → Reader (List ℕ)
read_bound announced width = if announced then read_exact width else return []

unfoldable pub read_range : ℕ → Reader (List ℕ)
read_range width = do
  flags ← read_u8
  low ← read_bound (has_flag 0x01 flags) width
  high ← read_bound (has_flag 0x02 flags) width
  return (flags ∷ (low ++ high))

unfoldable pub read_flag_byte : Reader (List ℕ)
read_flag_byte = do byte ← read_u8; return (byte ∷ [])

-- A string is encoded again behind its length; the string that was read is short enough.
unfoldable pub read_registry_name : Reader (List ℕ)
read_registry_name = do s ← read_string; return (VarInt.encode (as_i32 (length s)) ++ s)

unfoldable pub read_string_mode : Reader (List ℕ)
read_string_mode = do mode ← read_var_int; return (VarInt.encode mode)

unfoldable pub read_parser_properties : ℕ → Reader (List ℕ)
read_parser_properties id =
    if id == 1
    then read_range 4
    else if id == 2
    then read_range 8
    else if id == 3
    then read_range 4
    else if id == 4
    then read_range 8
    else if id == 5
    then read_string_mode
    else if id == 6
    then read_flag_byte
    else if id == 31
    then read_flag_byte
    else if id == 43
    then read_exact 4
    else if leb 44 id
    then (if leb id 47 then read_registry_name else return [])
    else return []

unfoldable pub decode_indexed : Reader Parser
decode_indexed = do
  id ← read_var_int
  properties ← read_parser_properties id
  return (indexed id properties)

unfoldable pub decode_named : Reader Parser
decode_named = do
  identifier ← read_string
  properties ← read_parser_properties (named_parser_to_id identifier)
  return (named identifier properties)

unfoldable pub decode_parser : ProtocolVersion → Reader Parser
decode_parser version = if no_less_than version v1_19 then decode_indexed else decode_named

unfoldable pub encode_parser : ProtocolVersion → Parser → Writer
encode_parser version (indexed id properties) =
    (if no_less_than version v1_19
      then write_var_int id
      else write_string (indexed_parser_to_name id))
    >> write_all properties
encode_parser version (named identifier properties) =
    (if no_less_than version v1_19
      then write_var_int (named_parser_to_id identifier)
      else write_string identifier)
    >> write_all properties

unfoldable pub read_children : ℕ → Reader (List ℕ)
read_children count =
    if is_negative_32 count
    then fail (invalid "negative child count")
    else read_many read_var_int count

unfoldable pub read_if : {A : Type 0} → Bool → Reader A → Reader (Option A)
read_if wanted read = if wanted then (read >>= λ a. return (some a)) else return none

-- What a node of its type has: name, parser and suggestions.
pub record NodeBody : Type 0 where
  pub name : Option (List ℕ)
  pub parser : Option Parser
  pub suggestions_type : Option (List ℕ)

abbrev pub root_body : NodeBody
root_body = record { name = none; parser = none; suggestions_type = none }

unfoldable pub read_literal : Reader NodeBody
read_literal = do
  name ← read_string
  return (record { name = some name; parser = none; suggestions_type = none })

unfoldable pub read_argument : ProtocolVersion → ℕ → Reader NodeBody
read_argument version flags = do
  name ← read_string
  parser ← decode_parser version
  suggestions_type ← read_if (has_flag 0x10 flags) read_string
  return (record { name = some name; parser = some parser; suggestions_type = suggestions_type })

unfoldable pub read_body : ProtocolVersion → ℕ → Reader NodeBody
read_body version flags =
    if node_type flags == 0
    then return root_body
    else if node_type flags == 1
    then read_literal
    else if node_type flags == 2
    then read_argument version flags
    else fail (invalid "unknown command node type")

unfoldable pub decode_node : ProtocolVersion → Reader CommandNode
decode_node version = do
  flags ← read_u8
  count ← read_var_int
  children ← read_children count
  redirect_node ← read_if (has_flag 0x08 flags) read_var_int
  body ← read_body version flags
  return (record {
    flags = flags;
    children = children;
    redirect_node = redirect_node;
    name = body.name;
    parser = body.parser;
    suggestions_type = body.suggestions_type;
  })

-- `if let Some(x)`: what is written of a value that is there.
abbrev pub write_some : {A : Type 0} → (A → Writer) → Option A → Writer
write_some write (some a) = write a
write_some write none = nothing_written

unfoldable pub write_body : ProtocolVersion → CommandNode → Writer
write_body version node =
    if node_type node.flags == 0
    then nothing_written
    else if node_type node.flags == 1
    then write_some write_string node.name
    else if node_type node.flags == 2
    then (write_some write_string node.name
        >> (write_some (encode_parser version) node.parser
            >> write_some write_string node.suggestions_type))
    else nothing_written

unfoldable pub encode_node : ProtocolVersion → CommandNode → Writer
encode_node version node =
    write_all (node.flags ∷ [])
    >> (write_var_int (as_i32 (length node.children))
        >> (write_many write_var_int node.children
            >> (write_some write_var_int node.redirect_node >> write_body version node)))

unfoldable pub read_nodes : ProtocolVersion → ℕ → Reader (List CommandNode)
read_nodes version count =
    if is_negative_32 count
    then fail (invalid "negative node count")
    else read_many (decode_node version) count

unfoldable pub decode_commands : ProtocolVersion → Reader CCommands
decode_commands version = do
  count ← read_var_int
  nodes ← read_nodes version count
  root_index ← read_var_int
  return (record { nodes = nodes; root_index = root_index })

unfoldable pub encode_commands : ProtocolVersion → CCommands → Writer
encode_commands version p =
    write_var_int (as_i32 (length p.nodes))
    >> (write_many (encode_node version) p.nodes >> write_var_int p.root_index)
