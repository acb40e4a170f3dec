-- ===== src/Protocol/Play/Commands/Names.antt =====
-- The names of argument parsers before 1.19, and their numbers from then on.
use Prim.Native.String.{String}
use infrarust.Common.{ℕ, ◌-◌, ◌^◌, List, [], ◌∷◌, ◌==◌, if◌then◌else◌, Bool, true, false}
use Prim.Native.Char.{code}

-- The bytes of a literal in ASCII.
unfoldable pub ascii : String → List ℕ
ascii String.[] = []
ascii (String.◌∷◌ c s) = code c ∷ ascii s

abbrev pub parser_names : List (String × ℕ)
parser_names =
    ("brigadier:bool", 0)
    ∷ ("brigadier:float", 1)
    ∷ ("brigadier:double", 2)
    ∷ ("brigadier:integer", 3)
    ∷ ("brigadier:long", 4)
    ∷ ("brigadier:string", 5)
    ∷ ("minecraft:entity", 6)
    ∷ ("minecraft:game_profile", 7)
    ∷ ("minecraft:block_pos", 8)
    ∷ ("minecraft:column_pos", 9)
    ∷ ("minecraft:vec3", 10)
    ∷ ("minecraft:vec2", 11)
    ∷ ("minecraft:block_state", 12)
    ∷ ("minecraft:block_predicate", 13)
    ∷ ("minecraft:item_stack", 14)
    ∷ ("minecraft:item_predicate", 15)
    ∷ ("minecraft:color", 16)
    ∷ ("minecraft:component", 17)
    ∷ ("minecraft:message", 18)
    ∷ ("minecraft:nbt_compound_tag", 19)
    ∷ ("minecraft:nbt", 19)
    ∷ ("minecraft:nbt_tag", 20)
    ∷ ("minecraft:nbt_path", 21)
    ∷ ("minecraft:objective", 22)
    ∷ ("minecraft:objective_criteria", 23)
    ∷ ("minecraft:operation", 24)
    ∷ ("minecraft:particle", 25)
    ∷ ("minecraft:angle", 26)
    ∷ ("minecraft:rotation", 27)
    ∷ ("minecraft:scoreboard_slot", 28)
    ∷ ("minecraft:score_holder", 29)
    ∷ ("minecraft:swizzle", 30)
    ∷ ("minecraft:team", 31)
    ∷ ("minecraft:item_slot", 32)
    ∷ ("minecraft:resource_location", 33)
    ∷ ("minecraft:function", 34)
    ∷ ("minecraft:entity_anchor", 35)
    ∷ ("minecraft:int_range", 36)
    ∷ ("minecraft:float_range", 37)
    ∷ ("minecraft:dimension", 38)
    ∷ ("minecraft:gamemode", 39)
    ∷ ("minecraft:time", 40)
    ∷ ("minecraft:resource_or_tag", 41)
    ∷ ("minecraft:resource_or_tag_key", 42)
    ∷ ("minecraft:resource", 43)
    ∷ ("minecraft:resource_key", 44)
    ∷ ("minecraft:template_mirror", 45)
    ∷ ("minecraft:template_rotation", 46)
    ∷ ("minecraft:heightmap", 47)
    ∷ []

unfoldable pub same_bytes : List ℕ → List ℕ → Bool
same_bytes [] [] = true
same_bytes [] (c ∷ t) = false
same_bytes (b ∷ s) [] = false
same_bytes (b ∷ s) (c ∷ t) = let rest = same_bytes s t in if b == c then rest else false

unfoldable pub id_of : List (String × ℕ) → List ℕ → ℕ
id_of [] name = 2 ^ 32 - 1
id_of ((known, id) ∷ names) name =
    let rest = id_of names name in if same_bytes (ascii known) name then id else rest

-- A name that is not known is `-1`.
abbrev pub named_parser_to_id : List ℕ → ℕ
named_parser_to_id name = id_of parser_names name

unfoldable pub name_of : List (String × ℕ) → ℕ → List ℕ
name_of [] id = ascii "brigadier:string"
name_of ((known, number) ∷ names) id =
    let rest = name_of names id in if number == id then ascii known else rest

-- The first name of a number.
abbrev pub indexed_parser_to_name : ℕ → List ℕ
indexed_parser_to_name id = name_of parser_names id
