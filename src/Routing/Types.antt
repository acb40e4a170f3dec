-- ===== src/Routing/Types.antt =====
-- provider/provider_id.rs, the fields of infrarust_config's server.rs that the router reads, and
-- `normalize_handshake` of util/mod.rs.
use Prim.Native.Char.{code}
use Prim.Native.String.{String}
use infrarust.Common.{
  ◌≡◌, ◌↔◌, Bool, true, false, ◌&&◌, ◌||◌, Option, none, some, List, ◌==◌, if◌then◌else◌, arith,
}
use infrarust.Common.Maps.{Eq, string_key}

pub record ProviderId : Type 0 where
  pub provider_type : String
  pub unique_id : String

abbrev pub provider_beq : ProviderId → ProviderId → Bool
provider_beq p q =
    string_key.beq p.provider_type q.provider_type && string_key.beq p.unique_id q.unique_id

pub provider_beq_iff : (p q : ProviderId) → (provider_beq p q ≡ true) ↔ (p ≡ q)
provider_beq_iff p q = ground (
  arith,
  string_key.beq_iff p.provider_type q.provider_type,
  string_key.beq_iff p.unique_id q.unique_id,
)

instance abbrev pub provider_key : Eq ProviderId
provider_key = record { beq = provider_beq; beq_iff = provider_beq_iff }

-- The fields that routing reads; the others are passed through in `rest`.
pub record ServerConfig {ℓ} (A : Type ℓ) : Type ℓ where
  pub id : Option String
  pub name : Option String
  pub domains : List String
  pub rest : A

abbrev pub effective_id {ℓ} : {A : Type ℓ} → ServerConfig A → String
effective_id c = elim c.name [
  | some name ↦ name
  | none ↦ elim c.id [ some id ↦ id | none ↦ "unknown" ]
]

-- `&domain[..pos]` at the first NUL, and `trim_end_matches('.')`.
abbrev pub before_nul : String → String
before_nul String.[] = String.[]
before_nul (String.◌∷◌ c s) =
    let rest = before_nul s in if code c == 0 then String.[] else String.◌∷◌ c rest

abbrev pub is_empty_text : String → Bool
is_empty_text String.[] = true
is_empty_text (String.◌∷◌ c s) = false

abbrev pub trim_end_dots : String → String
trim_end_dots String.[] = String.[]
trim_end_dots (String.◌∷◌ c s) =
    let rest = trim_end_dots s in
    if (code c == 46) && is_empty_text rest then String.[] else String.◌∷◌ c rest

abbrev pub normalize_handshake : String → String
normalize_handshake domain = trim_end_dots (before_nul domain)

-- A `*` or a `?` stands in the domain.
unfoldable pub is_wildcard : String → Bool
is_wildcard String.[] = false
is_wildcard (String.◌∷◌ c s) = let rest = is_wildcard s in (code c == 42) || (code c == 63) || rest
